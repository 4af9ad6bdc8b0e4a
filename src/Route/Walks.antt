-- ===== src/Route/Walks.antt =====
-- The search of `ShortestPathTo`, pkg/galwar/universe.go, ends, and the path that it traces back
-- follows warps.
use galwar.Base.{
  ℕ, zero, suc, ◌+◌, ◌≤◌, ◌<◌, ◌≡◌, ◌≢◌, refl, sym, ◌∙◌, ◌⊎◌, inl, inr, Bool, true, false, none,
  some, List, [], ◌∷◌, length, ltb, leb, Bool-cases, Option-cases, ◌||◌, arith,
}
use mathlib.Core.Path.{subst}
use galwar.Universe.{Universe, Sector}
use galwar.Sector.{sector_at}
use galwar.Route.{
  max_int, Labels, put, numbered, initial, pick, settle, explore, trace, shortest_path_to, Found,
  settled, unreachable, way, no_way,
}
use galwar.Route.Settled.{
  Warp, Known, Tied, Good, decide_eq, relax_all-visited, Good-settle, Good-Known, Good-initial,
  Known-near,
}
use galwar.Route.Picks.{==-apart, ==-same, Open-picked, left, left-put, left-size}

module _ (u : Universe) (from target : ℕ) where
  -- The path follows warps, from its first sector to `target`.
  pub data Leads : ℕ → List ℕ → Type 0 where
    arrive : Leads target (target ∷ [])
    hop : {v w : ℕ} {p : List ℕ} → Warp u from v w → Leads w p → Leads v (v ∷ p)

  trace-Tied :
      {k at : ℕ} {l : Labels} → Good u from k l → Known u from l at → at ≢ from → Tied u from l at
  trace-Tied g (inl e) ne = absurd (ne e)
  trace-Tied g (inr (low, high)) ne = g.tied _ low high

  trace-Leads :
      (k : ℕ) (l : Labels)
      → Good u from k l
      → (n at : ℕ) (path : List ℕ) → Known u from l at
      → l.distance at ≤ n
      → Leads at (at ∷ path)
      → (p : List ℕ) × (trace n l.previous from at path ≡ way p) × Leads from p
  unfolding trace
  trace-Leads k l g zero at path (inl e) le walk =
      (from ∷ path, rw (==-same e), subst (λ z. Leads z (z ∷ path)) e walk)
  trace-Leads k l g zero at path (inr (low, high)) le walk = absurd (omega (arith, low, le))
  trace-Leads k l g (suc n) at path known le walk = elim (decide_eq at from) [
    | inl e ↦ (from ∷ path, rw (==-same e), subst (λ z. Leads z (z ∷ path)) e walk)
    | inr ne ↦
        let t = trace-Tied g known ne in
        let rest =
          trace-Leads k l g n (l.previous at) (at ∷ path) t.known (omega (arith, le, t.farther))
            (hop t.warp walk) in
        (rest.0, (rw (==-apart ne)) ∙ rest.1, rest.2)
  ]

  record Arrival (r : Found) : Type 0 where
    labels : Labels
    rounds : ℕ
    found : r ≡ settled labels
    good : Good u from rounds labels
    enough : rounds ≤ length u.sectors
    known : Known u from labels target

  pub explore-here :
      (n current : ℕ) (l : Labels) → current ≡ target → explore u n target current l ≡ settled l
  unfolding explore
  explore-here zero current l e = rw (==-same e)
  explore-here (suc n) current l e = rw (==-same e, explore)

  module _ (n current : ℕ) (l : Labels) (ne : current ≢ target) where
    pub explore-none :
        pick (settle u current l) u.sectors max_int none ≡ none
        → explore u (suc n) target current l ≡ unreachable
    unfolding explore
    explore-none h = rw (==-apart ne, h, explore)

    pub explore-some :
        (v : ℕ)
        → pick (settle u current l) u.sectors max_int none ≡ some v
        → explore u (suc n) target current l ≡ explore u n target v (settle u current l)
    unfolding explore
    explore-some v h = rw (==-apart ne, h, explore)

  left-settle :
      (current : ℕ) (l : Labels)
      → numbered current u.sectors ≡ true
      → l.visited current ≡ false
      → left (settle u current l).visited u.sectors < left l.visited u.sectors
  unfolding settle
  left-settle current l h fresh =
      subst (λ f. left f u.sectors < left l.visited u.sectors)
        (sym (
          relax_all-visited u from current (sector_at u current).warps
            (record l { visited = put l.visited current true })))
        (left-put l.visited current u.sectors h fresh)

  Arrives : Found → Type 0
  Arrives r = (r ≡ unreachable) ⊎ Arrival r

  explore-Arrives :
      (n k current : ℕ) (l : Labels)
      → Good u from k l
      → Known u from l current
      → l.visited current ≡ false
      → numbered current u.sectors ≡ true
      → left l.visited u.sectors ≤ n
      → k + n ≤ length u.sectors
      → Arrives (explore u n target current l)
  unfolding Arrives
  explore-Arrives zero k current l g known fresh h le fuel =
      absurd (omega (arith, le, left-settle current l h fresh))
  explore-Arrives (suc n) k current l g known fresh h le fuel = elim (decide_eq current target) [
    | inl e ↦ inr (record {
      labels = l;
      rounds = k;
      found = explore-here (suc n) current l e;
      good = g;
      enough = omega (arith, fuel);
      known = subst (Known u from l) e known;
    })
    | inr ne ↦ elim (Option-cases (pick (settle u current l) u.sectors max_int none)) [
      | inl q ↦ inl (explore-none n current l ne q)
      | inr (v, q) ↦
          let o = Open-picked (settle u current l) u.sectors v q in
          let good = Good-settle u from k current l g known in
          subst Arrives (sym (explore-some n current l ne v q)) (
            explore-Arrives n (k + 1) v (settle u current l) good
              (Good-Known u from (k + 1) v _ good o.0 o.2) o.1 o.0
              (omega (arith, le, left-settle current l h fresh)) (omega (arith, fuel)))
    ]
  ]

pub initial-visited : (ss : List Sector) (from v : ℕ) → (initial ss from).visited v ≡ false
unfolding initial
initial-visited ss from v = refl

-- The test that leaves the function before the search
abbrev pub outside : Universe → ℕ → ℕ → Bool
outside u from target =
    let n = length u.sectors in (ltb from 1 || leb n from) || (ltb target 1 || leb n target)

pub Leads-explore :
    (u : Universe) (from target : ℕ)
    → numbered from u.sectors ≡ true
    → outside u from target ≡ false
    → (explore u (length u.sectors) target from (initial u.sectors from) ≡ unreachable)
      ⊎ ((p : List ℕ) × (shortest_path_to u from target ≡ way p) × Leads u from target from p)
unfolding shortest_path_to Arrives
Leads-explore u from target h e =
    let n = length u.sectors in
    elim (explore-Arrives u from target n 0 from (initial u.sectors from) (Good-initial u from)
      (inl refl) (initial-visited u.sectors from from) h (left-size _ u.sectors) (ground arith)) [
        | inl q ↦ inl q
        | inr a ↦
            let near = Known-near u from a.rounds target a.labels a.good a.known in
            let t =
              trace-Leads u from target a.rounds a.labels a.good n target [] a.known
                (omega (arith, near, a.enough)) arrive in
            inr (t.0, (rw (e, a.found, t.1)), t.2)
      ]

-- From a sector that the universe has, the search ends within a round for each sector: it finds
-- that there is no way, or a path that leads along warps from the first sector to the last.
pub shortest_path_to-leads :
    (u : Universe) (from target : ℕ)
    → numbered from u.sectors ≡ true
    → (shortest_path_to u from target ≡ no_way)
      ⊎ ((p : List ℕ) × (shortest_path_to u from target ≡ way p) × Leads u from target from p)
unfolding shortest_path_to
shortest_path_to-leads u from target h = elim (Bool-cases (outside u from target)) [
  | inl e ↦ inl (rw e)
  | inr e ↦ elim (Leads-explore u from target h e) [
    | inl q ↦ inl (rw (e, q))
    | inr found ↦ inr found
  ]
]

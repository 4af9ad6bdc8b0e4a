-- ===== src/Route/Complete.antt =====
-- The search of `ShortestPathTo`, pkg/galwar/universe.go, misses no way: a warp from a visited
-- sector leads to one that was reached, and the search goes on while a sector that was reached
-- waits for its visit.
use galwar.Base.{
  ℕ, zero, suc, ◌+◌, ◌≤◌, ◌<◌, ◌≡◌, ◌≢◌, refl, sym, ap, ◌∙◌, ◌⊎◌, inl, inr, true, false, none, List,
  length, Option-cases, arith,
}
use galwar.Universe.{Universe}
use galwar.Sector.{sector_at}
use galwar.Route.{
  max_int, Labels, put, numbered, initial, pick, settle, explore, shortest_path_to, unreachable,
  out_of_fuel, way,
}
use galwar.Route.Walks.{Leads, outside, explore-here, explore-some, initial-visited, Leads-explore}
use galwar.Route.Settled.{
  Warp, Known, Good, decide_eq, put_other, put-true, relax_all-visited, Good-settle, Good-Known,
  Good-initial, Known-near,
}
use galwar.Route.Picks.{==-apart, Open-picked, pick-none}
use galwar.Route.Reach.{Reached, Closed, settle-Closed}

module _ (u : Universe) (from : ℕ) where
  -- A search that gave up: every sector of the universe that was reached was visited, and the
  -- target was not.
  record Sealed (target : ℕ) (l : Labels) : Type 0 where
    pub closed : Closed u from l
    pub start : l.visited from ≡ true
    pub missed : l.visited target ≡ false
    pub complete : (v : ℕ) → numbered v u.sectors ≡ true → Reached l v → l.visited v ≡ true

  -- A walk along warps over sectors that the universe has
  pub data Course (target : ℕ) : ℕ → Type 0 where
    arrive : Course target target
    hop :
        {v w : ℕ}
        → Warp u from v w
        → numbered w u.sectors ≡ true
        → Course target w
        → Course target v

  Sealed-Course :
      (target : ℕ) (l : Labels)
      → Sealed target l
      → (v : ℕ) → l.visited v ≡ true
      → Course target v
      → ⊥
  unfolding Closed
  Sealed-Course target l s v h arrive = cc (h, s.missed)
  Sealed-Course target l s v h (hop {w = w} warp n course) =
      Sealed-Course target l s w (s.complete w n (s.closed v w h warp)) course

  settle-Started :
      (c v : ℕ) (l : Labels) → (l.visited v ≡ true) ⊎ (c ≡ v) → (settle u c l).visited v ≡ true
  unfolding settle
  settle-Started c v l h =
      ap (λ f. f v)
        (relax_all-visited u from c (sector_at u c).warps
          (record l { visited = put l.visited c true }))
      ∙ elim h [ inl a ↦ put-true u from l.visited c v a | inr q ↦ ground (arith, q) ]

  settle-Missed :
      (c v : ℕ) (l : Labels) → l.visited v ≡ false → c ≢ v → (settle u c l).visited v ≡ false
  unfolding settle
  settle-Missed c v l h ne =
      ap (λ f. f v)
        (relax_all-visited u from c (sector_at u c).warps
          (record l { visited = put l.visited c true }))
      ∙ (put_other l.visited c true v (λ q. ne (sym q)) ∙ h)

  pick-Sealed :
      (target : ℕ) (l : Labels)
      → Closed u from l
      → l.visited from ≡ true
      → l.visited target ≡ false
      → pick l u.sectors max_int none ≡ none
      → Sealed target l
  pick-Sealed target l closed start missed q = record {
    closed = closed;
    start = start;
    missed = missed;
    complete = λ v h r. elim ((pick-none l u.sectors max_int none q).1 v h) [
      | inl a ↦ a
      | inr far ↦ elim r [ inl a ↦ a | inr near ↦ absurd (omega (arith, far, near)) ]
    ];
  }

  module _ (target : ℕ) (large : length u.sectors < max_int) where
    explore-Sealed :
        (n k c : ℕ) (l : Labels)
        → Good u from k l
        → Known u from l c
        → Closed u from l
        → (l.visited from ≡ true) ⊎ (c ≡ from)
        → l.visited target ≡ false
        → k + n ≤ length u.sectors
        → explore u n target c l ≡ unreachable
        → (l' : Labels) × Sealed target l'
    unfolding explore
    explore-Sealed zero k c l g known closed start missed fuel gave_up = elim (decide_eq c target) [
      | inl q ↦ absurd (cc (explore-here u from target zero c l q, gave_up))
      | inr ne ↦
          let stuck : explore u zero target c l ≡ out_of_fuel = rw (==-apart ne) in
          absurd (cc (stuck, gave_up))
    ]
    explore-Sealed (suc n) k c l g known closed start missed fuel gave_up =
        elim (decide_eq c target) [
          | inl q ↦ absurd (cc (explore-here u from target (suc n) c l q, gave_up))
          | inr ne ↦
              let l' = settle u c l in
              let closed' =
                settle-Closed u from c l closed
                  (omega (arith, Known-near u from k c l g known, fuel, large)) in
              let start' = settle-Started c from l start in
              let missed' = settle-Missed c target l missed ne in
              elim (Option-cases (pick l' u.sectors max_int none)) [
                | inl q ↦ (l', pick-Sealed target l' closed' start' missed' q)
                | inr (v, q) ↦
                    let o = Open-picked l' u.sectors v q in
                    let good = Good-settle u from k c l g known in
                    explore-Sealed n (k + 1) v l' good (Good-Known u from (k + 1) v l' good o.0 o.2)
                      closed' (inl start') missed' (omega (arith, fuel))
                      (sym (explore-some u from target n c l ne v q) ∙ gave_up)
              ]
        ]

initial-Closed : (u : Universe) (from : ℕ) → Closed u from (initial u.sectors from)
unfolding Closed
initial-Closed u from v w h warp = absurd (cc (h, initial-visited u.sectors from v))

-- Between sectors that are in range and that the universe has, with fewer sectors than the greatest
-- distance, a walk along warps over sectors of the universe is enough for the search to return a
-- path, and that path leads along warps from the first sector to the last.
pub shortest_path_to-finds :
    (u : Universe) (from target : ℕ)
    → numbered from u.sectors ≡ true
    → 1 ≤ from
    → from < length u.sectors
    → 1 ≤ target
    → target < length u.sectors
    → length u.sectors < max_int
    → Course u from target from
    → (p : List ℕ) × (shortest_path_to u from target ≡ way p) × Leads u from target from p
shortest_path_to-finds u from target h a b c d large course =
    elim (Leads-explore u from target h inside) [
      | inl q ↦
          let s =
            explore-Sealed u from target large (length u.sectors) 0 from (initial u.sectors from)
              (Good-initial u from) (inl refl) (initial-Closed u from) (inr refl)
              (initial-visited u.sectors from target) (ground arith) q in
          absurd (Sealed-Course u from target s.0 s.1 from s.1.start course)
      | inr found ↦ found
    ]
  where
    inside : outside u from target ≡ false
    inside = ground arith

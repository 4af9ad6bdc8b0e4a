-- ===== src/Computer/Frontier.antt =====
-- What the search of `NearestPort`, pkg/galwar/computer.go, keeps true while it runs. A walk
-- follows the warps that lead to a sector of the universe.
use galwar.Base.{
  ℕ, zero, suc, ◌+◌, ◌≤◌, ◌<◌, ◌≡◌, refl, ap, ◌⊎◌, inl, inr, Bool, true, none, List, ◌∷◌, length,
  arith,
}
use mathlib.Core.List.{Memᴰ}
use mathlib.Core.List.Memᴰ
use galwar.Universe.{Universe}
use galwar.Sector.{sector_at}
use galwar.Computer.{Node, Search, Want, marked, port_here, expand}
use galwar.Computer.Scan.{
  scan-IsFair, Ordered, Ordered-member, Ordered-weaken, Extends, Extends-scan,
}

module _ (u : Universe) where
  abbrev pub Edge : ℕ → ℕ → Type 0
  Edge v w = Memᴰ w (sector_at u v).warps × (1 ≤ w) × (w < length u.sectors)

  -- The walks from a sector, by their length
  pub data Walk (from : ℕ) : ℕ → ℕ → Type 0 where
    here : Walk from 0 from
    step : {m v w : ℕ} → Walk from m v → Edge v w → Walk from (suc m) w

module _ (u : Universe) (want : Want) (from : ℕ) where
  abbrev pub Done : Search → ℕ → Type 0
  Done s v = (port_here want v u.ports ≡ none) × ((w : ℕ) → Edge u v w → marked s w ≡ true)

  abbrev pub Queued : Search → ℕ → ℕ → Type 0
  Queued s v k = Memᴰ (record { sec = v; dist = k }) s.queue

  -- A node that the search takes before any that is farther than `m`
  abbrev pub Near : Search → ℕ → ℕ → Type 0
  Near s m v = ((k : ℕ) × Queued s v k × (k ≤ m)) ⊎ ((x : Node) × Memᴰ x s.queue × (x.dist < m))

  pub record Inv (s : Search) : Type 0 where
    pub size : length s.seen ≡ length u.sectors
    pub ordered : (d : ℕ) × Ordered d (d + 1) s.queue
    pub sound : (x : Node) → Memᴰ x s.queue → Walk u from x.dist x.sec
    pub closed : (v : ℕ) → marked s v ≡ true → Done s v ⊎ ((k : ℕ) × Queued s v k)
    pub near : (m v : ℕ) → Walk u from m v → Done s v ⊎ Near s m v

  module _ (seen : List Bool) (cur : Node) (rest : List Node)
      (inv : Inv (record { seen = seen; queue = cur ∷ rest })) where
    least : (x : Node) → Memᴰ x (cur ∷ rest) → (cur.dist ≤ x.dist) × (x.dist ≤ cur.dist + 1)
    least x m =
        let (d, o) = inv.ordered in
        elim (Memᴰ.cases_cons m) [
          | inl e ↦ let k : x.dist ≡ cur.dist = ap (λ (y : Node). y.dist) e in omega arith
          | inr later ↦
              let bound = Ordered-member cur.dist (d + 1) rest x o.2 later in
              omega (arith, bound, o.0)
        ]

    pub Near-bound :
        (m v : ℕ) → Near (record { seen = seen; queue = cur ∷ rest }) m v → cur.dist ≤ m
    Near-bound m v (inl (k, q, le)) = omega (arith, (least (record { sec = v; dist = k }) q).0)
    Near-bound m v (inr (x, q, lt)) = omega (arith, (least x q).0)

  module _ (seen : List Bool) (cur : Node) (rest : List Node)
      (inv : Inv (record { seen = seen; queue = cur ∷ rest }))
      (no_port : port_here want cur.sec u.ports ≡ none) where
    abbrev popped : Search
    popped = record { seen = seen; queue = rest }

    abbrev after : Search
    after = expand u want seen cur rest

    grown : Extends (length u.sectors) cur.dist (sector_at u cur.sec).warps popped after
    unfolding expand
    grown = Extends-scan (length u.sectors) cur.dist popped (sector_at u cur.sec).warps inv.size

    Done-grown : (v : ℕ) → Done (record { seen = seen; queue = cur ∷ rest }) v → Done after v
    Done-grown v (p, all) = (p, λ w e. grown.grows w (all w e))

    Done-taken : (v k : ℕ) → record { sec = v; dist = k } ≡ cur → Done after v
    Done-taken v k e =
        let same : v ≡ cur.sec = ap (λ (x : Node). x.sec) e in
        rw same (no_port, λ w (m, p, q). grown.covers w m p q)

    reached :
        (m v : ℕ)
        → Walk u from (suc m) v
        → marked (record { seen = seen; queue = cur ∷ rest }) v ≡ true
        → Done after v ⊎ Near after (suc m) v
    reached m v p flag = elim (inv.near (suc m) v p) [
      | inl done ↦ inl (Done-grown v done)
      | inr (inl (k, q, le)) ↦ elim (Memᴰ.cases_cons q) [
        | inl e ↦ inl (Done-taken v k e)
        | inr later ↦ inr (inl (k, grown.keeps _ later, le))
      ]
      | inr (inr (x, q, lt)) ↦ elim (inv.closed v flag) [
        | inl done ↦ inl (Done-grown v done)
        | inr (k, q') ↦ elim (Memᴰ.cases_cons q') [
          | inl e ↦ inl (Done-taken v k e)
          | inr later ↦
              let bound = (least seen cur rest inv (record { sec = v; dist = k }) q').1 in
              inr (
                inl (
                  k,
                  grown.keeps _ later,
                  omega (arith, lt, bound, (least seen cur rest inv x q).0),
                ))
        ]
      ]
    ]

    Near-after : (m v : ℕ) → Walk u from m v → Done after v ⊎ Near after m v
    Near-after zero v here = elim (inv.near zero v here) [
      | inl done ↦ inl (Done-grown v done)
      | inr (inl (k, q, le)) ↦ elim (Memᴰ.cases_cons q) [
        | inl e ↦ inl (Done-taken v k e)
        | inr later ↦ inr (inl (k, grown.keeps _ later, le))
      ]
      | inr (inr (x, q, lt)) ↦ absurd (omega (arith, lt))
    ]
    Near-after (suc m) w (step {v} p edge) = elim (Near-after m v p) [
      | inr (inl (k, q, le)) ↦ inr (inr (record { sec = v; dist = k }, q, omega (arith, le)))
      | inr (inr (x, q, lt)) ↦ inr (inr (x, q, omega (arith, lt)))
      | inl (none_here, all) ↦ elim (grown.fresh w (all w edge)) [
        | inl flag ↦ reached m w (step p edge) flag
        | inr q ↦ elim (inv.near m v p) [
          | inl old ↦ reached m w (step p edge) (old.1 w edge)
          | inr close ↦
              inr (inl (cur.dist + 1, q, omega (arith, Near-bound seen cur rest inv m v close)))
        ]
      ]
    ]

    closed_after : (v : ℕ) → marked after v ≡ true → Done after v ⊎ ((k : ℕ) × Queued after v k)
    closed_after v flag = elim (grown.fresh v flag) [
      | inr q ↦ inr (cur.dist + 1, q)
      | inl old ↦ elim (inv.closed v old) [
        | inl done ↦ inl (Done-grown v done)
        | inr (k, q) ↦ elim (Memᴰ.cases_cons q) [
          | inl e ↦ inl (Done-taken v k e)
          | inr later ↦ inr (k, grown.keeps _ later)
        ]
      ]
    ]

    sound_after : (x : Node) → Memᴰ x after.queue → Walk u from x.dist x.sec
    sound_after x m = elim (grown.from x m) [
      | inl old ↦ inv.sound x (Memᴰ.tail old)
      | inr (e, w, p, q, _) ↦
          let far : x.dist ≡ suc cur.dist = omega (arith, e) in
          rw far (step (inv.sound cur (Memᴰ.head refl)) (w, p, q))
    ]

    Ordered-after : Ordered cur.dist (cur.dist + 1) after.queue
    Ordered-after =
        let (d, o) = inv.ordered in
        grown.ordered cur.dist (omega arith) (
          Ordered-weaken cur.dist (d + 1) cur.dist (cur.dist + 1) rest o.2 (omega arith)
            (omega (arith, o.0)))

    pub Inv-after : Inv after
    unfolding expand
    Inv-after = record {
      size = omega (
        arith,
        inv.size,
        (scan-IsFair (length u.sectors) cur.dist popped (sector_at u cur.sec).warps
            inv.size).as_many,
      );
      ordered = (cur.dist, Ordered-after);
      sound = sound_after;
      closed = closed_after;
      near = Near-after;
    }

-- ===== src/Computer/Nearest.antt =====
-- `NearestPort`, pkg/galwar/computer.go: the first hit of the search is a nearest one, and the search
-- ends. A walk follows the warps that lead to a sector of the universe.
use galwar.Base.{
  ℕ, zero, suc, ◌+◌, ◌≤◌, ◌<◌, ◌≡◌, ◌≢◌, refl, sym, ◌∙◌, ◌⊎◌, inl, inr, Bool, true, false, ◌||◌,
  none, some, List, [], ◌∷◌, ltb, leb, length, get_or, set, replicate, length-set, length-replicate,
  Bool-cases, Option-cases, arith,
}
use Prim.Native.String.{String}
use mathlib.Core.List.{Memᴰ}
use mathlib.Core.List.Memᴰ
use galwar.Universe.{Universe, Port}
use galwar.Sector.{sector_at}
use galwar.Computer.{
  Node, Want, Hit, found, not_found, out_of_fuel, port_here, expand, search, start, nearest_port,
}
use galwar.Computer.Frontier.{Walk, Done, Near, here, Inv, Near-bound, Inv-after}
use galwar.Computer.Flags.{unflagged, unflagged-set, flagged-set_inv}
use galwar.Computer.Scan.{scan-IsFair}

module _ (u : Universe) (want : Want) (from : ℕ) where
  record IsNearest (sec dist : ℕ) (name : String) : Type 0 where
    port : Port
    here : port_here want sec u.ports ≡ some port
    named : port.name ≡ name
    walk : Walk u from dist sec
    least : (m v : ℕ) (p : Port) → Walk u from m v → port_here want v u.ports ≡ some p → dist ≤ m

  IsNearest-head :
      (seen : List Bool) (cur : Node) (rest : List Node) (p : Port)
      → Inv u want from (record { seen = seen; queue = cur ∷ rest })
      → port_here want cur.sec u.ports ≡ some p
      → IsNearest cur.sec cur.dist p.name
  IsNearest-head seen cur rest p inv e = record {
    port = p;
    here = e;
    named = refl;
    walk = inv.sound cur (Memᴰ.head refl);
    least = λ m v q w f. elim (inv.near m v w) [
      | inl done ↦ absurd (cc (done.0, f))
      | inr close ↦ Near-bound u want from seen cur rest inv m v close
    ];
  }

  search-found :
      (fuel : ℕ) (seen : List Bool) (queue : List Node) (sec dist : ℕ) (name : String)
      → Inv u want from (record { seen = seen; queue = queue })
      → search u want fuel (record { seen = seen; queue = queue }) ≡ found sec dist name
      → IsNearest sec dist name
  unfolding search
  search-found zero seen [] sec dist name inv h = absurd (cc h)
  search-found zero seen (_ ∷ _) sec dist name inv h = absurd (cc h)
  search-found (suc fuel) seen [] sec dist name inv h = absurd (cc h)
  search-found (suc fuel) seen (cur ∷ rest) sec dist name inv h =
      elim (Option-cases (port_here want cur.sec u.ports)) [
        | inl e ↦
            let t = expand u want seen cur rest in
            search-found fuel t.seen t.queue sec dist name
              (Inv-after u want from seen cur rest inv e) (rw (e, search) at h)
        | inr (p, e) ↦
            let same : found cur.sec cur.dist p.name ≡ found sec dist name = rw (e, search) at h in
            let hit = IsNearest-head seen cur rest p inv e in
            let a : sec ≡ cur.sec = cc in
            let b : dist ≡ cur.dist = cc in let c : name ≡ p.name = cc in rw (a, b, c) hit
      ]

  search-not_found :
      (fuel : ℕ) (seen : List Bool) (queue : List Node) (m v : ℕ)
      → Inv u want from (record { seen = seen; queue = queue })
      → search u want fuel (record { seen = seen; queue = queue }) ≡ not_found
      → Walk u from m v
      → port_here want v u.ports ≡ none
  unfolding search
  search-not_found fuel seen [] m v inv h w = elim (inv.near m v w) [
    | inl done ↦ done.0
    | inr (inl (k, q, le)) ↦ absurd (Memᴰ.not-nil q)
    | inr (inr (x, q, lt)) ↦ absurd (Memᴰ.not-nil q)
  ]
  search-not_found zero seen (_ ∷ _) m v inv h w = absurd (cc h)
  search-not_found (suc fuel) seen (cur ∷ rest) m v inv h w =
      elim (Option-cases (port_here want cur.sec u.ports)) [
        | inl e ↦
            let t = expand u want seen cur rest in
            search-not_found fuel t.seen t.queue m v (Inv-after u want from seen cur rest inv e)
              (rw (e, search) at h) w
        | inr (p, e) ↦ absurd (cc (rw (e, search) at h))
      ]

  -- A round takes one node and queues only sectors whose flag it sets.
  search-ends :
      (fuel : ℕ) (seen : List Bool) (queue : List Node)
      → length seen ≡ length u.sectors
      → unflagged seen + length queue ≤ fuel
      → search u want fuel (record { seen = seen; queue = queue }) ≢ out_of_fuel
  unfolding search expand
  search-ends zero seen [] n h e = cc e
  search-ends (suc fuel) seen [] n h e = cc e
  search-ends zero seen (_ ∷ _) n h e = omega (arith, h)
  search-ends (suc fuel) seen (cur ∷ rest) n h e =
      elim (Option-cases (port_here want cur.sec u.ports)) [
        | inl k ↦
            let t = expand u want seen cur rest in
            let kept =
              scan-IsFair (length u.sectors) cur.dist (record { seen = seen; queue = rest })
                (sector_at u cur.sec).warps n in
            search-ends fuel t.seen t.queue (omega (arith, n, kept.as_many))
              (omega (arith, h, kept.balance)) (rw (k, search) at e)
        | inr (p, k) ↦ cc (rw (k, search) at e)
      ]

unflagged-blank : (n : ℕ) → unflagged (replicate n false) ≡ n
unflagged-blank zero = refl
unflagged-blank (suc n) = omega (arith, unflagged-blank n)

get_or-blank : (n v : ℕ) → get_or (replicate n false) v false ≡ false
get_or-blank zero v = refl
get_or-blank (suc n) zero = refl
get_or-blank (suc n) (suc v) = get_or-blank n v

module _ (u : Universe) (want : Want) (from : ℕ) (low : 1 ≤ from)
    (high : from < length u.sectors) where
  inside : from < length (replicate (length u.sectors) false)
  inside = omega (arith, length-replicate (length u.sectors) false)

  size-start : length (start u want from).seen ≡ length u.sectors
  unfolding start
  size-start =
      let flags = replicate (length u.sectors) false in
      omega (arith, length-set flags from true, length-replicate (length u.sectors) false)

  Near-start :
      (m v : ℕ)
      → Walk u from m v
      → Done u want from (start u want from) v ⊎ Near u want from (start u want from) m v
  unfolding start
  Near-start zero v here = inr (inl (0, Memᴰ.head refl, omega arith))
  Near-start (suc m) v w = inr (inr (record { sec = from; dist = 0 }, Memᴰ.head refl, omega arith))

  Inv-start : Inv u want from (start u want from)
  unfolding start
  Inv-start = record {
    size = size-start;
    ordered = (0, (omega arith, omega arith, tt));
    sound = λ x m. rw (Memᴰ.eq_of_singleton m) here;
    closed = λ v m. elim (flagged-set_inv (replicate (length u.sectors) false) from v m) [
      | inr old ↦ absurd (cc (old, get_or-blank (length u.sectors) v))
      | inl e ↦ inr (0, Memᴰ.head (rw e refl))
    ];
    near = Near-start;
  }

  ends-start : search u want (length u.sectors) (start u want from) ≢ out_of_fuel
  unfolding start
  ends-start =
      let flags = replicate (length u.sectors) false in
      let one = unflagged-set flags from inside (get_or-blank (length u.sectors) from) in
      search-ends u want from (length u.sectors) (set flags from true)
        (record { sec = from; dist = 0 } ∷ []) size-start
        (omega (arith, one, unflagged-blank (length u.sectors)))

  -- From a sector in range the search is run.
  runs : nearest_port u want from ≡ search u want (length u.sectors) (start u want from)
  unfolding nearest_port
  runs = ground (arith, low, high)

-- The search of `NearestPort` ends: a round for each sector is enough fuel, whatever the warps are.
pub nearest_port_terminates :
    (u : Universe) (want : Want) (from : ℕ) → nearest_port u want from ≢ out_of_fuel
unfolding nearest_port
nearest_port_terminates u want from e =
    elim (Bool-cases (ltb from 1 || leb (length u.sectors) from)) [
      | inl outside ↦ cc (rw (outside, nearest_port) at e)
      | inr within ↦
          ends-start u want from (ground (arith, within)) (ground (arith, within))
            (rw (within, nearest_port) at e)
    ]

found-IsNearest :
    (u : Universe) (want : Want) (from sec dist : ℕ) (name : String)
    → nearest_port u want from ≡ found sec dist name
    → IsNearest u want from sec dist name
unfolding nearest_port start
found-IsNearest u want from sec dist name h =
    elim (Bool-cases (ltb from 1 || leb (length u.sectors) from)) [
      | inl outside ↦ absurd (cc (rw (outside, nearest_port) at h))
      | inr within ↦
          let low : 1 ≤ from = ground (arith, within) in
          let high : from < length u.sectors = ground (arith, within) in
          let s = start u want from in
          search-found u want from (length u.sectors) s.seen s.queue sec dist name
            (Inv-start u want from low high) (sym (runs u want from low high) ∙ h)
    ]

Hit-cases :
    (h : Hit)
    → ((sec dist : ℕ) × (name : String) × (h ≡ found sec dist name))
      ⊎ (h ≡ not_found)
      ⊎ (h ≡ out_of_fuel)
Hit-cases (found sec dist name) = inl (sec, dist, name, refl)
Hit-cases not_found = inr (inl refl)
Hit-cases out_of_fuel = inr (inr refl)

-- When `NearestPort` reports a sector, a distance and a name, a walk of just that length leads to the
-- sector, and a port that is wanted and has the name stands there.
pub nearest_port-found :
    (u : Universe) (want : Want) (from sec dist : ℕ) (name : String)
    → nearest_port u want from ≡ found sec dist name
    → Walk u from dist sec × ((p : Port) × (port_here want sec u.ports ≡ some p) × (p.name ≡ name))
nearest_port-found u want from sec dist name h =
    let hit = found-IsNearest u want from sec dist name h in
    (hit.walk, (hit.port, hit.here, hit.named))

-- When a walk leads from a sector in range to a port that is wanted, `NearestPort` reports one, and the
-- distance that it reports is at most the length of the walk.
pub nearest_port_finds :
    (u : Universe) (want : Want) (from m v : ℕ) (p : Port)
    → 1 ≤ from
    → from < length u.sectors
    → Walk u from m v
    → port_here want v u.ports ≡ some p
    → (sec dist : ℕ) × (name : String) × (nearest_port u want from ≡ found sec dist name)
      × (dist ≤ m)
nearest_port_finds u want from m v p low high w e =
    let r = nearest_port u want from in
    elim (Hit-cases r) [
      | inl (sec, dist, name, h) ↦
          (sec, dist, name, h, (found-IsNearest u want from sec dist name h).least m v p w e)
      | inr (inl h) ↦
          let s = start u want from in
          let none_there =
            search-not_found u want from (length u.sectors) s.seen s.queue m v
              (Inv-start u want from low high) (sym (runs u want from low high) ∙ h) w in
          absurd (cc (none_there, e))
      | inr (inr h) ↦ absurd (nearest_port_terminates u want from h)
    ]

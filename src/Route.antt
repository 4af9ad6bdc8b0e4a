-- ===== src/Route.antt =====
-- pkg/galwar/universe.go, `ShortestPathTo`: the shortest path between two sectors. A Go map is a
-- function here, with the zero value where no key was written. The loops run on fuel, a round for
-- each sector.
pub mod Distances
pub mod Settled
pub mod Picks
pub mod Walks
pub mod Reach
pub mod Complete
mod Tests
use galwar.Base.{
  ℕ, zero, suc, ◌+◌, Bool, true, false, not, ◌&&◌, ◌||◌, Option, none, some, List, [], ◌∷◌, ◌==◌,
  ltb, leb, length, if◌then◌else◌,
}
use galwar.Universe.{Universe, Sector}
use galwar.Sector.{sector_at}

-- int(^uint(0) >> 1)
abbrev pub max_int : ℕ
max_int = 9_223_372_036_854_775_807

pub record Labels : Type 0 where
  pub visited : ℕ → Bool
  pub distance : ℕ → ℕ
  pub previous : ℕ → ℕ

-- A write to a map
abbrev pub put {ℓ} : {A : Type ℓ} → (ℕ → A) → ℕ → A → ℕ → A
put f k v x = if x == k then v else f x

-- The first distances: that of `from` is 0, that of any other sector the greatest number
pub numbered : ℕ → List Sector → Bool
numbered n [] = false
numbered n (s ∷ ss) = let rest = numbered n ss in if s.number == n then true else rest

pub initial : List Sector → ℕ → Labels
unfolding numbered
initial sectors from = record {
  visited = λ n. false;
  distance = put (λ n. if numbered n sectors then max_int else 0) from 0;
  previous = λ n. 0;
}

-- One neighbour of the current sector
pub relax : ℕ → Labels → ℕ → Labels
relax current l neighbor =
    if l.visited neighbor
    then l
    else if ltb (l.distance current + 1) (l.distance neighbor)
    then record l {
      distance = put l.distance neighbor (l.distance current + 1);
      previous = put l.previous neighbor current;
    }
    else l

pub relax_all : ℕ → List ℕ → Labels → Labels
unfolding relax
relax_all current [] l = l
relax_all current (w ∷ ws) l = relax_all current ws (relax current l w)

-- The sector that is not visited and has the smallest distance, the first of equals
pub pick : Labels → List Sector → ℕ → Option ℕ → Option ℕ
pick l [] min next = next
pick l (s ∷ ss) min next =
    let better = not (l.visited s.number) && ltb (l.distance s.number) min in
    pick l ss (if better then l.distance s.number else min) (if better then some s.number else next)

pub data Found : Type 0 where
  settled : Labels → Found
  unreachable out_of_fuel : Found

pub data Way : Type 0 where
  way : List ℕ → Way
  no_way no_end : Way

module _ (u : Universe) where
  -- The labels after the visit of a sector
  pub settle : ℕ → Labels → Labels
  unfolding relax_all
  settle current l =
      relax_all current (sector_at u current).warps
        (record l { visited = put l.visited current true })

  -- `for current != target`
  pub explore : ℕ → ℕ → ℕ → Labels → Found
  unfolding settle pick
  explore zero target current l = if current == target then settled l else out_of_fuel
  explore (suc n) target current l =
      let l' = settle current l in
      elim (current == target) [
        | true ↦ settled l
        | false ↦ elim (pick l' u.sectors max_int none) [
          | none ↦ unreachable
          | some next ↦ explore n target next l'
        ]
      ]

-- `for at := target; at != from; at = previous[at]`, and `from` at the front
pub trace : ℕ → (ℕ → ℕ) → ℕ → ℕ → List ℕ → Way
trace zero previous from at path = if at == from then way (from ∷ path) else no_end
trace (suc n) previous from at path =
    let rest = trace n previous from (previous at) (at ∷ path) in
    if at == from then way (from ∷ path) else rest

pub shortest_path_to : Universe → ℕ → ℕ → Way
unfolding initial explore trace
shortest_path_to u from target =
    let n = length u.sectors in
    if (ltb from 1 || leb n from) || (ltb target 1 || leb n target)
    then no_way
    else elim (explore u n target from (initial u.sectors from)) [
      | settled l ↦ trace n l.previous from target []
      | unreachable ↦ no_way
      | out_of_fuel ↦ no_end
    ]

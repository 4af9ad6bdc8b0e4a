-- ===== src/Route/Tests.antt =====
-- Runs of the search for the shortest path.
use galwar.Base.{ℕ, ◌≡◌, refl, ◌⊎◌, false, List, [], ◌∷◌, arith}
use galwar.Universe.{Universe}
use galwar.Sector.{no_sector}
use galwar.Route.{shortest_path_to, numbered, way, no_way}
use galwar.Route.Walks.{Leads, shortest_path_to-leads}
use galwar.Route.Complete.{Course, arrive, hop, shortest_path_to-finds}
use mathlib.Core.List.Memᴰ

-- Two ways lead from 1 to 4, a long one over 2 and 3 and a short one over 5.
abbrev chart : Universe
chart = record {
  ports = [];
  players = [];
  battlegroups = [];
  planets = [];
  sectors =
      no_sector
      ∷ record { number = 1; warps = 2 ∷ 5 ∷ [] }
      ∷ record { number = 2; warps = 3 ∷ [] }
      ∷ record { number = 3; warps = 4 ∷ [] }
      ∷ record { number = 4; warps = 9 ∷ [] }
      ∷ record { number = 5; warps = 4 ∷ [] }
      ∷ [];
  config = [];
  news = [];
  dirty = false;
}

short_way : shortest_path_to chart 1 4 ≡ way (1 ∷ 5 ∷ 4 ∷ [])
unfolding shortest_path_to
short_way = refl

stay : shortest_path_to chart 3 3 ≡ way (3 ∷ [])
unfolding shortest_path_to
stay = refl

one_way : shortest_path_to chart 4 1 ≡ no_way
unfolding shortest_path_to
one_way = refl

outside : shortest_path_to chart 1 9 ≡ no_way
unfolding shortest_path_to
outside = refl

shortest_path_to-leads_example :
    (shortest_path_to chart 1 4 ≡ no_way)
    ⊎ ((p : List ℕ) × (shortest_path_to chart 1 4 ≡ way p) × Leads chart 1 4 1 p)
unfolding numbered
shortest_path_to-leads_example = shortest_path_to-leads chart 1 4 refl

road : Course chart 1 4 1
unfolding numbered
road = hop (Memᴰ.tail (Memᴰ.head refl)) refl (hop (Memᴰ.head refl) refl arrive)

shortest_path_to-finds_example :
    (p : List ℕ) × (shortest_path_to chart 1 4 ≡ way p) × Leads chart 1 4 1 p
unfolding numbered
shortest_path_to-finds_example =
    shortest_path_to-finds chart 1 4 refl (omega arith) (omega arith) (omega arith) (omega arith)
      (omega arith) road

-- ===== src/Computer/Tests.antt =====
-- Runs of the reports of the ship's computer.
use galwar.Base.{ℕ, ◌≡◌, ◌≢◌, refl, false, none, some, [], ◌∷◌, ◌≤◌, arith}
use Prim.Native.String.{String}
use mathlib.Core.List.Memᴰ
use galwar.Universe.{Universe, Port, trading_port, empty_inventory}
use galwar.Sector.{no_sector}
use galwar.Computer.{found, not_found, out_of_fuel, nearest_port, port_here}
use galwar.Computer.Frontier.{Walk, here, step}
use galwar.Computer.Nearest.{nearest_port_terminates, nearest_port-found, nearest_port_finds}

-- 1 leads to 2 and 3, both lead to 4, where the port is, and 4 leads out of the universe.
abbrev depot : Port
depot = record { goods = trading_port; name = "Depot"; sector = 4; inv = empty_inventory }

abbrev ring : Universe
ring = record {
  ports = depot ∷ [];
  players = [];
  battlegroups = [];
  planets = [];
  sectors =
      no_sector
      ∷ record { number = 1; warps = 2 ∷ 3 ∷ [] }
      ∷ record { number = 2; warps = 4 ∷ [] }
      ∷ record { number = 3; warps = 1 ∷ 4 ∷ [] }
      ∷ record { number = 4; warps = 9 ∷ [] }
      ∷ [];
  config = [];
  news = [];
  dirty = false;
}

hit : nearest_port ring none 1 ≡ found 4 2 "Depot"
unfolding nearest_port
hit = refl

miss : nearest_port (record ring { ports = [] }) none 1 ≡ not_found
unfolding nearest_port
miss = refl

depot_here : port_here none 4 ring.ports ≡ some depot
unfolding port_here
depot_here = refl

way : Walk ring 1 2 4
way =
    step (step here (Memᴰ.tail (Memᴰ.head refl), omega arith, omega arith))
      (Memᴰ.tail (Memᴰ.head refl), omega arith, omega arith)

nearest_port_terminates_example : nearest_port ring none 1 ≢ out_of_fuel
nearest_port_terminates_example = nearest_port_terminates ring none 1

nearest_port-found_example :
    Walk ring 1 2 4 × ((p : Port) × (port_here none 4 ring.ports ≡ some p) × (p.name ≡ "Depot"))
nearest_port-found_example = nearest_port-found ring none 1 4 2 "Depot" hit

nearest_port_finds_example :
    (sec dist : ℕ) × (name : String) × (nearest_port ring none 1 ≡ found sec dist name) × (dist ≤ 2)
nearest_port_finds_example =
    nearest_port_finds ring none 1 2 4 depot (omega arith) (omega arith) way depot_here

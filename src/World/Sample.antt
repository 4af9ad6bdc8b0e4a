-- ===== src/World/Sample.antt =====
-- A small galaxy with two armed ships, a hostile force and a hostile planet, and an Emergency Warp.
use galwar.Base.{ℕ, false, true, List, [], ◌∷◌, arith}
use galwar.Base.Int.{pos}
use galwar.Inventory.{InventoryBase, get_commodity}
use galwar.Inventory.Goods.{zero_commodity, Commodity, fighters, mines, turns, emwarp}
use galwar.Player.{Player}
use galwar.Universe.{Universe, nobody}
use galwar.Sector.{no_sector}
use galwar.Universe.Sound.{Sound}
use galwar.World.{World}

abbrev pub stock : ℕ → ℕ → Commodity
stock name n = record zero_commodity { name = name; quantity = pos n }

abbrev pub holding : List Commodity → InventoryBase
holding inv = record { inventory = inv; money = pos 0 }

-- The attacker stands in sector 12 with ten fighters, five turns and an Emergency Warp.
abbrev pub raider : Player
raider = record nobody {
  id = 1;
  sector = 12;
  inv = holding (stock fighters 10 ∷ stock turns 5 ∷ stock emwarp 1 ∷ []);
}

abbrev pub trader : Player
trader = record nobody {
  id = 2;
  sector = 12;
  last_seen = pos 1;
  ever_moved = true;
  inv = holding (stock fighters 3 ∷ stock mines 1 ∷ []);
}

abbrev pub galaxy : Universe
galaxy = record {
  ports = [];
  players = raider ∷ trader ∷ [];
  battlegroups =
      record { owner = 2; sector = 13; inv = holding (stock fighters 2 ∷ stock mines 1 ∷ []) } ∷ [];
  planets =
      record { owner = 2; name = "Rock"; sector = 12; inv = holding (stock mines 1 ∷ []) } ∷ [];
  sectors =
      no_sector
      ∷ no_sector
      ∷ no_sector
      ∷ no_sector
      ∷ no_sector
      ∷ no_sector
      ∷ no_sector
      ∷ no_sector
      ∷ no_sector
      ∷ no_sector
      ∷ no_sector
      ∷ no_sector
      ∷ record { number = 12; warps = 13 ∷ [] }
      ∷ record { number = 13; warps = 12 ∷ [] }
      ∷ [];
  config = [];
  news = [];
  dirty = false;
}

-- Dice that count upwards
abbrev pub start : World
start = (galaxy, record { ids = λ i. i; dice = λ i. i })

pub galaxy-Sound : Sound galaxy
unfolding get_commodity
galaxy-Sound = record { ships = ground arith; forces = ground arith; stores = ground arith }

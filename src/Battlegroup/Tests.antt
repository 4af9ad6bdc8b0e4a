-- ===== src/Battlegroup/Tests.antt =====
-- Defense forces at a concrete universe.
use galwar.Base.{[], ◌∷◌, false}
use galwar.Base.Int.{pos}
use galwar.Inventory.Goods.{zero_commodity, fighters, mines}
use galwar.Universe.{Universe, nobody}

abbrev frontier : Universe
frontier = record {
  ports = [];
  players =
      record nobody {
        id = 7;
        sector = 40;
        inv = record {
          inventory = record zero_commodity { name = fighters; quantity = pos 30 } ∷ [];
          money = pos 0;
        };
      }
      ∷ [];
  battlegroups =
      record {
        owner = 7;
        sector = 40;
        inv = record {
          inventory = record zero_commodity { name = mines; quantity = pos 4 } ∷ [];
          money = pos 0;
        };
      }
      ∷ [];
  planets = [];
  sectors = [];
  config = [];
  news = [];
  dirty = false;
}

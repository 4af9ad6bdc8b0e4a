-- ===== src/Planet/Tests.antt =====
-- Planets at a concrete universe.
use galwar.Base.{◌≡◌, refl, [], ◌∷◌, true, false, arith}
use galwar.Base.Int.{pos, ◌-ℤ◌, ◌*ℤ◌, ◌≤ℤ◌}
use galwar.Inventory.{get_quantity, get_commodity, get_free_holds}
use galwar.Inventory.Goods.{zero_commodity, ore, holds, is_cargo, get_holds_used, def_holds}
use galwar.Universe.{Universe, nobody}
use galwar.Planet.{transfer_set, transfer_out, ship, store}
use galwar.Planet.Transfers.{Exchanges, transfer_set-Exchanges, transfer_out-Exchanges}

abbrev colony : Universe
colony = record {
  ports = [];
  players =
      record nobody {
        id = 7;
        sector = 40;
        inv = record {
          inventory =
              record zero_commodity { name = holds; quantity = pos 20 }
              ∷ record zero_commodity { name = ore; quantity = pos 5 }
              ∷ [];
          money = pos 0;
        };
      }
      ∷ [];
  battlegroups = [];
  planets =
      record {
        owner = 7;
        name = "Ceres";
        sector = 40;
        inv = record {
          inventory = record zero_commodity { name = ore; quantity = pos 9 } ∷ [];
          money = pos 0;
        };
      }
      ∷ [];
  sectors = [];
  config = [];
  news = [];
  dirty = false;
}

transfer_set-Exchanges_example :
    Exchanges 0 40 ore (λ _. pos 11) colony (transfer_set 0 40 ore (pos 11) colony)
transfer_set-Exchanges_example = transfer_set-Exchanges 0 40 ore (pos 11) colony (omega arith)

some_ore : pos 0 ≤ℤ get_quantity ore (ship colony 0)
unfolding get_quantity get_commodity
some_ore = omega arith

some_room : pos 0 ≤ℤ get_free_holds (ship colony 0)
unfolding get_free_holds get_quantity get_commodity get_holds_used def_holds ◌-ℤ◌ ◌*ℤ◌
some_room = omega arith

ore-is_cargo : is_cargo ore ≡ true
unfolding is_cargo def_holds
ore-is_cargo = refl

transfer_out-Exchanges_example :
    Exchanges 0 40 ore
      (λ k. get_quantity ore (store colony k) -ℤ pos 6)
      colony
      (transfer_out 0 40 ore (pos 6) colony)
transfer_out-Exchanges_example =
    transfer_out-Exchanges 0 40 ore (pos 6) colony (omega arith) some_ore

-- ===== src/Maintenance/Tests.antt =====
-- A night at a concrete list of players.
use galwar.Base.{List, [], ◌∷◌, get_or, arith}
use galwar.Base.Int.{pos}
use galwar.Inventory.Goods.{zero_commodity, turns, fusioncell}
use galwar.Player.{Player}
use galwar.Universe.{nobody}
use galwar.Maintenance.{reset_turns}
use galwar.Maintenance.Night.{IsRested, reset_turns-IsRested}

abbrev crews : List Player
crews =
    record nobody {
      banked_turns = pos 200;
      inv = record {
        inventory =
            record zero_commodity { name = turns; quantity = pos 90 }
            ∷ record zero_commodity { name = fusioncell; quantity = pos 1 }
            ∷ [];
        money = pos 10;
      };
    }
    ∷ []

reset_turns-IsRested_example :
    IsRested (pos 250) (get_or crews 0 nobody) (get_or (reset_turns (pos 250) crews) 0 nobody)
reset_turns-IsRested_example = reset_turns-IsRested (pos 250) crews 0 (omega arith)

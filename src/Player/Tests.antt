-- ===== src/Player/Tests.antt =====
-- A player's record at a concrete one.
use galwar.Base.{◌≡◌, refl, [], ◌∷◌, get_or, arith}
use galwar.Base.Int.{pos, ◌+ℤ◌}
use galwar.Universe.{nobody}
use galwar.Inventory.{get_commodity}
use galwar.Inventory.Invariant.{IsStocked}
use galwar.Inventory.Goods.{zero_commodity, turns}
use galwar.Player.{Player, damage_system, total_system_damage, spend_turn}
use galwar.Player.Systems.{HasSystems}
use galwar.Player.Turns.{Spends, spend_turn-Spends}

abbrev pilot : Player
pilot = record nobody {
  id = 7;
  sector = 12;
  banked_turns = pos 3;
  systems = pos 2 ∷ pos 0 ∷ pos 0 ∷ pos 149 ∷ pos 0 ∷ pos 1 ∷ [];
  inv = record {
    inventory = record zero_commodity { name = turns; quantity = pos 2 } ∷ [];
    money = pos 100;
  };
}

pilot-HasSystems : HasSystems pilot
pilot-HasSystems = record { six = refl; in_range = omega arith }

pilot-IsStocked : IsStocked pilot.inventory
unfolding get_commodity
pilot-IsStocked = (omega arith, refl, tt)

damage_is_capped : get_or (damage_system 3 (pos 9) pilot).systems 3 (pos 0) ≡ pos 150
unfolding damage_system ◌+ℤ◌
damage_is_capped = refl

all_damage : total_system_damage pilot ≡ pos 152
unfolding total_system_damage ◌+ℤ◌
all_damage = refl

spend_turn-Spends_example : Spends pilot (spend_turn pilot)
spend_turn-Spends_example = spend_turn-Spends pilot pilot-IsStocked

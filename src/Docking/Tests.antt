-- ===== src/Docking/Tests.antt =====
-- Repairs at a concrete universe.
use galwar.Base.{[], ◌∷◌, false}
use galwar.Base.Int.{pos, ◌*ℤ◌}
use galwar.Config.{config_int}
use galwar.Player.{Player, total_system_damage}
use galwar.Universe.{Universe, nobody, set_player, mark_dirty}
use galwar.Docking.{sol_repair}
use galwar.Docking.Repair.{Repairs, repaired, sol_repair-Repairs}

abbrev wreck : Player
wreck = record nobody {
  systems = pos 2 ∷ pos 0 ∷ pos 0 ∷ pos 1 ∷ pos 0 ∷ pos 0 ∷ [];
  inv = record { inventory = []; money = pos 1_000 };
}

abbrev yard : Universe
yard = record {
  ports = [];
  players = wreck ∷ [];
  battlegroups = [];
  planets = [];
  sectors = [];
  config = [];
  news = [];
  dirty = false;
}

sol_repair-Repairs_example :
    Repairs wreck
      (total_system_damage wreck *ℤ config_int yard.config "cost_of_repair" (pos 250))
      yard
      (mark_dirty (
        set_player 0
          (repaired
            (total_system_damage wreck *ℤ config_int yard.config "cost_of_repair" (pos 250))
            wreck)
          yard))
      (sol_repair 0 yard)
sol_repair-Repairs_example = sol_repair-Repairs 0 yard

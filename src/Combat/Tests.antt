-- ===== src/Combat/Tests.antt =====
-- An attack in a small galaxy.
use galwar.Base.{◌≡◌, refl}
use galwar.Base.Int.{pos, ◌-ℤ◌, ◌*ℤ◌, ◌+ℤ◌, ◌/ℤ◌}
use galwar.GameError.{ok, err, err_unknown}
use galwar.Universe.{index_from, on_player}
use galwar.Player.{is_dead, is_npc, is_cloaked, has_anti_cloak, spend_turn}
use galwar.Inventory.{get_quantity, get_commodity}
use galwar.Dormancy.{is_dormant}
use galwar.Config.{config_int}
use galwar.World.{pay}
use galwar.Float64.Whole.{whole}
use galwar.World.Sample.{start}
use galwar.Combat.{attack_player}
use galwar.Combat.Guards.{Fights, attack_player-Fights}

attack_player-Fights_example :
    Fights whole 0 2 (pos 4) (pos 5) start (attack_player 3 whole 0 2 (pos 4) (pos 5) (pos 5) start)
attack_player-Fights_example = attack_player-Fights 3 whole 0 2 (pos 4) (pos 5) (pos 5) start

-- The attack is fought, and nobody attacks himself.
fought : (attack_player 3 whole 0 2 (pos 4) (pos 5) (pos 5) start).0 ≡ ok tt
unfolding attack_player index_from is_dead get_quantity get_commodity is_dormant is_cloaked
    has_anti_cloak pay spend_turn on_player ◌-ℤ◌ ◌*ℤ◌ ◌+ℤ◌ ◌/ℤ◌ config_int is_npc
fought = refl

self : (attack_player 3 whole 0 1 (pos 4) (pos 5) (pos 5) start).0 ≡ err err_unknown
unfolding attack_player index_from is_dead get_quantity get_commodity is_dormant is_cloaked
    has_anti_cloak ◌-ℤ◌ ◌*ℤ◌ ◌+ℤ◌ config_int is_npc
self = refl

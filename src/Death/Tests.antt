-- ===== src/Death/Tests.antt =====
-- Deaths at a concrete universe.
use galwar.Base.{◌≡◌, ◌≢◌, refl, [], ◌∷◌, none, false, arith}
use galwar.Base.Int.{pos}
use galwar.Float64.Whole.{whole}
use galwar.Player.{Player}
use galwar.Universe.{Universe, nobody, empty_inventory}
use galwar.Death.{Chance, renegades, kill_player, reconstruct_if_due, sub_of, index_of_sub}
use galwar.Death.Kit.{Rebuilds, reconstruct_if_due-Rebuilds}
use galwar.Death.Kill.{Kills, renegades_id, renegades_new, kill_player-Kills}

abbrev victim : Player
victim = record nobody { id = 7; sector = 40 }

abbrev chance : Chance
chance = record { ids = λ n. 100; dice = λ n. 1 }

abbrev field : Universe
field = record {
  ports = [];
  players = victim ∷ record nobody { id = 8; died_at = pos 5; times_died = pos 2 } ∷ [];
  battlegroups = record { owner = 7; sector = 40; inv = empty_inventory } ∷ [];
  planets = record { owner = 7; name = "Ceres"; sector = 41; inv = empty_inventory } ∷ [];
  sectors = [];
  config = [];
  news = [];
  dirty = false;
}

no_renegades : index_of_sub 0 (sub_of renegades) field.players ≡ none
unfolding index_of_sub galwar.Config.same_string sub_of
no_renegades = refl

others_id : renegades_id field chance.ids ≢ 7
others_id = let new = renegades_new field chance.ids no_renegades in omega (arith, new)

kill_player-Kills_example :
    Kills 0 (pos 1_000_000) (field, chance) (kill_player 0 (pos 1_000_000) (field, chance))
kill_player-Kills_example = kill_player-Kills 0 (pos 1_000_000) field chance (omega arith) others_id

reconstruct_if_due-Rebuilds_example :
    Rebuilds whole 1 (pos 1_000_000) field (reconstruct_if_due whole 1 (pos 1_000_000) field)
reconstruct_if_due-Rebuilds_example =
    reconstruct_if_due-Rebuilds whole 1 (pos 1_000_000) field (omega arith)

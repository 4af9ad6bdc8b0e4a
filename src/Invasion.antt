-- ===== src/Invasion.antt =====
-- pkg/galwar/combat.go, `InvadePlanet`: the garrison, the planet's mines, the capture and what a hard
-- fight does to the planet. The report is left out.
pub mod Ends
pub mod Open
pub mod Guards
mod Tests
use galwar.Base.{ℕ, zero, suc, Bool, true, false, none, some, ◌==◌, if◌then◌else◌}
use galwar.Base.Int.{ℤ, pos, negsuc, ◌-ℤ◌, ◌/ℤ◌, ltb_ℤ, leb_ℤ, pos_part}
use galwar.GameError.{
  Command, Result, Done, ok, err, err_not_found, ◌>>=◌, ◌>>◌, refuse_if, get, modify, err_dead,
  err_already_exists, err_negative_quantity, err_not_enough_quantity,
}
use galwar.Inventory.{get_quantity, adjust_quantity}
use galwar.Inventory.Goods.{fighters, mines}
use galwar.Attrition.{attrition}
use galwar.Player.{Player, is_dead, has, adjust, spend_turn, check_system, sys_thrusters}
use galwar.Universe.{
  Universe, player_at, on_player, mark_dirty, planet_repelled_and_destroyed, planet_repelled,
  planet_mines_destroyed, planet_captured,
}
use galwar.Planet.{planet_at, set_planet, store, on_store}
use galwar.Pulsar.{first_planet, bomb_planet}
use galwar.Death.{kill_player}
use galwar.World.{
  World, Blast, absorbed, weathered, flung, killed, with_universe, alter, report_to, when_ok, check,
  pay, has_in, unarmed, try_em_warp, mine_hits, goes_on,
}

abbrev pub stored : World → ℕ → ℕ → ℤ
stored (u, c) good j = get_quantity good (store u j)

-- The committed fighters against the garrison
pub siege : ℕ → ℕ → ℤ → World → World
siege i j commit (u, c) =
    let (a_loss, d_loss, rest) = attrition commit (get_quantity fighters (store u j)) c.dice in
    with_universe (on_store j (adjust_quantity fighters (pos 0 -ℤ d_loss)))
      (alter i (adjust fighters (pos 0 -ℤ a_loss)) (u, record c { dice = rest }))

-- The damage of the fight: the fighters that were spent, by twenties
abbrev pub damage : ℤ → ℤ → ℤ
damage before after = (before -ℤ after) /ℤ pos 20

-- `planet.Owner = attacker.Id`, and what the fight leaves of the planet: from a damage of 100 on it
-- loses production as a bombardment takes it, and falls apart when none is left.
pub capture : ℕ → ℕ → ℕ → ℤ → ℤ → World → World
capture i j old_owner before now w =
    let mine =
      with_universe (λ u. set_planet j (record (planet_at u j) { owner = (player_at u i).id }) u)
        w in
    let told = report_to old_owner now planet_captured mine in
    let dam = damage before (has_in fighters told i) in
    if leb_ℤ (pos 100) dam then with_universe (bomb_planet j dam) told else told

-- The refusals of `InvadePlanet` after the check of the thrusters; else the index of the planet
pub objective : ℕ → ℤ → Universe → Result ℕ
objective i commit u =
    let p = player_at u i in
    elim (first_planet p.sector 0 u.planets) [
      | none ↦ err err_not_found
      | some j ↦
          if (planet_at u j).owner == p.id
          then err err_already_exists
          else if ltb_ℤ commit (pos 1)
          then err err_negative_quantity
          else if ltb_ℤ (has fighters p) commit
          then err err_not_enough_quantity
          else ok j
    ]

module _ (tries : ℕ) where
  -- The garrison holds.
  pub repelled : ℕ → ℕ → ℤ → World → World
  repelled i old_owner now w =
      let (saved, fled) = try_em_warp tries i now w in
      if unarmed w i
      then if saved
        then fled
        else kill_player i now (report_to old_owner now planet_repelled_and_destroyed w)
      else report_to old_owner now planet_repelled w

  -- `for i := 0; i < mines; i++`: whether the ship is still there after it
  pub sweep : ℕ → ℕ → ℕ → ℕ → ℤ → World → Bool × World
  sweep zero i j old_owner now w = (true, w)
  sweep (suc n) i j old_owner now w =
      let laid = with_universe (on_store j (adjust_quantity mines (negsuc 0))) w in
      let told = report_to old_owner now planet_mines_destroyed in
      let (b, hit) = mine_hits tries i now told laid in
      elim (goes_on b) [ true ↦ sweep n i j old_owner now hit | false ↦ (false, hit) ]

  -- The mines and the capture, once no garrison is in the way
  pub land : ℕ → ℕ → ℕ → ℤ → ℤ → World → World
  unfolding sweep capture
  land i j old_owner before now w =
      let (through, w') = sweep (pos_part (stored w mines j)) i j old_owner now w in
      if through then capture i j old_owner before now w' else w'

  pub invade : ℕ → ℕ → ℤ → ℤ → World → World
  unfolding siege repelled land
  invade i j commit now w =
      let old_owner = (planet_at (w.0) j).owner in
      let before = has_in fighters w i in
      let fought = siege i j commit w in
      with_universe mark_dirty (
        if ltb_ℤ (pos 0) (stored w fighters j)
        then if ltb_ℤ (pos 0) (stored fought fighters j)
          then repelled i old_owner now fought
          else land i j old_owner before now fought
        else land i j old_owner before now w)

  -- From the search for the planet on
  pub storm : ℕ → ℤ → ℤ → Command World Done
  unfolding invade objective
  storm i commit now w =
      when_ok (objective i commit w.0) (λ j. pay i >> modify (invade i j commit now)) w

  pub invade_planet : ℕ → ℤ → ℤ → Command World Done
  unfolding storm
  invade_planet i commit now w =
      if is_dead (player_at (w.0) i)
      then (err err_dead, w)
      else (check i sys_thrusters >> storm i commit now) w

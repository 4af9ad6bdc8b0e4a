-- ===== src/Movement.antt =====
-- pkg/galwar/commands.go, `MovePlayer`: the guards, the fight at the edge of a defended sector, and the
-- minefield beyond it. The report is left out.
pub mod Field
pub mod Guards
mod Tests
use galwar.Base.{
  ℕ, zero, suc, Bool, true, false, not, ◌&&◌, ◌||◌, Option, none, some, ltb, leb, length,
  if◌then◌else◌,
}
use galwar.Base.Int.{ℤ, pos, negsuc, ◌-ℤ◌, ltb_ℤ, pos_part}
use galwar.GameError.{
  Command, Result, Done, ok, err, ◌>>=◌, ◌>>◌, refuse_if, get, modify, err_dead, err_not_found,
}
use galwar.Inventory.{get_quantity, adjust_quantity}
use galwar.Inventory.Goods.{fighters, mines}
use galwar.Attrition.{attrition}
use galwar.Player.{Player, is_dead, adjust, move_to, spend_turn, check_system, sys_engines}
use galwar.Universe.{
  Universe, player_at, on_player, mark_dirty, drove_off, destroyed_intruder, fought_through,
  mines_drove_off, mines_destroyed, mines_hit,
}
use galwar.Battlegroup.{group_at, force, set_force, drop_if_empty}
use galwar.Sector.{has_warp, sector_at}
use galwar.Hazards.{hostile_battlegroup}
use galwar.Death.{kill_player}
use galwar.World.{
  World, Blast, absorbed, weathered, flung, killed, with_universe, alter, report_to, when_ok, check,
  pay, unarmed, try_em_warp, mine_hits, goes_on, adjust_force, force_of, owner_of, hostile,
}

-- Both sides pay what the exchange cost them.
pub edge_fight : ℕ → ℕ → World → World
edge_fight i k (u, c) =
    let p = player_at u i in
    let defenders = get_quantity fighters (force u k) in
    let (p_loss, d_loss, rest) =
      attrition (get_quantity fighters p.inv.inventory) defenders c.dice in
    adjust_force k fighters (pos 0 -ℤ d_loss)
      (alter i (adjust fighters (pos 0 -ℤ p_loss)) (u, record c { dice = rest }))

abbrev pub escaped : Blast → Bool
escaped flung = true
escaped _ = false

-- The refusals of `MovePlayer` that come before anything is written
pub may_move : ℕ → ℕ → Universe → Result Done
may_move i dest u =
    let p = player_at u i in
    if is_dead p
    then err err_dead
    else if ltb p.sector 1 || leb (length u.sectors) p.sector
    then err err_not_found
    else if ltb dest 1 || leb (length u.sectors) dest
    then err err_not_found
    else if not (has_warp dest (sector_at u p.sector))
    then err err_not_found
    else ok tt

module _ (tries : ℕ) where
  -- The intruder against the fighters of group `k`; whether the sector is entered
  pub contest : ℕ → ℕ → ℤ → World → Bool × World
  unfolding edge_fight
  contest i k now w =
      let fought = edge_fight i k w in
      let (saved, fled) = try_em_warp tries i now fought in
      let lost = unarmed fought i && ltb_ℤ (pos 0) (force_of fought fighters k) in
      if not lost
      then (
        true,
        with_universe (drop_if_empty k) (report_to (owner_of fought k) now fought_through fought),
      )
      else if saved
      then (false, report_to (owner_of fled k) now drove_off fled)
      else (false, kill_player i now (report_to (owner_of fought k) now destroyed_intruder fought))

  -- `for hostile.GetQuantity(MINES) > 0`
  pub sweep : ℕ → ℕ → ℕ → ℤ → World → Blast × World
  sweep zero i k now w = (weathered, w)
  sweep (suc n) i k now w =
      let laid = adjust_force k mines (negsuc 0) w in
      let (b, hit) = mine_hits tries i now (report_to (owner_of w k) now mines_destroyed) laid in
      elim (ltb_ℤ (pos 0) (force_of w mines k)) [
        | true ↦ elim (goes_on b) [ true ↦ sweep n i k now hit | false ↦ (b, hit) ]
        | false ↦ (weathered, w)
      ]

  -- The news of the minefield, after the loop
  pub aftermath : ℕ → ℕ → ℤ → Blast × World → World
  aftermath i k now (b, w) =
      let told = if escaped b then report_to (owner_of w k) now mines_drove_off w else w in
      let note = not (is_dead (player_at (w.0) i)) && not (escaped b) in
      with_universe (drop_if_empty k)
        (if note then report_to (owner_of w k) now mines_hit told else told)

  pub minefield : ℕ → ℕ → ℤ → World → World
  unfolding sweep aftermath
  minefield i k now w =
      if ltb_ℤ (pos 0) (force_of w mines k)
      then aftermath i k now (sweep (pos_part (force_of w mines k)) i k now w)
      else w

  -- The first part: whether the way is free
  pub enter : ℕ → ℕ → ℤ → World → Bool × World
  unfolding contest
  enter i dest now w = elim (hostile i dest w) [
    | none ↦ (true, w)
    | some k ↦ if ltb_ℤ (pos 0) (force_of w fighters k) then contest i k now w else (true, w)
  ]

  -- The second: the arrival
  pub arrive : ℕ → ℕ → ℤ → World → World
  unfolding minefield
  arrive i dest now w =
      let there = alter i (move_to dest) w in
      elim (hostile i dest there) [ none ↦ there | some k ↦ minefield i k now there ]

  pub travel : ℕ → ℕ → ℤ → World → World
  unfolding enter arrive
  travel i dest now w =
      let (free, w') = enter i dest now (alter i (λ p. record p { ever_moved = true }) w) in
      with_universe mark_dirty (if free then arrive i dest now w' else w')

  pub move_player : ℕ → ℕ → ℤ → Command World Done
  unfolding travel may_move
  move_player i dest now w =
      when_ok (may_move i dest w.0)
        (λ _. check i sys_engines >> pay i >> modify (travel i dest now)) w

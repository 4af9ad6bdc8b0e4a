-- ===== src/Fleet.antt =====
-- pkg/galwar/combat.go: `LaunchBattleGroup`, a strike fleet on the shortest path to a sector, and
-- `battleSector`, what it meets in one sector of the way. The report is left out.
pub mod Forces
pub mod Voyage
pub mod Homecoming
pub mod Launch
pub mod Sound
mod Tests
use galwar.Base.{
  ℕ, zero, suc, ◌+◌, Bool, true, false, not, ◌&&◌, ◌||◌, Option, none, some, List, [], ◌∷◌, ◌==◌,
  ltb, leb, length, if◌then◌else◌,
}
use galwar.Base.Int.{ℤ, pos, negsuc, ◌+ℤ◌, ◌-ℤ◌, ◌*ℤ◌, ltb_ℤ, pos_part}
use galwar.Float64.{Float64}
use galwar.GameError.{
  Command, Result, Done, ok, err, ◌>>=◌, ◌>>◌, modify, err_dead, err_not_found, err_unknown,
  err_negative_quantity, err_not_enough_quantity,
}
use galwar.Rng.{intn}
use galwar.Inventory.{get_quantity}
use galwar.Inventory.Goods.{fighters, mines}
use galwar.Attrition.{attrition}
use galwar.Player.{
  Player, is_dead, has, adjust, spend_turn, check_system, sys_bg_computer, is_cloaked,
  has_anti_cloak,
}
use galwar.Dormancy.{is_dormant, nanoseconds}
use galwar.Universe.{
  Universe, player_at, on_player, mark_dirty, group_hit_force, group_hit_mines, group_saved,
  group_killed, group_attacked,
}
use galwar.Battlegroup.{force, drop_if_empty}
use galwar.Death.{Chance, kill_player}
use galwar.World.{
  World, with_universe, alter, report_to, when_ok, check, pay, has_in, unarmed, try_em_warp,
  hostile, adjust_force, force_of, owner_of,
}
use galwar.Route.{Way, way, no_way, no_end, shortest_path_to}

-- The fleet that is left, and the world
abbrev pub Strike : Type 0
Strike = ℤ × World

-- The fighters of a hostile force
pub meet_fighters : ℕ → ℤ → Strike → Strike
meet_fighters k now (fleet, w) =
    let (a_loss, d_loss, rest) = attrition fleet (force_of w fighters k) (w.1).dice in
    let fought = adjust_force k fighters (pos 0 -ℤ d_loss) (w.0, record (w.1) { dice = rest }) in
    if ltb_ℤ (pos 0) (force_of w fighters k)
    then (fleet -ℤ a_loss, report_to (owner_of fought k) now group_hit_force fought)
    else (fleet, w)

-- `for garrison.GetQuantity(MINES) > 0 && *fleet > 0`
pub clear_mines : ℕ → ℕ → Strike → Strike
clear_mines zero k s = s
clear_mines (suc n) k (fleet, w) =
    let (roll, rest) = intn 200 (w.1).dice in
    let blast = pos (roll + 300) in
    let lost = if ltb_ℤ fleet blast then fleet else blast in
    let cleared = adjust_force k mines (negsuc 0) (w.0, record (w.1) { dice = rest }) in
    elim (ltb_ℤ (pos 0) (force_of w mines k) && ltb_ℤ (pos 0) fleet) [
      | true ↦ clear_mines n k (fleet -ℤ lost, cleared)
      | false ↦ (fleet, w)
    ]

pub meet_mines : ℕ → ℤ → Strike → Strike
unfolding clear_mines
meet_mines k now (fleet, w) =
    let (fleet', cleared) = clear_mines (pos_part (force_of w mines k)) k (fleet, w) in
    if ltb_ℤ (pos 0) (force_of w mines k) && ltb_ℤ (pos 0) fleet
    then if ltb_ℤ fleet (pos 150)
      then (fleet, w)
      else (fleet', report_to (owner_of cleared k) now group_hit_mines cleared)
    else (fleet, w)

-- The hostile force of the sector, where there is one
pub meet_force : ℕ → ℕ → ℤ → Strike → Strike
unfolding meet_fighters meet_mines
meet_force i sec now (fleet, w) = elim (hostile i sec w) [
  | none ↦ (fleet, w)
  | some k ↦
      let (fleet', w') = meet_mines k now (meet_fighters k now (fleet, w)) in
      (fleet', with_universe (drop_if_empty k) w')
]

-- `route[1:]`, of a route that is not nil
abbrev legs : Way → Result (List ℕ)
legs (way (_ ∷ secs)) = ok secs
legs (way []) = err err_not_found
legs no_way = err err_not_found
legs no_end = err err_not_found

-- The refusals of `LaunchBattleGroup` after the check of the computer; else the sectors of the way
pub legs_of : ℕ → ℕ → ℤ → Universe → Result (List ℕ)
legs_of i target ships u =
    let p = player_at u i in
    if ltb target 1 || leb (length u.sectors) target
    then err err_not_found
    else if target == p.sector
    then err err_unknown
    else if ltb_ℤ ships (pos 1)
    then err err_negative_quantity
    else if ltb_ℤ (has fighters p) ships
    then err err_not_enough_quantity
    else legs (shortest_path_to u p.sector target)

module _ (tries : ℕ) (fl : Float64) where
  -- What the fleet does to a ship that it has fought
  pub finish_ship : ℕ → ℤ → World → World
  finish_ship j now w =
      let id = (player_at (w.0) j).id in
      let (saved, fled) = try_em_warp tries j now w in
      if unarmed w j
      then if saved
        then report_to id now group_saved fled
        else kill_player j now (report_to id now group_killed w)
      else report_to id now group_attacked w

  -- `p == sender`, dead, hidden, dormant or cloaked ships are passed by.
  pub passes_by : ℕ → ℕ → ℤ → Universe → Bool
  passes_by i j now u =
      let p = player_at u j in
      (j == i)
      || is_dead p
      || not p.ever_moved
      || is_dormant fl u.config p (now *ℤ nanoseconds)
      || (is_cloaked p && not (has_anti_cloak (player_at u i)))

  -- The exchange with one ship
  pub meet_ship : ℕ → ℕ → ℤ → Strike → Strike
  unfolding finish_ship
  meet_ship i j now (fleet, w) =
      let (b_loss, c_loss, rest) = attrition fleet (has_in fighters w j) (w.1).dice in
      let hit = alter j (adjust fighters (pos 0 -ℤ c_loss)) (w.0, record (w.1) { dice = rest }) in
      (fleet -ℤ b_loss, finish_ship j now hit)

  -- The loop over the ships that were in the sector when it began
  pub meet_ships : Bool → ℕ → ℤ → List ℕ → Strike → Strike
  unfolding passes_by meet_ship
  meet_ships battle i now [] s = s
  meet_ships battle i now (j ∷ js) (fleet, w) =
      let skip = passes_by i j now w.0 || not battle in
      let s = if skip then (fleet, w) else meet_ship i j now (fleet, w) in
      let over = not skip && ltb_ℤ s.0 (pos 1) in
      elim over [ true ↦ s | false ↦ meet_ships battle i now js s ]

  -- `GetObjectsInSector`, as pointers
  pub ships_in : ℕ → ℕ → List Player → List ℕ
  ships_in sec j [] = []
  ships_in sec j (p ∷ ps) =
      let rest = ships_in sec (j + 1) ps in if p.sector == sec then j ∷ rest else rest

  -- `battleSector`
  pub battle_sector : Bool → ℕ → ℕ → ℤ → Strike → Strike
  unfolding meet_force meet_ships ships_in
  battle_sector engage_ships i sec now s =
      let (fleet, w) = meet_force i sec now s in
      let battle = engage_ships && ltb_ℤ (pos 1) fleet && ltb 10 sec in
      if ltb_ℤ fleet (pos 1) && (elim (hostile i sec (s.1)) [ some _ ↦ true | none ↦ false ])
      then (fleet, w)
      else meet_ships battle i now (ships_in sec 0 (w.0).players) (fleet, w)

  -- `for _, sec := range route[1:]`
  pub strike_all : ℕ → ℤ → List ℕ → Strike → Strike
  unfolding battle_sector
  strike_all i now [] s = s
  strike_all i now (sec ∷ secs) s =
      let s' = battle_sector true i sec now s in
      elim (ltb_ℤ s'.0 (pos 1)) [ true ↦ s' | false ↦ strike_all i now secs s' ]

  pub come_home : ℕ → Strike → World
  come_home i (fleet, w) =
      with_universe mark_dirty
        (if ltb_ℤ (pos 0) fleet then alter i (adjust fighters fleet) w else w)

  pub send : ℕ → List ℕ → ℤ → ℤ → World → World
  unfolding strike_all come_home
  send i legs ships now w =
      come_home i (strike_all i now legs (ships, alter i (adjust fighters (pos 0 -ℤ ships)) w))

  -- From the checks of the target on
  pub dispatch : ℕ → ℕ → ℤ → ℤ → Command World Done
  unfolding send legs_of
  dispatch i target ships now w =
      when_ok (legs_of i target ships w.0) (λ secs. pay i >> modify (send i secs ships now)) w

  pub launch_battle_group : ℕ → ℕ → ℤ → ℤ → Command World Done
  unfolding dispatch
  launch_battle_group i target ships now w =
      if is_dead (player_at (w.0) i)
      then (err err_dead, w)
      else (check i sys_bg_computer >> dispatch i target ships now) w

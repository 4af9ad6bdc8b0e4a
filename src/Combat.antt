-- ===== src/Combat.antt =====
-- pkg/galwar/combat.go, `AttackPlayer`: one attack with its counter-attack, a kill with the salvage and
-- the victim's mines. The two pointers are of different players: the command refuses an attack on
-- oneself before anything is written. The report is left out.
pub mod Guards
mod Tests
use galwar.Base.{
  ℕ, zero, suc, ◌+◌, Bool, true, false, not, ◌&&◌, ◌||◌, Option, none, some, ◌==◌, leb, length,
  if◌then◌else◌,
}
use galwar.Base.Int.{ℤ, pos, ◌+ℤ◌, ◌-ℤ◌, ◌*ℤ◌, ◌/ℤ◌, ltb_ℤ, pos_part}
use galwar.Float64.{Float64}
use galwar.GameError.{
  Command, Result, Done, ok, err, ◌>>=◌, ◌>>◌, refuse_if, get, modify, err_dead, err_fed_restricted,
  err_not_found, err_unknown, err_negative_quantity, err_not_enough_quantity,
}
use galwar.Rng.{intn}
use galwar.Inventory.{get_quantity}
use galwar.Inventory.Goods.{fighters, holds, mines}
use galwar.Attrition.{attrition}
use galwar.Config.{config_int}
use galwar.Player.{Player, is_dead, has, adjust, spend_turn, is_cloaked, has_anti_cloak}
use galwar.Dormancy.{is_dormant}
use galwar.Universe.{
  Universe, player_at, on_player, mark_dirty, index_from, died_in_counter, attacked, Notice,
  salvaged,
}
use galwar.Death.{Chance, kill_player}
use galwar.World.{
  World, Blast, absorbed, weathered, flung, killed, with_universe, alter, report_to, when_ok, pay,
  has_in, unarmed, try_em_warp, mine_hits, goes_on,
}

-- `attrition(commit, target fighters)`, paid by both ships
pub exchange : ℕ → ℕ → ℤ → World → World
exchange i j commit (u, c) =
    let (a_loss, d_loss, rest) = attrition commit (has fighters (player_at u j)) c.dice in
    alter j (adjust fighters (pos 0 -ℤ d_loss))
      (alter i (adjust fighters (pos 0 -ℤ a_loss)) (u, record c { dice = rest }))

-- What the killer may take of the victim's holds, at a percentage that was rolled
pub salvage_of : ℕ → ℕ → ℤ → Universe → ℤ
salvage_of killer victim pct u =
    let part = has holds (player_at u victim) *ℤ pct /ℤ pos 100 in
    let room = config_int u.config "max_holds" (pos 16384) -ℤ has holds (player_at u killer) in
    if ltb_ℤ room part then room else part

-- The salvage, with the word that the killer gets of it
pub salvage : (World → World) → ℕ → ℕ → World → World
unfolding salvage_of
salvage told killer victim (u, c) =
    let (roll, rest) = intn 70 c.dice in
    let w : World = (u, record c { dice = rest }) in
    let amount = salvage_of killer victim (pos (roll + 30)) u in
    if ltb_ℤ (pos 0) amount then told (alter killer (adjust holds amount) w) else w

abbrev id_of : World → ℕ → ℕ
id_of (u, c) i = (player_at u i).id

-- The refusals that concern the target and the fighters that are sent
pub admit : Float64 → ℕ → ℕ → ℤ → ℤ → Universe → Result ℕ
admit fl i j commit at u =
    let p = player_at u i in
    let q = player_at u j in
    if is_dead q || not (q.sector == p.sector)
    then err err_not_found
    else if is_dormant fl u.config q at
    then err err_not_found
    else if is_cloaked q && not (has_anti_cloak p)
    then err err_not_found
    else if j == i
    then err err_unknown
    else if ltb_ℤ commit (pos 1)
    then err err_negative_quantity
    else if ltb_ℤ (has fighters p) commit
    then err err_not_enough_quantity
    else ok j

-- The refusals of `AttackPlayer`, in their order; else the index of the target. `at` is the clock in
-- nanoseconds.
pub target_of : Float64 → ℕ → ℕ → ℤ → ℤ → Universe → Result ℕ
unfolding admit
target_of fl i target commit at u =
    let p = player_at u i in
    if is_dead p
    then err err_dead
    else if leb p.sector 10
    then err err_fed_restricted
    else elim (index_from 0 target u.players) [
      | none ↦ err err_not_found
      | some j ↦ admit fl i j commit at u
    ]

module _ (tries : ℕ) where
  -- `for m := 0; m < mines; m++`
  pub detonate : ℕ → ℕ → ℤ → World → World
  detonate zero killer now w = w
  detonate (suc n) killer now w =
      let (b, hit) = mine_hits tries killer now (λ v. v) w in
      elim (goes_on b) [ true ↦ detonate n killer now hit | false ↦ hit ]

  pub detonate_carried_mines : ℕ → ℕ → ℤ → World → World
  unfolding detonate
  detonate_carried_mines killer victim now w =
      detonate (pos_part (has_in mines w victim)) killer now w

  pub resolve_kill : ℕ → ℕ → ℤ → World → World
  unfolding salvage detonate_carried_mines
  resolve_kill killer victim now w =
      let (saved, w') = try_em_warp tries victim now w in
      if saved
      then w'
      else kill_player victim now (
          report_to (id_of w victim) now Notice.killed
            (detonate_carried_mines killer victim now (salvage (λ v. v) killer victim w)))

  pub resolve_kill_reversed : ℕ → ℕ → ℤ → World → World
  unfolding salvage
  resolve_kill_reversed killer victim now w =
      let (saved, w') = try_em_warp tries victim now w in
      if saved
      then w'
      else kill_player victim now
          (salvage (report_to (id_of w killer) now salvaged) killer victim w)

  -- The counter-attack, with all that the attacker has left at stake
  pub counter : ℕ → ℕ → ℤ → World → World
  unfolding exchange resolve_kill resolve_kill_reversed
  counter i j now w =
      let fought = exchange i j (has_in fighters w i) w in
      if unarmed fought i
      then resolve_kill_reversed j i now (report_to (id_of w j) now died_in_counter fought)
      else if unarmed fought j
      then resolve_kill i j now fought
      else report_to (id_of w j) now attacked fought

  -- The attack, once it is paid for
  pub assault : ℕ → ℕ → ℤ → ℤ → World → World
  unfolding counter
  assault i j commit now w =
      let fought = exchange i j commit w in
      let (roll, rest) = intn 10 (fought.1).dice in
      let rolled : World = (fought.0, record (fought.1) { dice = rest }) in
      with_universe mark_dirty (
        if unarmed fought j
        then resolve_kill i j now fought
        else if leb 4 roll
        then counter i j now rolled
        else report_to (id_of w j) now attacked rolled)

  pub attack_player : Float64 → ℕ → ℕ → ℤ → ℤ → ℤ → Command World Done
  unfolding assault target_of
  attack_player fl i target commit at now w =
      when_ok (target_of fl i target commit at w.0) (λ j. pay i >> modify (assault i j commit now))
        w

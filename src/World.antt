-- ===== src/World.antt =====
-- The state of a fight: the universe with the random numbers to come. With `tryEmWarp` of
-- pkg/galwar/specials.go and a mine that goes off against a ship, of pkg/galwar/combat.go and
-- pkg/galwar/commands.go. The code draws until the new sector is another one; `tries` bounds the
-- draws after the first, and the last draw stands when they are used up. Every theorem holds for all
-- `tries`, so for every run of the code, which ends with probability one.
pub mod EmWarp
pub mod Pay
pub mod Orders
pub mod Sound
pub mod Others
pub mod Field
pub mod Sample
mod Tests
use galwar.Base.{
  ℕ, zero, suc, ◌+◌, ◌-◌, Bool, true, false, ◌&&◌, Option, List, ◌==◌, ltb, length, set,
  if◌then◌else◌,
}
use galwar.Base.Int.{ℤ, pos, negsuc, ◌+ℤ◌, ◌-ℤ◌, ltb_ℤ}
use galwar.GameError.{Command, Result, Done, ok, err}
use galwar.Rng.{Rng, intn}
use galwar.Inventory.Goods.{fighters, emwarp}
use galwar.Player.{Player, has, adjust, move_to, absorb_mine, check_system, spend_turn}
use galwar.Universe.{Universe, Notice, player_at, set_player, on_player, emwarped}
use galwar.News.{add_news}
use galwar.Death.{Chance, kill_player}
use galwar.Hazards.{mine_blast, hostile_battlegroup}
use galwar.Inventory.{get_quantity, adjust_quantity}
use galwar.Battlegroup.{group_at, force, set_force}

abbrev pub World : Type 0
World = Universe × Chance

abbrev pub with_universe : (Universe → Universe) → World → World
with_universe f (u, c) = (f u, c)

abbrev pub alter : ℕ → (Player → Player) → World → World
alter i f (u, c) = (set_player i (f (player_at u i)) u, c)

abbrev pub report_to : ℕ → ℤ → Notice → World → World
report_to id now msg (u, c) = (add_news id now msg u, c)

-- A command on the universe that draws no random number
abbrev pub engage : {A : Type 0} → Command Universe A → Command World A
engage m (u, c) = let (r, u') = m u in (r, (u', c))

-- `if err != nil { return err }`, on what a check returned
abbrev pub when_ok : {A B : Type 0} → Result A → (A → Command World B) → Command World B
when_ok (ok a) k w = k a w
when_ok (err e) k w = (err e, w)

-- `u.CheckSystem(p, sys)` and `u.spendTurn(p)`, by a pointer
unfoldable pub check : ℕ → ℕ → Command World Done
check i sys = engage (on_player i (check_system sys))

unfoldable pub pay : ℕ → Command World Done
pay i = engage (on_player i spend_turn)

abbrev pub has_in : ℕ → World → ℕ → ℤ
has_in good (u, c) i = has good (player_at u i)

-- `GetQuantity(FIGHTERS) <= 0`
abbrev pub unarmed : World → ℕ → Bool
unarmed w i = ltb_ℤ (has_in fighters w i) (pos 1)

-- `hostile.AdjustQuantity(good, amount)`, on the group that pointer `k` shows
abbrev pub adjust_force : ℕ → ℕ → ℤ → World → World
adjust_force k good amount =
    with_universe (λ u. set_force k (adjust_quantity good amount (force u k)) u)

abbrev pub force_of : World → ℕ → ℕ → ℤ
force_of (u, c) good k = get_quantity good (force u k)

abbrev pub owner_of : World → ℕ → ℕ
owner_of (u, c) k = (group_at u k).owner

-- `hostileBattlegroup`
abbrev pub hostile : ℕ → ℕ → World → Option ℕ
hostile i sector (u, c) = hostile_battlegroup (player_at u i).id sector 0 u.battlegroups

-- `for numsec > 1 && dest == p.Sector { dest = 1 + rand.Intn(numsec) }`
pub reroll : ℕ → ℕ → ℕ → ℕ × Rng → ℕ × Rng
reroll zero numsec sector (dest, rng) = (dest, rng)
reroll (suc n) numsec sector (dest, rng) =
    let (roll, rest) = intn numsec rng in
    let next = reroll n numsec sector (1 + roll, rest) in
    if ltb 1 numsec && (dest == sector) then next else (dest, rng)

-- What a mine did to the ship
pub data Blast : Type 0 where
  absorbed weathered flung killed : Blast

-- Whether the mines go on going off
abbrev pub goes_on : Blast → Bool
goes_on absorbed = true
goes_on weathered = true
goes_on flung = false
goes_on killed = false

module _ (tries : ℕ) where
  pub destination : ℕ → ℕ → Rng → ℕ × Rng
  unfolding reroll
  destination numsec sector rng =
      let (roll, rest) = intn numsec rng in reroll tries numsec sector (1 + roll, rest)

  -- The jump itself
  pub em_warp : ℕ → ℤ → World → World
  unfolding destination
  em_warp i now (u, c) =
      let p = adjust emwarp (negsuc 0) (player_at u i) in
      let (dest, rest) = destination (length u.sectors - 1) p.sector c.dice in
      (add_news p.id now emwarped (set_player i (move_to dest p) u), record c { dice = rest })

  unfoldable pub try_em_warp : ℕ → ℤ → World → Bool × World
  unfolding em_warp
  try_em_warp i now w =
      if ltb_ℤ (has_in emwarp w i) (pos 1)
      then (false, w)
      else if ltb (length (w.0).sectors - 1) 1
      then (false, w)
      else (true, em_warp i now w)

  -- The blast that no deflector stops. `told` is the news of the ship's end, sent before its death.
  pub blast : ℕ → ℤ → (World → World) → World → Blast × World
  unfolding try_em_warp
  blast i now told (u, c) =
      let (_, p, rest) = mine_blast (player_at u i) c.dice in
      let hurt : World = (set_player i p u, record c { dice = rest }) in
      let (saved, w) = try_em_warp i now hurt in
      if unarmed hurt i
      then if saved then (flung, w) else (killed, kill_player i now (told w))
      else (weathered, hurt)

  unfoldable pub mine_hits : ℕ → ℤ → (World → World) → World → Blast × World
  unfolding blast
  mine_hits i now told (u, c) =
      let (stopped, p) = absorb_mine (player_at u i) in
      if stopped then (absorbed, (set_player i p u, c)) else blast i now told (u, c)

-- ===== src/Bank.antt =====
-- pkg/galwar/bank.go: the Interstel account of each player, and the nightly interest on it.
pub mod Account
pub mod Interest
pub mod RoundTrip
mod Tests
use galwar.Base.{ℕ, ◌+◌, Bool, true, false, ◌||◌, List, [], ◌∷◌, ltb, if◌then◌else◌}
use galwar.Base.Int.{ℤ, pos, ◌+ℤ◌, ◌-ℤ◌, ◌*ℤ◌, ◌/ℤ◌, ltb_ℤ, leb_ℤ}
use galwar.GameError.{
  Command, Done, ◌>>=◌, ◌>>◌, refuse_if, get, modify, err_dead, err_negative_quantity,
  err_not_enough_money,
}
use galwar.Inventory.{adjust_money}
use galwar.Config.{Config, config_int}
use galwar.Float64.{Float64}
use galwar.Player.{Player, is_dead, is_npc}
use galwar.Dormancy.{is_dormant}
use galwar.Universe.{Universe, on_player, mark_dirty}

abbrev adjust_purse : ℤ → Player → Player
adjust_purse amount p = record p { inv = adjust_money amount p.inv }

abbrev adjust_balance : ℤ → Player → Player
adjust_balance amount p = record p { bank_balance = p.bank_balance +ℤ amount }

pub deposit : ℤ → Command Player Done
unfolding adjust_money
deposit amount = do
  p ← get (λ (p : Player). p)
  refuse_if (is_dead p) err_dead
  refuse_if (ltb_ℤ amount (pos 1)) err_negative_quantity
  refuse_if (ltb_ℤ p.money amount) err_not_enough_money
  modify (adjust_purse (pos 0 -ℤ amount))
  modify (adjust_balance amount)

pub withdraw : ℤ → Command Player Done
unfolding adjust_money
withdraw amount = do
  p ← get (λ (p : Player). p)
  refuse_if (is_dead p) err_dead
  refuse_if (ltb_ℤ amount (pos 1)) err_negative_quantity
  refuse_if (ltb_ℤ p.bank_balance amount) err_not_enough_money
  modify (adjust_balance (pos 0 -ℤ amount))
  modify (adjust_purse amount)

unfoldable pub bank_deposit : ℕ → ℤ → Command Universe Done
unfolding deposit on_player
bank_deposit i amount = on_player i (deposit amount) >> modify mark_dirty

unfoldable pub bank_withdraw : ℕ → ℤ → Command Universe Done
unfolding withdraw on_player
bank_withdraw i amount = on_player i (withdraw amount) >> modify mark_dirty

-- What one account earns in a night.
pub interest : ℤ → ℤ → ℤ → ℤ
interest pct cap balance = (if ltb_ℤ cap balance then cap else balance) *ℤ pct /ℤ pos 100

module _ (fl : Float64) where
  pub skipped : Config → ℤ → Player → Bool
  skipped config now p = is_npc p || leb_ℤ p.bank_balance (pos 0) || is_dormant fl config p now

  -- One account, and whether it was credited.
  pub credit_one : Config → ℤ → ℤ → ℤ → Player → ℕ × Player
  unfolding interest
  credit_one config now pct cap p =
      let gain = interest pct cap p.bank_balance in
      if skipped config now p
      then (0, p)
      else if ltb_ℤ (pos 0) gain
      then (1, adjust_balance gain p)
      else (0, p)

  pub credit_all : Config → ℤ → ℤ → ℤ → List Player → ℕ × List Player
  unfolding credit_one
  credit_all config now pct cap [] = (0, [])
  credit_all config now pct cap (p ∷ ps) =
      let (one, p') = credit_one config now pct cap p in
      let (more, ps') = credit_all config now pct cap ps in (one + more, p' ∷ ps')

  unfoldable pub credit_bank_interest : ℤ → Universe → ℕ × Universe
  unfolding credit_all
  credit_bank_interest now u =
      let pct = config_int u.config "bank_interest_pct" (pos 1) in
      let cap = config_int u.config "bank_interest_cap" (pos 1_000_000) in
      let (credited, players) = credit_all u.config now pct cap u.players in
      let u' = record u { players = players } in
      (credited, if ltb 0 credited then mark_dirty u' else u')

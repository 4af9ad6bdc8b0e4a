-- ===== src/Value/Worth.antt =====
-- The bank is no shelter from the rankings: pkg/galwar/value.go with pkg/galwar/bank.go.
use galwar.Base.{ℕ, ◌<◌, ◌≡◌, refl, length}
use galwar.Base.Int.{ℤ, pos, ◌+ℤ◌, ◌-ℤ◌, ◌≤ℤ◌, int_laws}
use galwar.Float64.{Float64}
use galwar.GameError.{Result, Done, ok, err}
use galwar.Universe.{Universe, player_at, set_player, mark_dirty, nobody}
use galwar.Universe.Pointers.{get_or-set_self}
use galwar.Bank.{bank_deposit, bank_withdraw}
use galwar.Bank.Account.{holding, Moves, bank_deposit-Moves, bank_withdraw-Moves}
use galwar.Value.{player_value, add_assets}

module _ (fl : Float64) (i : ℕ) (u : Universe) (inside : i < length u.players) where
  -- The worth of a player record as the state itself sees it
  abbrev pub worth : Universe → ℤ
  worth v = player_value fl v (player_at v i)

  worth-moved :
      (money balance : ℤ)
      → money +ℤ balance ≡ (player_at u i).money +ℤ (player_at u i).bank_balance
      → worth (mark_dirty (set_player i (holding money balance (player_at u i)) u)) ≡ worth u
  unfolding player_value add_assets
  worth-moved money balance e =
      rw (get_or-set_self u.players i (holding money balance (player_at u i)) nobody inside, e) refl

  worth-Moves :
      (from amount money balance : ℤ) (r : Result Done × Universe)
      → money +ℤ balance ≡ (player_at u i).money +ℤ (player_at u i).bank_balance
      → Moves
          (player_at u i)
          from
          amount
          u
          (mark_dirty (set_player i (holding money balance (player_at u i)) u))
          r
      → worth r.1 ≡ worth u
  worth-Moves from amount money balance (ok _, new) e m = rw (m.state) (worth-moved money balance e)
  worth-Moves from amount money balance (err _, new) e m = rw (m.0) refl

into_bank : (m b a : ℤ) → (m -ℤ a) +ℤ (b +ℤ a) ≡ m +ℤ b
into_bank m b a = omega int_laws

out_of_bank : (m b a : ℤ) → (m +ℤ a) +ℤ (b -ℤ a) ≡ m +ℤ b
out_of_bank m b a = omega int_laws

-- A deposit and a withdrawal, of any amount, granted or refused, leave what the player is worth; the
-- purse is not negative.
pub player_value-bank :
    (fl : Float64) (i : ℕ) (amount : ℤ) (u : Universe)
    → i < length u.players
    → pos 0 ≤ℤ (player_at u i).money
    → (player_value fl (bank_deposit i amount u).1 (player_at (bank_deposit i amount u).1 i)
        ≡ player_value fl u (player_at u i))
      × (player_value fl (bank_withdraw i amount u).1 (player_at (bank_withdraw i amount u).1 i)
          ≡ player_value fl u (player_at u i))
player_value-bank fl i amount u inside purse =
    let p = player_at u i in
    (
      worth-Moves fl i u inside p.money amount (p.money -ℤ amount) (p.bank_balance +ℤ amount)
          (bank_deposit i amount u) (into_bank p.money p.bank_balance amount)
          (bank_deposit-Moves i amount u),
      worth-Moves fl i u inside p.bank_balance amount (p.money +ℤ amount) (p.bank_balance -ℤ amount)
          (bank_withdraw i amount u) (out_of_bank p.money p.bank_balance amount)
          (bank_withdraw-Moves i amount u purse),
    )

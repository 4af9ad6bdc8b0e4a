-- ===== src/Bank/RoundTrip.antt =====
-- A deposit that is withdrawn again: pkg/galwar/bank.go.
use galwar.Base.{ℕ, ◌<◌, ◌≡◌, refl, ap, ◌∙◌, false, length, arith}
use galwar.Base.Int.{ℤ, pos, ◌+ℤ◌, ◌-ℤ◌, ◌≤ℤ◌, ltb_ℤ, int_laws}
use galwar.GameError.{Command, Done, ok, ◌>>◌, modify, bind_ok}
use galwar.Inventory.{adjust_money}
use galwar.Player.{Player, is_dead}
use galwar.Universe.{Universe, on_player, mark_dirty, player_at, set_player, nobody}
use galwar.Universe.Pointers.{set-get_or, get_or-set_self, set-set}
use galwar.Bank.{deposit, withdraw, bank_deposit, bank_withdraw}
use galwar.Bank.Account.{holding, less, minus_zero, clamp_idle}

le→ltb : (a b : ℤ) → b ≤ℤ a → ltb_ℤ a b ≡ false
le→ltb a b h = ground arith

is_dead-holding : (m b : ℤ) (p : Player) → is_dead (holding m b p) ≡ is_dead p
unfolding is_dead
is_dead-holding m b p = refl

deposit_accepted :
    (p : Player) (amount : ℤ)
    → is_dead p ≡ false
    → pos 1 ≤ℤ amount
    → amount ≤ℤ p.money
    → deposit amount p ≡ (ok tt, holding (p.money -ℤ amount) (p.bank_balance +ℤ amount) p)
unfolding deposit adjust_money
deposit_accepted p amount alive some covered =
    rw
      (
        alive,
        le→ltb amount (pos 1) some,
        le→ltb p.money amount covered,
        less p.money amount covered,
      )
      refl

withdraw_accepted :
    (p : Player) (amount : ℤ)
    → is_dead p ≡ false
    → pos 1 ≤ℤ amount
    → amount ≤ℤ p.bank_balance
    → pos 0 ≤ℤ p.money
    → withdraw amount p ≡ (ok tt, holding (p.money +ℤ amount) (p.bank_balance -ℤ amount) p)
unfolding withdraw adjust_money
withdraw_accepted p amount alive some covered purse =
    rw
      (
        alive,
        le→ltb amount (pos 1) some,
        le→ltb p.bank_balance amount covered,
        minus_zero p.bank_balance amount,
        clamp_idle (p.money +ℤ amount) (omega int_laws),
      )
      refl

back : (a b : ℤ) → a -ℤ b +ℤ b ≡ a
back a b = omega int_laws

forth : (a b : ℤ) → a +ℤ b -ℤ b ≡ a
forth a b = omega int_laws

accepted :
    (i : ℕ) (u : Universe) (m : Command Player Done) (p : Player)
    → m (player_at u i) ≡ (ok tt, p)
    → (on_player i m >> modify mark_dirty) u ≡ (ok tt, mark_dirty (set_player i p u))
unfolding on_player
accepted i u m p e =
    bind_ok (on_player i m) (λ _. modify mark_dirty) u (set_player i p u) tt
      (ap (λ r. (r.0, set_player i r.1 u)) e)

module _ (i : ℕ) (amount : ℤ) (u : Universe) (inside : i < length u.players) where
  abbrev p : Player
  p = player_at u i

  abbrev taken : Player
  taken = holding (p.money -ℤ amount) (p.bank_balance +ℤ amount) p

  bank_deposit_accepted :
      is_dead p ≡ false
      → pos 1 ≤ℤ amount
      → amount ≤ℤ p.money
      → bank_deposit i amount u ≡ (ok tt, mark_dirty (set_player i taken u))
  unfolding bank_deposit
  bank_deposit_accepted alive some covered =
      accepted i u (deposit amount) taken (deposit_accepted p amount alive some covered)

  taken_withdrawn :
      is_dead p ≡ false
      → pos 1 ≤ℤ amount
      → amount ≤ℤ p.money
      → pos 0 ≤ℤ p.bank_balance
      → withdraw amount (player_at (mark_dirty (set_player i taken u)) i) ≡ (ok tt, p)
  taken_withdrawn alive some covered balance =
      rw
        (
          get_or-set_self u.players i taken nobody inside,
          withdraw_accepted taken amount (is_dead-holding _ _ p ∙ alive) some (omega int_laws)
              (omega int_laws),
          back p.money amount,
          forth p.bank_balance amount,
        )
        refl

  put_back : set_player i p (mark_dirty (set_player i taken u)) ≡ mark_dirty u
  put_back = rw (set-set u.players i taken p, set-get_or u.players i nobody) refl

  bank_withdraw_accepted :
      is_dead p ≡ false
      → pos 1 ≤ℤ amount
      → amount ≤ℤ p.money
      → pos 0 ≤ℤ p.bank_balance
      → bank_withdraw i amount (mark_dirty (set_player i taken u)) ≡ (ok tt, mark_dirty u)
  unfolding bank_withdraw
  bank_withdraw_accepted alive some covered balance =
      accepted i (mark_dirty (set_player i taken u)) (withdraw amount) p
        (taken_withdrawn alive some covered balance)
      ∙ ap (λ u'. (ok tt, mark_dirty u')) put_back

-- A living player's deposit of one or more credits that the ship carries, on an account that is not
-- negative, followed by a withdrawal of the same amount, is accepted both times and leaves the
-- universe as it was, but for the dirty flag.
pub bank_deposit-bank_withdraw :
    (i : ℕ) (amount : ℤ) (u : Universe)
    → i < length u.players
    → is_dead (player_at u i) ≡ false
    → pos 1 ≤ℤ amount
    → amount ≤ℤ (player_at u i).money
    → pos 0 ≤ℤ (player_at u i).bank_balance
    → (bank_deposit i amount >> bank_withdraw i amount) u ≡ (ok tt, mark_dirty u)
bank_deposit-bank_withdraw i amount u inside alive some covered balance =
    bind_ok (bank_deposit i amount) (λ _. bank_withdraw i amount) u _ tt
      (bank_deposit_accepted i amount u inside alive some covered)
    ∙ (bank_withdraw_accepted i amount u inside alive some covered balance)

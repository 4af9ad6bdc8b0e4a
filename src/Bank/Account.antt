-- ===== src/Bank/Account.antt =====
-- Deposits and withdrawals: pkg/galwar/bank.go.
use galwar.Base.{ℕ, ◌≡◌, refl, inl, inr, ◌⊎◌, true, false, Bool-cases, arith}
use galwar.Base.Int.{ℤ, pos, ◌+ℤ◌, ◌-ℤ◌, ◌≤ℤ◌, ltb_ℤ, ltb_ℤ→lt, ltb_ℤ→le, int_laws}
use galwar.GameError.{Result, Done, ok, err, ◌>>◌, modify}
use galwar.Inventory.{at_least_zero, adjust_money}
use galwar.Player.{Player, is_dead}
use galwar.Universe.{Universe, on_player, mark_dirty, player_at, set_player}
use galwar.Universe.Pointers.{set-get_or}
use galwar.Bank.{deposit, withdraw, bank_deposit, bank_withdraw}

-- A player with another purse and another balance.
abbrev pub holding : ℤ → ℤ → Player → Player
holding money balance p = record p {
  bank_balance = balance;
  inv = record (p.inv) { money = money };
}

pub clamp_idle : (a : ℤ) → pos 0 ≤ℤ a → at_least_zero a ≡ a
clamp_idle a h = ground arith

-- What a command that moves `amount` out of `from` credits has done to a state: it was `old`, and
-- should become `moved`.
pub record Moved {S : Type 0} (p : Player) (from amount : ℤ) (moved new : S) : Type 0 where
  pub alive : is_dead p ≡ false
  pub some_credits : pos 1 ≤ℤ amount
  pub covered : amount ≤ℤ from
  pub state : new ≡ moved

abbrev pub Moves : {S : Type 0} → Player → ℤ → ℤ → S → S → Result Done × S → Type 0
Moves p from amount old moved (ok _, new) = Moved p from amount moved new
Moves p from amount old moved (err e, new) =
    (new ≡ old) × ((is_dead p ≡ true) ⊎ (amount ≤ℤ pos 0) ⊎ (from +ℤ pos 1 ≤ℤ amount))

pub less : (a b : ℤ) → b ≤ℤ a → at_least_zero (a +ℤ (pos 0 -ℤ b)) ≡ a -ℤ b
unfolding ◌-ℤ◌ ◌+ℤ◌
less a b h = ground arith

pub minus_zero : (a b : ℤ) → a +ℤ (pos 0 -ℤ b) ≡ a -ℤ b
minus_zero a b = omega int_laws

deposit-Moves :
    (p : Player) (amount : ℤ)
    → Moves p p.money amount p
        (holding (p.money -ℤ amount) (p.bank_balance +ℤ amount) p)
        (deposit amount p)
unfolding deposit adjust_money
deposit-Moves p amount = elim (Bool-cases (is_dead p)) [
  | inl dead ↦ rw (dead) (refl, inl dead)
  | inr alive ↦ elim (Bool-cases (ltb_ℤ amount (pos 1))) [
    | inl few ↦ rw (alive, few) (refl, inr (inl (omega (int_laws, ltb_ℤ→lt amount (pos 1) few))))
    | inr some ↦ elim (Bool-cases (ltb_ℤ p.money amount)) [
      | inl short ↦ rw (alive, some, short) (refl, inr (inr (ltb_ℤ→lt p.money amount short)))
      | inr enough ↦
          let covered = ltb_ℤ→le p.money amount enough in
          rw (alive, some, enough)
            (record {
              alive = alive;
              some_credits = ltb_ℤ→le amount (pos 1) some;
              covered = covered;
              state = rw (less p.money amount covered);
            })
    ]
  ]
]

withdraw-Moves :
    (p : Player) (amount : ℤ)
    → pos 0 ≤ℤ p.money
    → Moves p p.bank_balance amount p
        (holding (p.money +ℤ amount) (p.bank_balance -ℤ amount) p)
        (withdraw amount p)
unfolding withdraw adjust_money
withdraw-Moves p amount h = elim (Bool-cases (is_dead p)) [
  | inl dead ↦ rw (dead) (refl, inl dead)
  | inr alive ↦ elim (Bool-cases (ltb_ℤ amount (pos 1))) [
    | inl few ↦ rw (alive, few) (refl, inr (inl (omega (int_laws, ltb_ℤ→lt amount (pos 1) few))))
    | inr some ↦ elim (Bool-cases (ltb_ℤ p.bank_balance amount)) [
      | inl short ↦ rw (alive, some, short) (refl, inr (inr (ltb_ℤ→lt p.bank_balance amount short)))
      | inr enough ↦
          let positive = ltb_ℤ→le amount (pos 1) some in
          rw (alive, some, enough)
            (record {
              alive = alive;
              some_credits = positive;
              covered = ltb_ℤ→le p.bank_balance amount enough;
              state = rw (
                minus_zero p.bank_balance amount,
                clamp_idle (p.money +ℤ amount) (omega int_laws),
              );
            })
    ]
  ]
]

-- From a player's record to the universe.
module _ (i : ℕ) (u : Universe) (from amount : ℤ) (moved : Player) where
  lift-Moves :
      (r : Result Done × Player)
      → Moves (player_at u i) from amount (player_at u i) moved r
      → Moves
          (player_at u i)
          from
          amount
          u
          (mark_dirty (set_player i moved u))
          ((on_player i (λ _. r) >> modify mark_dirty) u)
  unfolding on_player
  lift-Moves (ok _, p') m = record {
    alive = m.alive;
    some_credits = m.some_credits;
    covered = m.covered;
    state = rw (m.state);
  }
  lift-Moves (err e, p') m = (rw (m.0, set-get_or u.players i _), m.1)

-- A deposit by a living player of at least one credit that the ship carries takes it from the purse
-- to the account and changes nothing else; any other deposit is refused and changes nothing.
pub bank_deposit-Moves :
    (i : ℕ) (amount : ℤ) (u : Universe)
    → Moves
        (player_at u i)
        (player_at u i).money
        amount
        u
        (mark_dirty (
          set_player i
            (holding
              ((player_at u i).money -ℤ amount)
              ((player_at u i).bank_balance +ℤ amount)
              (player_at u i))
            u))
        (bank_deposit i amount u)
unfolding bank_deposit on_player
bank_deposit-Moves i amount u =
    lift-Moves i u _ amount _ (deposit amount (player_at u i))
      (deposit-Moves (player_at u i) amount)

-- A withdrawal by a living player, whose purse is not negative, of at least one credit that the
-- account holds takes it from the account to the purse and changes nothing else; any other
-- withdrawal is refused and changes nothing.
pub bank_withdraw-Moves :
    (i : ℕ) (amount : ℤ) (u : Universe)
    → pos 0 ≤ℤ (player_at u i).money
    → Moves
        (player_at u i)
        (player_at u i).bank_balance
        amount
        u
        (mark_dirty (
          set_player i
            (holding
              ((player_at u i).money +ℤ amount)
              ((player_at u i).bank_balance -ℤ amount)
              (player_at u i))
            u))
        (bank_withdraw i amount u)
unfolding bank_withdraw on_player
bank_withdraw-Moves i amount u h =
    lift-Moves i u _ amount _ (withdraw amount (player_at u i))
      (withdraw-Moves (player_at u i) amount h)

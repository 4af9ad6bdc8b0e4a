-- ===== src/Bank/Tests.antt =====
-- The bank at a concrete universe.
use galwar.Base.{◌≡◌, refl, [], ◌∷◌, false, arith}
use galwar.Base.Int.{pos, ◌+ℤ◌, ◌-ℤ◌, ◌≤ℤ◌}
use galwar.GameError.{ok, ◌>>◌}
use galwar.Config.{config_int}
use galwar.Float64.Whole.{whole}
use galwar.Player.{Player, is_dead}
use galwar.Universe.{Universe, nobody, player_at, set_player, mark_dirty}
use galwar.Bank.{bank_deposit, bank_withdraw, credit_bank_interest, skipped}
use galwar.Bank.Account.{Moves, holding, bank_deposit-Moves, bank_withdraw-Moves}
use galwar.Bank.RoundTrip.{bank_deposit-bank_withdraw}
use galwar.Bank.Interest.{Credited, credit_bank_interest-Credited}

abbrev saver : Player
saver = record nobody {
  id = 7;
  bank_balance = pos 1_000;
  inv = record { inventory = []; money = pos 250 };
}

abbrev town : Universe
town = record {
  ports = [];
  players = saver ∷ [];
  battlegroups = [];
  planets = [];
  sectors = [];
  config = ("bank_interest_pct", "2") ∷ [];
  news = [];
  dirty = false;
}

saver_alive : is_dead saver ≡ false
unfolding is_dead
saver_alive = refl

bank_deposit-Moves_example :
    Moves saver
      (pos 250)
      (pos 300)
      town
      (mark_dirty (set_player 0 (holding (pos 250 -ℤ pos 300) (pos 1_000 +ℤ pos 300) saver) town))
      (bank_deposit 0 (pos 300) town)
bank_deposit-Moves_example = bank_deposit-Moves 0 (pos 300) town

bank_withdraw-Moves_example :
    Moves saver
      (pos 1_000)
      (pos 300)
      town
      (mark_dirty (set_player 0 (holding (pos 250 +ℤ pos 300) (pos 1_000 -ℤ pos 300) saver) town))
      (bank_withdraw 0 (pos 300) town)
bank_withdraw-Moves_example = bank_withdraw-Moves 0 (pos 300) town (omega arith)

bank_deposit-bank_withdraw_example :
    (bank_deposit 0 (pos 200) >> bank_withdraw 0 (pos 200)) town ≡ (ok tt, mark_dirty town)
bank_deposit-bank_withdraw_example =
    bank_deposit-bank_withdraw 0 (pos 200) town (omega arith) saver_alive (omega arith)
      (omega arith) (omega arith)

rate_nonneg : pos 0 ≤ℤ config_int town.config "bank_interest_pct" (pos 1)
unfolding config_int galwar.Text.atoi
rate_nonneg = omega arith

cap_nonneg : pos 0 ≤ℤ config_int town.config "bank_interest_cap" (pos 1_000_000)
unfolding config_int
cap_nonneg = omega arith

credit_bank_interest-Credited_example :
    Credited
      (skipped whole town.config (pos 86_400_000_000_000) saver)
      (config_int town.config "bank_interest_pct" (pos 1))
      (config_int town.config "bank_interest_cap" (pos 1_000_000))
      saver
      (player_at (credit_bank_interest whole (pos 86_400_000_000_000) town).1 0)
credit_bank_interest-Credited_example =
    credit_bank_interest-Credited whole (pos 86_400_000_000_000) town 0 rate_nonneg cap_nonneg
      (omega arith)

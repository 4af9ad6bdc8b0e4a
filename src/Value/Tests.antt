-- ===== src/Value/Tests.antt =====
-- Runs of the rankings, with a rich, a poor and a dead player.
use galwar.Base.{ℕ, ◌≡◌, refl, false, [], ◌∷◌, List, arith}
use galwar.Base.Int.{pos, ◌+ℤ◌, ◌*ℤ◌}
use galwar.Float64.Whole.{whole}
use galwar.Player.{Player, is_npc, is_dead}
use galwar.Universe.{Universe, nobody, player_at}
use galwar.Bank.{bank_deposit, bank_withdraw}
use galwar.Inventory.{get_quantity, get_commodity}
use galwar.Config.{config_int}
use galwar.Inventory.Goods.{find_commodity_def, zero_commodity, fighters}
use galwar.Value.{Ranking, player_value, rows, ranked_players}
use galwar.Value.Ranked.{Descending, with_value, ranked_players-Descending}
use galwar.Value.Worth.{player_value-bank}

abbrev poor : Player
poor = record nobody { id = 1; inv = record { inventory = []; money = pos 40 } }

abbrev rich : Player
rich = record nobody {
  id = 2;
  bank_balance = pos 500;
  inv = record {
    inventory = record zero_commodity { name = fighters; quantity = pos 3 } ∷ [];
    money = pos 40;
  };
}

abbrev dead : Player
dead = record nobody { id = 3; died_at = pos 9; inv = record { inventory = []; money = pos 900 } }

abbrev court : Universe
court = record {
  ports = [];
  players = poor ∷ dead ∷ rich ∷ [];
  battlegroups = [];
  planets = [];
  sectors = [];
  config = [];
  news = [];
  dirty = false;
}

abbrev ids : List Ranking → List ℕ
ids [] = []
ids (r ∷ rs) = r.id ∷ ids rs

order : ids (ranked_players whole court (pos 0)) ≡ 2 ∷ 1 ∷ []
unfolding ranked_players is_npc is_dead player_value ◌+ℤ◌ ◌*ℤ◌ get_quantity get_commodity config_int
    find_commodity_def
order = refl

-- 40 credits, 500 in the bank and three fighters at 98
worth_rich : player_value whole court rich ≡ pos 834
unfolding player_value ◌+ℤ◌ ◌*ℤ◌ get_quantity get_commodity config_int find_commodity_def
worth_rich = refl

ranked_players-Descending_example :
    Descending (ranked_players whole court (pos 0))
    × (with_value (pos 40) (ranked_players whole court (pos 0))
        ≡ with_value (pos 40) (rows whole court (pos 0) court.players))
ranked_players-Descending_example = ranked_players-Descending whole court (pos 0) (pos 40)

player_value-bank_example :
    (player_value whole
        (bank_deposit 0 (pos 30) court).1
        (player_at (bank_deposit 0 (pos 30) court).1 0)
      ≡ player_value whole court poor)
    × (player_value whole
          (bank_withdraw 0 (pos 30) court).1
          (player_at (bank_withdraw 0 (pos 30) court).1 0)
        ≡ player_value whole court poor)
player_value-bank_example = player_value-bank whole 0 (pos 30) court (omega arith) (omega arith)

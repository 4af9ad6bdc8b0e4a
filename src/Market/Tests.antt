-- ===== src/Market/Tests.antt =====
-- Trades at a concrete universe.
use galwar.Base.{[], ◌∷◌, false, arith}
use galwar.Base.Int.{pos}
use galwar.Float64.Whole.{whole}
use galwar.Inventory.Goods.{zero_commodity, ore, holds}
use galwar.Trade.{trade_buy}
use galwar.Universe.{Universe, nobody, trading_port}
use galwar.Market.{deal_of, market_buy}
use galwar.Market.Refinement.{Implements, market_buy-Implements}

abbrev bazaar : Universe
bazaar = record {
  ports =
      record {
        goods = trading_port;
        name = "Alpha";
        sector = 3;
        inv = record {
          inventory =
              record zero_commodity { name = ore; quantity = pos 30; prod = pos 20; sell_price = 5 }
              ∷ [];
          money = pos 0;
        };
      }
      ∷ [];
  players =
      record nobody {
        id = 7;
        sector = 3;
        inv = record {
          inventory = record zero_commodity { name = holds; quantity = pos 20 } ∷ [];
          money = pos 500;
        };
      }
      ∷ [];
  battlegroups = [];
  planets = [];
  sectors = [];
  config = [];
  news = [];
  dirty = false;
}

market_buy-Implements_example :
    Implements 0 0 bazaar
      (trade_buy whole ore (pos 4) (deal_of 0 0 bazaar))
      (market_buy whole 0 0 ore (pos 4) bazaar)
market_buy-Implements_example =
    market_buy-Implements whole 0 0 ore (pos 4) bazaar (omega arith) (omega arith)

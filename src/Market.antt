-- ===== src/Market.antt =====
-- pkg/galwar/ops.go, the trades as methods of the universe: a liveness guard, the trade between the
-- port and the player's ship, and the dirty flag.
pub mod Refinement
mod Tests
use galwar.Base.{ℕ, set}
use galwar.Base.Int.{ℤ}
use galwar.GameError.{Command, Done, ◌>>=◌, ◌>>◌, refuse_if, get, modify, err_dead}
use galwar.Float64.{Float64}
use galwar.Inventory.{InventoryBase}
use galwar.Inventory.Goods.{Commodity}
use galwar.Player.{is_dead}
use galwar.Trade.{Deal, trade_buy, trade_sell, trade_buy_no_limit}
use galwar.Universe.{Universe, player_at, set_player, mark_dirty}
use galwar.Docking.{port_at}

-- The two sides of a trade: player `i` and port `j`.
abbrev pub deal_of : ℕ → ℕ → Universe → Deal
deal_of i j u = record { port = (port_at u j).inv.inventory; trader = (player_at u i).inv }

abbrev pub set_port : ℕ → Deal → Universe → Universe
set_port j d u =
    let port = port_at u j in
    record u {
      ports = set u.ports j (record port { inv = record (port.inv) { inventory = d.port } });
    }

abbrev pub set_trader : ℕ → InventoryBase → Universe → Universe
set_trader i inv u = set_player i (record (player_at u i) { inv = inv }) u

pub on_deal : ℕ → ℕ → Command Deal Done → Command Universe Done
on_deal i j m u = let (r, d) = m (deal_of i j u) in (r, set_trader i d.trader (set_port j d u))

-- `checkAlive(player)`
abbrev pub check_alive : ℕ → Command Universe Done
check_alive i = do dead ← get (λ (u : Universe). is_dead (player_at u i)); refuse_if dead err_dead

pub guarded : ℕ → ℕ → Command Deal Done → Command Universe Done
unfolding on_deal
guarded i j m = do check_alive i; on_deal i j m; modify mark_dirty

pub on_trader : ℕ → Command InventoryBase Done → Command Universe Done
on_trader i m u = let (r, inv) = m (player_at u i).inv in (r, set_trader i inv u)

module _ (fl : Float64) where
  unfoldable pub market_buy : ℕ → ℕ → ℕ → ℤ → Command Universe Done
  unfolding guarded
  market_buy i j name quantity = guarded i j (trade_buy fl name quantity)

  unfoldable pub market_sell : ℕ → ℕ → ℕ → ℤ → Command Universe Done
  unfolding guarded
  market_sell i j name quantity = guarded i j (trade_sell fl name quantity)

  unfoldable pub market_buy_no_limit : ℕ → Commodity → ℤ → Command Universe Done
  unfolding on_trader
  market_buy_no_limit i commodity quantity = do
    check_alive i
    on_trader i (trade_buy_no_limit fl commodity quantity)
    modify mark_dirty

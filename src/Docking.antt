-- ===== src/Docking.antt =====
-- pkg/galwar/commands.go, `Dock` and `SolRepair`, with the ports of pkg/galwar/port.go.
pub mod Repair
mod Tests
use galwar.Base.{ℕ, Bool, true, false, not, List, [], ◌∷◌, get_or, set, replicate, if◌then◌else◌}
use galwar.Base.Int.{ℤ, pos, ◌-ℤ◌, ◌*ℤ◌, ltb_ℤ, eqb_ℤ}
use galwar.GameError.{
  Command, Done, ok, ◌>>=◌, ◌>>◌, refuse_if, get, modify, pure, err_dead, err_not_found,
  err_not_enough_money,
}
use galwar.Inventory.{adjust_money}
use galwar.Config.{config_int}
use galwar.Player.{
  Player, is_dead, check_system, spend_turn, total_system_damage, sys_cargo_bay, intact,
}
use galwar.Restock.{restock_all}
use galwar.Universe.{
  Universe, Port, PortType, trading_port, sol, amazing_devices, interstel, empty_inventory,
  on_player, player_at, mark_dirty,
}

unfoldable pub is_service : PortType → Bool
is_service trading_port = false
is_service sol = true
is_service amazing_devices = true
is_service interstel = true

abbrev pub no_port : Port
no_port = record { goods = trading_port; name = ""; sector = 0; inv = empty_inventory }

abbrev pub port_at : Universe → ℕ → Port
port_at u j = get_or u.ports j no_port

-- `port.Restock(now)`
pub restock_port : ℕ → ℤ → Universe → Universe
restock_port j now u =
    let port = port_at u j in
    record u {
      ports = set u.ports j (record port {
        inv = record (port.inv) { inventory = restock_all now port.inv.inventory };
      });
    }

-- A trading port charges a turn and restocks.
pub dock_trading : ℕ → ℕ → ℤ → Command Universe Done
unfolding restock_port
dock_trading i j now = do on_player i spend_turn; modify (restock_port j now); modify mark_dirty

unfoldable pub dock : ℕ → ℕ → ℤ → Command Universe Done
unfolding dock_trading is_service
dock i j now = do
  u ← get (λ (u : Universe). u)
  refuse_if (is_dead (player_at u i)) err_dead
  on_player i (check_system sys_cargo_bay)
  if is_service (port_at u j).goods then pure tt else dock_trading i j now

unfoldable pub repair : ℤ → Command Player Done
unfolding adjust_money
repair price = do
  p ← get (λ (p : Player). p)
  refuse_if (eqb_ℤ (total_system_damage p) (pos 0)) err_not_found
  refuse_if (ltb_ℤ p.money (total_system_damage p *ℤ price)) err_not_enough_money
  modify (λ (p : Player). record p {
    inv = adjust_money (pos 0 -ℤ total_system_damage p *ℤ price) p.inv;
  })
  modify (λ (p : Player). record p { systems = intact })

unfoldable pub sol_repair : ℕ → Command Universe Done
unfolding repair
sol_repair i = do
  price ← get (λ (u : Universe). config_int u.config "cost_of_repair" (pos 250))
  on_player i (repair price)
  modify mark_dirty

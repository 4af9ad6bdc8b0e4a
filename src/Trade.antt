-- ===== src/Trade.antt =====
-- pkg/galwar/ops.go: volume scaling and the three trades between a port and a trader. The port and
-- the trader are two objects, so a trade's state is the two inventories.
pub mod Scale
pub mod Buying
pub mod Selling
mod Tests
use galwar.Base.{ℕ, zero, suc, Bool, true, false, Option, none, some, List, ◌&&◌, if◌then◌else◌}
use galwar.Base.Int.{ℤ, pos, ◌+ℤ◌, ◌-ℤ◌, ltb_ℤ, leb_ℤ, pos_part}
use galwar.GameError.{
  Command, Result, ok, err, Done, ◌>>=◌, ◌>>◌, pure, fail, refuse_if, get, modify, err_unknown,
  err_negative_quantity, err_not_enough_quantity, err_not_enough_money, err_not_enough_holds,
}
use galwar.Float64.{Float64}
use galwar.Inventory.{
  InventoryBase, get_commodity, get_quantity, get_free_holds, adjust_quantity, adjust_money,
}
use galwar.Inventory.Goods.{Commodity, holds, is_cargo}
use galwar.Price.{get_buy_price, get_sell_price}

pub record Deal : Type 0 where
  pub port : List Commodity
  pub trader : InventoryBase

-- `-amount`
abbrev negated : ℤ → ℤ
negated a = pos 0 -ℤ a

or_fail : {S A : Type 0} → Option A → Command S A
or_fail none s = (err err_unknown, s)
or_fail (some a) s = (ok a, s)

adjust_port : ℕ → ℤ → Deal → Deal
adjust_port name amount d = record d { port = adjust_quantity name amount d.port }

adjust_purse : ℤ → Deal → Deal
adjust_purse amount d = record d { trader = adjust_money amount d.trader }

adjust_trader : ℕ → ℤ → Deal → Deal
adjust_trader name amount d = record d {
  trader = record (d.trader) { inventory = adjust_quantity name amount d.trader.inventory };
}

module _ (fl : Float64) where
  open fl use {of_int, to_int, mul, div, lt}

  -- `if r > 275 { r = 275 }`
  abbrev top_275 : ℕ → ℕ
  top_275 r = if lt (of_int (pos 275)) r then of_int (pos 275) else r

  pub scale_factor : List Commodity → ℕ
  scale_factor inv =
      let h = get_quantity holds inv in
      if ltb_ℤ h (pos 50) then of_int (pos 1) else top_275 (div (of_int h) (of_int (pos 50)))

  pub scale_up : List Commodity → ℤ → ℤ
  scale_up inv w = to_int (mul (of_int w) (scale_factor inv))

  -- `for ScaleUp(player, d) < w { d++ }`, on fuel
  pub raise : ℕ → List Commodity → ℤ → ℤ → ℤ
  raise zero inv w d = d
  raise (suc fuel) inv w d = elim (ltb_ℤ (scale_up inv d) w) [
    | true ↦ raise fuel inv w (d +ℤ pos 1)
    | false ↦ d
  ]

  -- As many rounds as units are enough: see `Scale`.
  pub scale_down : List Commodity → ℤ → ℤ
  scale_down inv w =
      if leb_ℤ w (pos 0)
      then pos 0
      else let d = to_int (div (of_int w) (scale_factor inv)) in
        raise (pos_part w) inv w (if ltb_ℤ d (pos 1) then pos 1 else d)

  pub trade_buy : ℕ → ℤ → Command Deal Done
  unfolding or_fail
  trade_buy name quantity = do
    refuse_if (ltb_ℤ quantity (pos 0)) err_negative_quantity
    commodity ← or_fail (← get (λ (d : Deal). get_commodity name d.port))
    trader ← get (λ (d : Deal). d.trader)
    refuse_if (ltb_ℤ (scale_up trader.inventory commodity.quantity) quantity)
        err_not_enough_quantity
    let total_price = get_sell_price fl commodity quantity
    refuse_if (ltb_ℤ trader.money total_price) err_not_enough_money
    refuse_if (is_cargo commodity.name && ltb_ℤ (get_free_holds trader.inventory) quantity)
        err_not_enough_holds
    modify (adjust_port name (negated (scale_down trader.inventory quantity)))
    modify (adjust_purse (negated total_price))
    modify (adjust_trader name quantity)

  pub trade_sell : ℕ → ℤ → Command Deal Done
  unfolding or_fail
  trade_sell name quantity = do
    refuse_if (ltb_ℤ quantity (pos 0)) err_negative_quantity
    commodity ← or_fail (← get (λ (d : Deal). get_commodity name d.port))
    trader ← get (λ (d : Deal). d.trader)
    refuse_if (ltb_ℤ (scale_up trader.inventory commodity.quantity) quantity)
        err_not_enough_quantity
    refuse_if (ltb_ℤ (get_quantity name trader.inventory) quantity) err_not_enough_quantity
    let total_price = get_buy_price fl commodity quantity
    modify (adjust_port name (negated (scale_down trader.inventory quantity)))
    modify (adjust_purse total_price)
    modify (adjust_trader name (negated quantity))

  -- Goods whose stock is not counted: the state is the trader's inventory.
  pub trade_buy_no_limit : Commodity → ℤ → Command InventoryBase Done
  trade_buy_no_limit commodity quantity = do
    refuse_if (ltb_ℤ quantity (pos 0)) err_negative_quantity
    let total_price = get_sell_price fl commodity quantity
    money ← get (λ (p : InventoryBase). p.money)
    refuse_if (ltb_ℤ money total_price) err_not_enough_money
    modify (adjust_money (negated total_price))
    modify (λ (p : InventoryBase). record p {
      inventory = adjust_quantity commodity.name quantity p.inventory;
    })

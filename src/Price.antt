-- ===== src/Price.antt =====
-- pkg/galwar/commodity.go: prices, which move with the stock. The floats are a parameter.
use galwar.Base.{ℕ, if◌then◌else◌}
use galwar.Base.Int.{ℤ, pos, ◌-ℤ◌, ◌*ℤ◌, leb_ℤ}
use galwar.Float64.{Float64, float_zero, float_0_05}
use galwar.Inventory.Goods.{Commodity}

module _ (fl : Float64) where
  open fl use {of_int, to_int, add, sub, mul, div, lt}

  -- `if d < 0 { return 0 }; if d > 1 { return 1 }; return d`
  clamp_unit : ℕ → ℕ
  clamp_unit d =
      if lt d float_zero then float_zero else if lt (of_int (pos 1)) d then of_int (pos 1) else d

  unfoldable pub depletion_fraction : Commodity → ℕ
  unfolding clamp_unit
  depletion_fraction c =
      let full = c.prod *ℤ pos 10 in
      if leb_ℤ full (pos 0)
      then float_zero
      else clamp_unit (div (of_int (full -ℤ c.quantity)) (of_int full))

  unfoldable pub effective_buy_price : Commodity → ℕ
  unfolding depletion_fraction
  effective_buy_price c =
      mul c.buy_price (sub (of_int (pos 1)) (mul float_0_05 (depletion_fraction c)))

  unfoldable pub effective_sell_price : Commodity → ℕ
  unfolding depletion_fraction
  effective_sell_price c =
      mul c.sell_price (add (of_int (pos 1)) (mul float_0_05 (depletion_fraction c)))

  unfoldable pub get_buy_price : Commodity → ℤ → ℤ
  unfolding effective_buy_price
  get_buy_price c quantity = to_int (mul (effective_buy_price c) (of_int quantity))

  unfoldable pub get_sell_price : Commodity → ℤ → ℤ
  unfolding effective_sell_price
  get_sell_price c quantity = to_int (mul (effective_sell_price c) (of_int quantity))

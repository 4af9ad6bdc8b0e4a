-- ===== src/Trade/Tests.antt =====
-- Trades at concrete ports. The floats of the examples are whole numbers that round down: they obey
-- the laws that the trades rely on.
use galwar.Base.{ℕ, ◌*◌, ◌/◌, ◌≡◌, refl, [], ◌∷◌, leb, arith, leb→le, ◌≤◌, true}
use galwar.Base.Int.{ℤ, pos, negsuc, pos_part, ◌+ℤ◌, ◌-ℤ◌, ◌*ℤ◌, ◌≤ℤ◌}
use native.Mathlib.Nat.{div-add-mod, le_of_mul-le-mul_left}
use galwar.GameError.{IsAtomic, ok}
use galwar.Float64.{ScaleLaws}
use galwar.Float64.Whole.{whole}
use galwar.Inventory.{InventoryBase, get_commodity, get_quantity, get_free_holds}
use galwar.Inventory.Goods.{
  Commodity, zero_commodity, get_holds_used, ore, holds, is_cargo, def_holds,
}
use galwar.Inventory.Invariant.{IsStocked}
use galwar.Price.{get_buy_price, get_sell_price}
use galwar.Trade.{
  Deal, trade_buy, trade_sell, trade_buy_no_limit, scale_up, scale_down, scale_factor,
}
use galwar.Trade.Scale.{scale_down_covers}
use galwar.Trade.Buying.{Bought, trade_buy-Bought, trade_buy-fits, trades_are-IsAtomic}
use galwar.Trade.Selling.{Sold, trade_sell-Sold}

whole_ratio : (n : ℕ) → 50 ≤ n → leb 1 (n / 50) ≡ true
whole_ratio n h = ground arith

whole_product : (w : ℤ) (f : ℕ) → pos 0 ≤ℤ w → 1 ≤ f → w ≤ℤ pos (pos_part w * f)
whole_product (pos n) f h one = grind arith
whole_product (negsuc n) f h one = absurd (omega arith)

whole_quotient :
    (w q : ℤ) (f : ℕ)
    → pos 0 ≤ℤ w
    → pos 0 ≤ℤ q
    → 1 ≤ f
    → w ≤ℤ pos (pos_part q * f)
    → pos (pos_part w / f) ≤ℤ q
whole_quotient (pos n) (pos m) f hw hq one cover =
    let fits : f * (n / f) ≤ f * m = omega (arith, div-add-mod n f) in
    let bound : n / f ≤ m = le_of_mul-le-mul_left fits one in omega arith
whole_quotient (negsuc n) q f hw hq one cover = absurd (omega arith)
whole_quotient (pos n) (negsuc m) f hw hq one cover = absurd (omega arith)

whole-ScaleLaws : ScaleLaws whole
whole-ScaleLaws = record {
  one_le_one = refl;
  one_le_top = refl;
  top_le_top = refl;
  one_le_ratio = λ h big small. whole_ratio (pos_part h) (omega arith);
  ratio_le_top = λ h big small under. ground arith;
  le-product = λ w f hw small one top. whole_product w f hw (leb→le 1 f one);
  product_zero = λ f top. omega arith;
  quotient-le =
      λ w q f hw ws hq qs one top cover. whole_quotient w q f hw hq (leb→le 1 f one) cover;
}

-- 100 holds, 20 units of ore aboard, 5000 credits.
abbrev freighter : InventoryBase
freighter = record {
  inventory =
      record zero_commodity { name = holds; quantity = pos 100 }
      ∷ record zero_commodity { name = ore; quantity = pos 20 }
      ∷ [];
  money = pos 5000;
}

-- Ore at 5 credits, which the port also takes for 8; 30 port units are 60 units to the freighter.
abbrev mine_head : Deal
mine_head = record {
  port =
      record zero_commodity {
        name = ore;
        prod = pos 3;
        quantity = pos 30;
        buy_price = 8;
        sell_price = 5;
        sell = true;
      }
      ∷ [];
  trader = freighter;
}

bought : (trade_buy whole ore (pos 31) mine_head).0 ≡ ok tt
unfolding trade_buy scale_up scale_factor get_commodity get_quantity get_free_holds get_holds_used
    def_holds is_cargo get_sell_price ◌+ℤ◌ ◌-ℤ◌ ◌*ℤ◌
bought = refl

sold : (trade_sell whole ore (pos 20) mine_head).0 ≡ ok tt
unfolding trade_sell scale_up scale_factor get_commodity get_quantity get_buy_price ◌+ℤ◌ ◌-ℤ◌ ◌*ℤ◌
sold = refl

freighter_holds : get_quantity holds freighter.inventory ≡ pos 100
unfolding get_quantity get_commodity
freighter_holds = refl

ore_stock : get_quantity ore mine_head.port ≡ pos 30
unfolding get_quantity get_commodity
ore_stock = refl

freighter-IsStocked : IsStocked freighter.inventory
unfolding get_commodity
freighter-IsStocked = (omega arith, refl, (omega arith, refl, tt))

mine_head-IsStocked : IsStocked mine_head.port
unfolding get_commodity
mine_head-IsStocked = (omega arith, refl, tt)

ore-is_cargo : is_cargo ore ≡ true
unfolding is_cargo def_holds
ore-is_cargo = refl

trades_are-IsAtomic_example :
    IsAtomic mine_head (trade_buy whole ore (pos 61) mine_head)
    × IsAtomic mine_head (trade_sell whole ore (pos 61) mine_head)
    × IsAtomic freighter (trade_buy_no_limit whole zero_commodity (pos 61) freighter)
trades_are-IsAtomic_example =
    trades_are-IsAtomic whole ore (pos 61) mine_head zero_commodity freighter

scale_down_covers_example :
    (pos 31 ≤ℤ scale_up whole freighter.inventory (scale_down whole freighter.inventory (pos 31)))
    × (pos 1 ≤ℤ scale_down whole freighter.inventory (pos 31))
    × (scale_down whole freighter.inventory (pos 31) ≤ℤ pos 31)
scale_down_covers_example =
    scale_down_covers whole whole-ScaleLaws freighter.inventory (rw freighter_holds (omega arith))
      (pos 31) (omega arith) (omega arith)

sixteen_cover : pos 31 ≤ℤ scale_up whole freighter.inventory (pos 16)
unfolding scale_up scale_factor get_quantity get_commodity
sixteen_cover = omega arith

trade_buy-Bought_example :
    (cm : Commodity) × Bought whole ore
      (pos 31)
      mine_head
      (trade_buy whole ore (pos 31) mine_head).1
      cm
trade_buy-Bought_example =
    trade_buy-Bought whole ore (pos 31) mine_head whole-ScaleLaws (rw freighter_holds (omega arith))
      (omega arith) (rw ore_stock (omega arith)) freighter-IsStocked mine_head-IsStocked bought

trade_buy-fits_example :
    let d' = (trade_buy whole ore (pos 31) mine_head).1 in
    (get_free_holds d'.trader.inventory ≡ get_free_holds freighter.inventory -ℤ pos 31)
    × (pos 0 ≤ℤ get_free_holds d'.trader.inventory)
trade_buy-fits_example =
    trade_buy-fits whole ore (pos 31) mine_head ore-is_cargo freighter-IsStocked bought

trade_sell-Sold_example :
    (cm : Commodity) × Sold whole ore
      (pos 20)
      mine_head
      (trade_sell whole ore (pos 20) mine_head).1
      cm
trade_sell-Sold_example =
    trade_sell-Sold whole ore (pos 20) mine_head whole-ScaleLaws (rw freighter_holds (omega arith))
      (omega arith) (rw ore_stock (omega arith)) mine_head-IsStocked sold

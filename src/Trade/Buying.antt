-- ===== src/Trade/Buying.antt =====
-- pkg/galwar/ops.go: refused trades, and what a purchase changes.
use galwar.Base.{ℕ, ◌≡◌, ◌∙◌, inl, inr, true, some, Option-cases, arith}
use galwar.Base.Int.{ℤ, pos, ◌+ℤ◌, ◌-ℤ◌, ◌≤ℤ◌, int_laws}
use galwar.GameError.{IsAtomic, ok}
use galwar.Float64.{Float64, ScaleLaws, exact_limit}
use galwar.Inventory.{InventoryBase, get_commodity, get_quantity, get_free_holds}
use galwar.Inventory.Goods.{Commodity, holds, is_cargo}
use galwar.Inventory.Laws.{
  get_quantity_of, adjusted_sum, money_sum, inventory-adjust_money, minus_negated, name_of_found,
}
use galwar.Inventory.Invariant.{IsStocked, get_quantity_nonneg}
use galwar.Inventory.Cargo.{get_free_holds-adjust_cargo}
use galwar.Price.{get_sell_price}
use galwar.Trade.{
  Deal, trade_buy, trade_sell, trade_buy_no_limit, scale_up, scale_down, adjust_port, adjust_purse,
  adjust_trader, negated,
}
use galwar.Trade.Scale.{scale_down-le}

module _ (fl : Float64) where
  -- A trade that is refused leaves the port and the trader as they were, whatever was refused.
  pub trades_are-IsAtomic :
      (name : ℕ) (quantity : ℤ) (d : Deal) (commodity : Commodity) (p : InventoryBase)
      → IsAtomic d (trade_buy fl name quantity d)
        × IsAtomic d (trade_sell fl name quantity d)
        × IsAtomic p (trade_buy_no_limit fl commodity quantity p)
  unfolding trade_buy trade_sell trade_buy_no_limit
  trades_are-IsAtomic name quantity d commodity p = (ground arith, ground arith, ground arith)

  -- The checks that a purchase passed, and the state that it wrote.
  record Purchase (name : ℕ) (quantity : ℤ) (d d' : Deal) (cm : Commodity) : Type 0 where
    found : get_commodity name d.port ≡ some cm
    nonneg : pos 0 ≤ℤ quantity
    in_stock : quantity ≤ℤ scale_up fl d.trader.inventory cm.quantity
    covered : get_sell_price fl cm quantity ≤ℤ d.trader.money
    room : is_cargo cm.name ≡ true → quantity ≤ℤ get_free_holds d.trader.inventory
    wrote :
        d'
        ≡ adjust_trader name quantity (
            adjust_purse
              (negated (get_sell_price fl cm quantity))
              (adjust_port name (negated (scale_down fl d.trader.inventory quantity)) d))

  Purchase-of :
      (name : ℕ) (quantity : ℤ) (d : Deal)
      → (trade_buy fl name quantity d).0 ≡ ok tt
      → (cm : Commodity) × Purchase name quantity d (trade_buy fl name quantity d).1 cm
  unfolding trade_buy
  Purchase-of name quantity d h = elim (Option-cases (get_commodity name d.port)) [
    | inl e ↦ absurd (ground arith)
    | inr (cm, e) ↦ (cm, ground arith)
  ]

  -- What a purchase of `quantity` units of `cm` does to the two inventories.
  pub record Bought (name : ℕ) (quantity : ℤ) (d d' : Deal) (cm : Commodity) : Type 0 where
    pub sold_here : get_commodity name d.port ≡ some cm
    pub paid : d'.trader.money ≡ d.trader.money -ℤ get_sell_price fl cm quantity
    pub never_in_debt : pos 0 ≤ℤ d'.trader.money
    pub received :
        get_quantity name d'.trader.inventory ≡ get_quantity name d.trader.inventory +ℤ quantity
    pub delivered :
        get_quantity name d'.port
        ≡ get_quantity name d.port -ℤ scale_down fl d.trader.inventory quantity
    pub not_overdrawn : pos 0 ≤ℤ get_quantity name d'.port

  module _ (name : ℕ) (quantity : ℤ) (d d' : Deal) (cm : Commodity)
      (b : Purchase name quantity d d' cm) (traders : IsStocked d.trader.inventory) where
    paid_of : d'.trader.money ≡ d.trader.money -ℤ get_sell_price fl cm quantity
    unfolding adjust_purse adjust_trader adjust_port
    paid_of = rw b.wrote (
        money_sum (negated (get_sell_price fl cm quantity)) d.trader
          (let c = b.covered in omega int_laws)
        ∙ minus_negated d.trader.money (get_sell_price fl cm quantity))

    received_of :
        get_quantity name d'.trader.inventory ≡ get_quantity name d.trader.inventory +ℤ quantity
    unfolding adjust_purse adjust_trader adjust_port
    received_of =
        let some_held = get_quantity_nonneg name d.trader.inventory traders in
        let bought = b.nonneg in
        rw (b.wrote, inventory-adjust_money)
          (adjusted_sum name quantity d.trader.inventory (omega int_laws))

    free_after :
        is_cargo name ≡ true
        → get_free_holds d'.trader.inventory ≡ get_free_holds d.trader.inventory -ℤ quantity
    unfolding adjust_purse adjust_trader adjust_port
    free_after cargo =
        let some_held = get_quantity_nonneg name d.trader.inventory traders in
        let bought = b.nonneg in
        rw (b.wrote, inventory-adjust_money)
          (get_free_holds-adjust_cargo name quantity d.trader.inventory cargo (omega int_laws))

    delivered_of :
        scale_down fl d.trader.inventory quantity ≤ℤ get_quantity name d.port
        → get_quantity name d'.port
          ≡ get_quantity name d.port -ℤ scale_down fl d.trader.inventory quantity
    unfolding adjust_purse adjust_trader adjust_port
    delivered_of h =
        let gone = scale_down fl d.trader.inventory quantity in
        rw b.wrote (
          adjusted_sum name (negated gone) d.port (omega int_laws)
          ∙ minus_negated (get_quantity name d.port) gone)

  -- A purchase that succeeds takes the price from the trader's credits, which cover it, gives the
  -- trader the units, and takes from the port the scaled number of units, which it has; so neither
  -- side's credits or stock are clamped. (Quantities up to 2^50, inventories with no negative entry.)
  pub trade_buy-Bought :
      (name : ℕ) (quantity : ℤ) (d : Deal)
      → ScaleLaws fl
      → get_quantity holds d.trader.inventory ≤ℤ exact_limit
      → quantity ≤ℤ exact_limit
      → get_quantity name d.port ≤ℤ exact_limit
      → IsStocked d.trader.inventory
      → IsStocked d.port
      → (trade_buy fl name quantity d).0 ≡ ok tt
      → (cm : Commodity) × Bought name quantity d (trade_buy fl name quantity d).1 cm
  trade_buy-Bought name quantity d laws few small stock_small traders ports h =
      let (cm, b) = Purchase-of name quantity d h in
      let stock = get_quantity_of name d.port cm b.found in
      let enough : scale_down fl d.trader.inventory quantity ≤ℤ get_quantity name d.port =
        scale_down-le fl laws d.trader.inventory few quantity (get_quantity name d.port) b.nonneg
          small (get_quantity_nonneg name d.port ports) stock_small (rw stock b.in_stock) in
      let paid = paid_of name quantity d _ cm b traders in
      let delivered = delivered_of name quantity d _ cm b traders enough in
      let covered = b.covered in
      (
        cm,
        record {
          sold_here = b.found;
          paid = paid;
          never_in_debt = rw paid (omega int_laws);
          received = received_of name quantity d _ cm b traders;
          delivered = delivered;
          not_overdrawn = rw delivered (omega int_laws);
        },
      )

  -- A cargo purchase that succeeds, by a ship with no negative quantity, takes up one hold a unit,
  -- and leaves no fewer than none free.
  pub trade_buy-fits :
      (name : ℕ) (quantity : ℤ) (d : Deal)
      → is_cargo name ≡ true
      → IsStocked d.trader.inventory
      → (trade_buy fl name quantity d).0 ≡ ok tt
      → let d' = (trade_buy fl name quantity d).1 in
        (get_free_holds d'.trader.inventory ≡ get_free_holds d.trader.inventory -ℤ quantity)
        × (pos 0 ≤ℤ get_free_holds d'.trader.inventory)
  trade_buy-fits name quantity d cargo traders h =
      let (cm, b) = Purchase-of name quantity d h in
      let room = b.room (rw (name_of_found name d.port cm b.found) cargo) in
      let left = free_after name quantity d _ cm b traders cargo in (left, rw left (omega int_laws))

-- ===== src/Trade/Selling.antt =====
-- pkg/galwar/ops.go: what a sale changes.
use galwar.Base.{ℕ, ◌≡◌, ◌∙◌, inl, inr, some, Option-cases, arith}
use galwar.Base.Int.{ℤ, pos, ◌+ℤ◌, ◌-ℤ◌, ◌≤ℤ◌, int_laws}
use galwar.GameError.{ok}
use galwar.Float64.{Float64, ScaleLaws, exact_limit}
use galwar.Inventory.{at_least_zero, get_commodity, get_quantity}
use galwar.Inventory.Goods.{Commodity, holds}
use galwar.Inventory.Laws.{
  get_quantity_of, adjusted_sum, inventory-adjust_money, minus_negated, adjusted_money,
}
use galwar.Inventory.Invariant.{IsStocked, get_quantity_nonneg}
use galwar.Price.{get_buy_price}
use galwar.Trade.{
  Deal, trade_sell, scale_up, scale_down, adjust_port, adjust_purse, adjust_trader, negated,
}
use galwar.Trade.Scale.{scale_down-le}

module _ (fl : Float64) where
  -- The checks that a sale passed, and the state that it wrote.
  record Sale (name : ℕ) (quantity : ℤ) (d d' : Deal) (cm : Commodity) : Type 0 where
    found : get_commodity name d.port ≡ some cm
    nonneg : pos 0 ≤ℤ quantity
    wanted : quantity ≤ℤ scale_up fl d.trader.inventory cm.quantity
    held : quantity ≤ℤ get_quantity name d.trader.inventory
    wrote :
        d'
        ≡ adjust_trader name (negated quantity) (
            adjust_purse
              (get_buy_price fl cm quantity)
              (adjust_port name (negated (scale_down fl d.trader.inventory quantity)) d))

  Sale-of :
      (name : ℕ) (quantity : ℤ) (d : Deal)
      → (trade_sell fl name quantity d).0 ≡ ok tt
      → (cm : Commodity) × Sale name quantity d (trade_sell fl name quantity d).1 cm
  unfolding trade_sell
  Sale-of name quantity d h = elim (Option-cases (get_commodity name d.port)) [
    | inl e ↦ absurd (ground arith)
    | inr (cm, e) ↦ (cm, ground arith)
  ]

  -- What a sale of `quantity` units does to the two inventories: the port's stock is what it still
  -- wants to buy.
  pub record Sold (name : ℕ) (quantity : ℤ) (d d' : Deal) (cm : Commodity) : Type 0 where
    pub bought_here : get_commodity name d.port ≡ some cm
    pub was_paid : d'.trader.money ≡ at_least_zero (d.trader.money +ℤ get_buy_price fl cm quantity)
    pub handed_over :
        get_quantity name d'.trader.inventory ≡ get_quantity name d.trader.inventory -ℤ quantity
    pub none_lent : pos 0 ≤ℤ get_quantity name d'.trader.inventory
    pub wants_less :
        get_quantity name d'.port
        ≡ get_quantity name d.port -ℤ scale_down fl d.trader.inventory quantity
    pub not_overdrawn : pos 0 ≤ℤ get_quantity name d'.port

  module _ (name : ℕ) (quantity : ℤ) (d d' : Deal) (cm : Commodity)
      (b : Sale name quantity d d' cm) where
    handed_over_of :
        get_quantity name d'.trader.inventory ≡ get_quantity name d.trader.inventory -ℤ quantity
    unfolding adjust_purse adjust_trader adjust_port
    handed_over_of =
        let held = b.held in
        rw (b.wrote, inventory-adjust_money)
          (adjusted_sum name (negated quantity) d.trader.inventory (omega int_laws)
            ∙ minus_negated (get_quantity name d.trader.inventory) quantity)

    wants_less_of :
        scale_down fl d.trader.inventory quantity ≤ℤ get_quantity name d.port
        → get_quantity name d'.port
          ≡ get_quantity name d.port -ℤ scale_down fl d.trader.inventory quantity
    unfolding adjust_purse adjust_trader adjust_port
    wants_less_of h =
        let gone = scale_down fl d.trader.inventory quantity in
        rw b.wrote (
          adjusted_sum name (negated gone) d.port (omega int_laws)
          ∙ minus_negated (get_quantity name d.port) gone)

    was_paid_of : d'.trader.money ≡ at_least_zero (d.trader.money +ℤ get_buy_price fl cm quantity)
    unfolding adjust_purse adjust_trader adjust_port
    was_paid_of = rw b.wrote (adjusted_money (get_buy_price fl cm quantity) d.trader)

  -- A sale that succeeds pays the trader, takes from it units that it has, and lowers what the port
  -- wants by the scaled number of units, which does not exceed it. (Quantities up to 2^50,
  -- inventories with no negative entry.)
  pub trade_sell-Sold :
      (name : ℕ) (quantity : ℤ) (d : Deal)
      → ScaleLaws fl
      → get_quantity holds d.trader.inventory ≤ℤ exact_limit
      → quantity ≤ℤ exact_limit
      → get_quantity name d.port ≤ℤ exact_limit
      → IsStocked d.port
      → (trade_sell fl name quantity d).0 ≡ ok tt
      → (cm : Commodity) × Sold name quantity d (trade_sell fl name quantity d).1 cm
  trade_sell-Sold name quantity d laws few small stock_small ports h =
      let (cm, b) = Sale-of name quantity d h in
      let stock = get_quantity_of name d.port cm b.found in
      let enough : scale_down fl d.trader.inventory quantity ≤ℤ get_quantity name d.port =
        scale_down-le fl laws d.trader.inventory few quantity (get_quantity name d.port) b.nonneg
          small (get_quantity_nonneg name d.port ports) stock_small (rw stock b.wanted) in
      let handed = handed_over_of name quantity d _ cm b in
      let less = wants_less_of name quantity d _ cm b enough in
      let held = b.held in
      (
        cm,
        record {
          bought_here = b.found;
          was_paid = was_paid_of name quantity d _ cm b;
          handed_over = handed;
          none_lent = rw handed (omega int_laws);
          wants_less = less;
          not_overdrawn = rw less (omega int_laws);
        },
      )

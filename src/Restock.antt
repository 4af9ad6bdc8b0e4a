-- ===== src/Restock.antt =====
-- pkg/galwar/commodity.go, `Commodity.Restock`: production accrues by the second, lazily.
-- Times are unix seconds.
pub mod Accrual
mod Tests
use galwar.Base.{ℕ, Bool, List, [], ◌∷◌, if◌then◌else◌}
use galwar.Base.Int.{ℤ, pos, ◌+ℤ◌, ◌-ℤ◌, ◌*ℤ◌, ◌/ℤ◌, ltb_ℤ, leb_ℤ, eqb_ℤ}
use galwar.Inventory.Goods.{Commodity}

-- units per day
abbrev rate : Commodity → ℤ
rate c = pos 2 *ℤ c.prod

abbrev full : Commodity → ℤ
full c = c.prod *ℤ pos 10

-- `if c.Quantity >= max { c.Quantity = max; c.LastRestock = now }`
cap_at : ℤ → ℤ → Commodity → Commodity
cap_at limit now c =
    if leb_ℤ limit c.quantity then record c { quantity = limit; last_restock = now } else c

-- The units gained are added, and the clock moves by the seconds that they took.
accrue : ℤ → ℤ → Commodity → Commodity
unfolding cap_at
accrue now gain c =
    if leb_ℤ gain (pos 0)
    then c
    else cap_at (full c) now (record c {
      last_restock = c.last_restock +ℤ gain *ℤ pos 86400 /ℤ rate c;
      quantity = c.quantity +ℤ gain;
    })

pub restock : ℤ → Commodity → Commodity
unfolding accrue
restock now c =
    if leb_ℤ c.prod (pos 0)
    then c
    else if eqb_ℤ c.last_restock (pos 0)
    then record c { last_restock = now }
    else if leb_ℤ (now -ℤ c.last_restock) (pos 0)
    then c
    else if leb_ℤ (full c) c.quantity
    then record c { last_restock = now }
    else accrue now (rate c *ℤ (now -ℤ c.last_restock) /ℤ pos 86400) c

-- pkg/galwar/port.go, `Port.Restock`
pub restock_all : ℤ → List Commodity → List Commodity
restock_all now [] = []
restock_all now (c ∷ inv) = restock now c ∷ restock_all now inv

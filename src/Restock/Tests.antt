-- ===== src/Restock/Tests.antt =====
-- A port's ore at 100 a day, three hours after its clock was set.
use galwar.Base.{◌≡◌, refl}
use galwar.Base.Int.{pos, ◌+ℤ◌, ◌-ℤ◌, ◌*ℤ◌, ◌/ℤ◌}
use galwar.Inventory.Goods.{zero_commodity}
use galwar.Restock.{restock}
use galwar.Restock.Accrual.{stock}

-- 2 * 50 units a day for 10800 seconds are 12 units and a half; 12 units take 10368 seconds.
three_hours :
    restock (pos 20800) (stock zero_commodity 50 7 10000) ≡ stock zero_commodity 50 19 20368
unfolding restock ◌+ℤ◌ ◌-ℤ◌ ◌*ℤ◌ ◌/ℤ◌
three_hours = refl

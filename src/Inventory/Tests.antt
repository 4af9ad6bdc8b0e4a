-- ===== src/Inventory/Tests.antt =====
-- Inventories at a concrete one.
use galwar.Base.{refl, List, [], ◌∷◌, arith}
use galwar.Base.Int.{pos}
use galwar.Inventory.{get_commodity}
use galwar.Inventory.Goods.{Commodity, zero_commodity, ore, holds}
use galwar.Inventory.Invariant.{IsStocked}

abbrev hull : List Commodity
hull =
    record zero_commodity { name = holds; quantity = pos 20 }
    ∷ record zero_commodity { name = ore; quantity = pos 5 }
    ∷ []

hull-IsStocked : IsStocked hull
unfolding get_commodity
hull-IsStocked = (omega arith, refl, (omega arith, refl, tt))

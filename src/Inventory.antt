-- ===== src/Inventory.antt =====
-- pkg/galwar/base.go and the data of pkg/galwar/commodity.go: commodities and inventories.
-- A commodity's name is only compared, so it is a number here; the constants are 0 to 16, and any
-- other number is a name that the code does not know. `int` is ℤ without a bound. A float64 is its
-- 64-bit pattern.
pub mod Goods
pub mod Laws
pub mod Invariant
pub mod Cargo
mod Tests
use galwar.Base.{
  ℕ, ◌≡◌, Bool, true, false, Option, none, some, List, [], ◌∷◌, ◌++◌, ◌==◌, if◌then◌else◌,
}
use galwar.Base.Int.{ℤ, pos, ◌+ℤ◌, ◌-ℤ◌, ◌*ℤ◌, ltb_ℤ}
use Goods.{Commodity, zero_commodity, find_commodity_def, holds, get_holds_used}

-- `if amount < 0 { amount = 0 }`
abbrev pub at_least_zero : ℤ → ℤ
at_least_zero a = if ltb_ℤ a (pos 0) then pos 0 else a

pub record InventoryBase : Type 0 where
  pub inventory : List Commodity
  pub money : ℤ

unfoldable pub get_commodity : ℕ → List Commodity → Option Commodity
get_commodity name [] = none
get_commodity name (cm ∷ inv) = if cm.name == name then some cm else get_commodity name inv

-- A write through the pointer that `GetCommodity` returns.
pub update : ℕ → (Commodity → Commodity) → List Commodity → List Commodity
update name f [] = []
update name f (cm ∷ inv) = if cm.name == name then f cm ∷ inv else cm ∷ update name f inv

unfoldable pub has_inventory : List Commodity → Bool
has_inventory [] = false
has_inventory (cm ∷ inv) = if ltb_ℤ (pos 0) cm.quantity then true else has_inventory inv

unfoldable pub get_quantity : ℕ → List Commodity → ℤ
get_quantity name inv = elim (get_commodity name inv) [ some cm ↦ cm.quantity | none ↦ pos 0 ]

pub holds_used_from : ℤ → List Commodity → ℤ
holds_used_from free [] = free
holds_used_from free (cm ∷ inv) = holds_used_from (free -ℤ get_holds_used cm) inv

unfoldable pub get_free_holds : List Commodity → ℤ
unfolding holds_used_from
get_free_holds inv = holds_used_from (get_quantity holds inv) inv

pub new_commodity : ℕ → ℤ → Commodity
new_commodity name amount = elim (find_commodity_def name) [
  | some def ↦ record zero_commodity {
    name = name;
    quantity = amount;
    buy_price = def.buy_price;
    sell_price = def.sell_price;
  }
  | none ↦ record zero_commodity { name = name; quantity = amount }
]

pub set_clamped : ℕ → ℤ → List Commodity → List Commodity
set_clamped name amount inv = elim (get_commodity name inv) [
  | some _ ↦ update name (λ cm. record cm { quantity = amount }) inv
  | none ↦ if ltb_ℤ (pos 0) amount then inv ++ (new_commodity name amount ∷ []) else inv
]

pub set_quantity : ℕ → ℤ → List Commodity → List Commodity
unfolding set_clamped
set_quantity name amount inv = set_clamped name (at_least_zero amount) inv

pub adjust_quantity : ℕ → ℤ → List Commodity → List Commodity
adjust_quantity name amount inv = elim (get_commodity name inv) [
  | some _ ↦ update name (λ cm. record cm { quantity = at_least_zero (cm.quantity +ℤ amount) }) inv
  | none ↦ if ltb_ℤ (pos 0) amount then set_quantity name amount inv else inv
]

unfoldable pub adjust_money : ℤ → InventoryBase → InventoryBase
adjust_money amount p = record p { money = at_least_zero (p.money +ℤ amount) }

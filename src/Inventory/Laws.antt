-- ===== src/Inventory/Laws.antt =====
-- What a read of an inventory sees after a write: pkg/galwar/base.go.
use galwar.Base.{
  ◌∙◌, ℕ, ◌≡◌, refl, ◌≢◌, inl, inr, none, some, List, [], ◌∷◌, ◌++◌, if◌then◌else◌, Option-cases,
  arith,
}
use galwar.Base.Int.{ℤ, pos, ◌+ℤ◌, ◌-ℤ◌, ◌≤ℤ◌, ltb_ℤ, int_laws}
use galwar.Inventory.{
  InventoryBase, adjust_money, InventoryBase, at_least_zero, get_commodity, update, get_quantity,
  set_clamped, set_quantity, adjust_quantity, new_commodity, adjust_money,
}
use galwar.Inventory.Goods.{Commodity}

-- A write through the pointer is seen at its own name only.
pub get-update_self :
    (n : ℕ) (f : Commodity → Commodity) (inv : List Commodity) (cm : Commodity)
    → ((c : Commodity) → (f c).name ≡ c.name)
    → get_commodity n inv ≡ some cm
    → get_commodity n (update n f inv) ≡ some (f cm)
unfolding get_commodity update
get-update_self n f [] cm keeps e = cc
get-update_self n f (c ∷ inv) cm keeps e = ground (arith, keeps c, get-update_self n f inv cm keeps)

pub get-update_ne :
    (n m : ℕ) (f : Commodity → Commodity) (inv : List Commodity)
    → ((c : Commodity) → (f c).name ≡ c.name)
    → m ≢ n
    → get_commodity m (update n f inv) ≡ get_commodity m inv
unfolding get_commodity update
get-update_ne n m f [] keeps h = refl
get-update_ne n m f (c ∷ inv) keeps h = ground (arith, keeps c, get-update_ne n m f inv keeps)

pub new_commodity_fields :
    (n : ℕ) (a : ℤ) → ((new_commodity n a).name ≡ n) × ((new_commodity n a).quantity ≡ a)
unfolding new_commodity
new_commodity_fields n a = ground arith

get-append_self :
    (n : ℕ) (inv : List Commodity) (c : Commodity)
    → get_commodity n inv ≡ none
    → c.name ≡ n
    → get_commodity n (inv ++ (c ∷ [])) ≡ some c
unfolding get_commodity
get-append_self n [] c e h = ground arith
get-append_self n (x ∷ inv) c e h = ground (arith, get-append_self n inv c)

pub get-append_ne :
    (n : ℕ) (inv : List Commodity) (c : Commodity)
    → c.name ≢ n
    → get_commodity n (inv ++ (c ∷ [])) ≡ get_commodity n inv
unfolding get_commodity
get-append_ne n [] c h = ground arith
get-append_ne n (x ∷ inv) c h = ground (arith, get-append_ne n inv c h)

pub get_quantity_of :
    (n : ℕ) (inv : List Commodity) (cm : Commodity)
    → get_commodity n inv ≡ some cm
    → get_quantity n inv ≡ cm.quantity
unfolding get_quantity
get_quantity_of n inv cm e = ground arith

pub get_quantity-none :
    (n : ℕ) (inv : List Commodity) → get_commodity n inv ≡ none → get_quantity n inv ≡ pos 0
unfolding get_quantity
get_quantity-none n inv e = ground arith

pub set_clamped_found :
    (n : ℕ) (a : ℤ) (inv : List Commodity) (cm : Commodity)
    → get_commodity n inv ≡ some cm
    → set_clamped n a inv ≡ update n (λ c. record c { quantity = a }) inv
unfolding set_clamped
set_clamped_found n a inv cm e = rw (e, set_clamped)

pub set_clamped_missing :
    (n : ℕ) (a : ℤ) (inv : List Commodity)
    → get_commodity n inv ≡ none
    → set_clamped n a inv ≡ (if ltb_ℤ (pos 0) a then inv ++ (new_commodity n a ∷ []) else inv)
unfolding set_clamped
set_clamped_missing n a inv e = rw (e, set_clamped)

get_quantity-set_clamped :
    (n : ℕ) (a : ℤ) (inv : List Commodity) → pos 0 ≤ℤ a → get_quantity n (set_clamped n a inv) ≡ a
get_quantity-set_clamped n a inv h = elim (Option-cases (get_commodity n inv)) [
  | inl e ↦ rw (set_clamped_missing n a inv e) (
      ground (
        arith,
        get_quantity-none n inv e,
        get_quantity_of n (inv ++ (new_commodity n a ∷ [])) (new_commodity n a),
        get-append_self n inv (new_commodity n a) e,
        new_commodity_fields n a,
      ))
  | inr (cm, e) ↦
      rw (set_clamped_found n a inv cm e)
        (get_quantity_of n _ _ (get-update_self n _ inv cm (λ c. refl) e))
]

get_quantity-set_clamped_ne :
    (n m : ℕ) (a : ℤ) (inv : List Commodity)
    → m ≢ n
    → get_quantity m (set_clamped n a inv) ≡ get_quantity m inv
unfolding get_quantity
get_quantity-set_clamped_ne n m a inv h = elim (Option-cases (get_commodity n inv)) [
  | inl e ↦
      rw (set_clamped_missing n a inv e)
        (ground (arith, get-append_ne m inv (new_commodity n a), new_commodity_fields n a))
  | inr (cm, e) ↦
      rw (set_clamped_found n a inv cm e)
        (ground (arith, get-update_ne n m (λ c. record c { quantity = a }) inv (λ c. refl)))
]

-- After `SetQuantity(name, amount)` the inventory holds `amount` of the name, and 0 for a negative
-- amount, whether or not the name was there.
pub get_quantity-set_quantity :
    (n : ℕ) (a : ℤ) (inv : List Commodity) → get_quantity n (set_quantity n a inv) ≡ at_least_zero a
unfolding set_quantity
get_quantity-set_quantity n a inv = get_quantity-set_clamped n (at_least_zero a) inv (ground arith)

-- `SetQuantity` touches no other name.
pub get_quantity-set_quantity_ne :
    (n m : ℕ) (a : ℤ) (inv : List Commodity)
    → m ≢ n
    → get_quantity m (set_quantity n a inv) ≡ get_quantity m inv
unfolding set_quantity
get_quantity-set_quantity_ne n m a inv h = get_quantity-set_clamped_ne n m (at_least_zero a) inv h

-- After `AdjustQuantity(name, delta)` the inventory holds the old quantity plus `delta`, and 0 where
-- that is negative, whether or not the name was there.
pub get_quantity-adjust_quantity :
    (n : ℕ) (a : ℤ) (inv : List Commodity)
    → get_quantity n (adjust_quantity n a inv) ≡ at_least_zero (get_quantity n inv +ℤ a)
unfolding adjust_quantity
get_quantity-adjust_quantity n a inv = elim (Option-cases (get_commodity n inv)) [
  | inl e ↦
      rw (e, adjust_quantity)
        (rw (get_quantity-none n inv e)
          (grind (int_laws, get_quantity-set_quantity n a inv, get_quantity-none n inv e)))
  | inr (cm, e) ↦
      rw (e, adjust_quantity)
        (rw (get_quantity_of n inv cm e)
          (get_quantity_of n _ _ (get-update_self n _ inv cm (λ c. refl) e)))
]

-- `AdjustQuantity` touches no other name.
pub get_quantity-adjust_quantity_ne :
    (n m : ℕ) (a : ℤ) (inv : List Commodity)
    → m ≢ n
    → get_quantity m (adjust_quantity n a inv) ≡ get_quantity m inv
unfolding adjust_quantity
get_quantity-adjust_quantity_ne n m a inv h = elim (Option-cases (get_commodity n inv)) [
  | inl e ↦ rw (e, adjust_quantity) (ground (arith, get_quantity-set_quantity_ne n m a inv h))
  | inr (cm, e) ↦
      rw (e, adjust_quantity)
        (unfold get_quantity in
          ground (
            arith,
            get-update_ne n m (λ c. record c { quantity = at_least_zero (c.quantity +ℤ a) }) inv
                (λ c. refl),
          ))
]

-- `AdjustQuantity` by branch.
pub adjust_quantity_found :
    (n : ℕ) (a : ℤ) (inv : List Commodity) (cm : Commodity)
    → get_commodity n inv ≡ some cm
    → adjust_quantity n a inv
      ≡ update n (λ c. record c { quantity = at_least_zero (c.quantity +ℤ a) }) inv
unfolding adjust_quantity
adjust_quantity_found n a inv cm e = rw (e, adjust_quantity)

pub adjust_quantity_new :
    (n : ℕ) (a : ℤ) (inv : List Commodity)
    → get_commodity n inv ≡ none
    → pos 1 ≤ℤ a
    → adjust_quantity n a inv ≡ inv ++ (new_commodity n a ∷ [])
unfolding adjust_quantity set_quantity set_clamped
adjust_quantity_new n a inv e h = ground arith

pub adjust_quantity_missing :
    (n : ℕ) (a : ℤ) (inv : List Commodity)
    → get_commodity n inv ≡ none
    → a ≤ℤ pos 0
    → adjust_quantity n a inv ≡ inv
unfolding adjust_quantity
adjust_quantity_missing n a inv e h = ground arith

clamp_idle : (a : ℤ) → pos 0 ≤ℤ a → at_least_zero a ≡ a
clamp_idle a h = ground arith

-- Where nothing is clamped, an adjustment is a sum.
pub adjusted_sum :
    (n : ℕ) (a : ℤ) (inv : List Commodity)
    → pos 0 ≤ℤ get_quantity n inv +ℤ a
    → get_quantity n (adjust_quantity n a inv) ≡ get_quantity n inv +ℤ a
adjusted_sum n a inv h =
    get_quantity-adjust_quantity n a inv ∙ clamp_idle (get_quantity n inv +ℤ a) h

pub money_sum :
    (a : ℤ) (p : InventoryBase) → pos 0 ≤ℤ p.money +ℤ a → (adjust_money a p).money ≡ p.money +ℤ a
unfolding adjust_money
money_sum a p h = clamp_idle (p.money +ℤ a) h

pub inventory-adjust_money :
    (a : ℤ) (p : InventoryBase) → (adjust_money a p).inventory ≡ p.inventory
unfolding adjust_money
inventory-adjust_money a p = refl

pub minus_negated : (a b : ℤ) → a +ℤ (pos 0 -ℤ b) ≡ a -ℤ b
minus_negated a b = omega int_laws

-- Adding back what was taken.
pub add_back : (a b : ℤ) → a -ℤ b +ℤ b ≡ a
add_back a b = omega int_laws

pub name_of_found :
    (n : ℕ) (inv : List Commodity) (cm : Commodity) → get_commodity n inv ≡ some cm → cm.name ≡ n
unfolding get_commodity
name_of_found n [] cm e = cc
name_of_found n (c ∷ inv) cm e = ground (arith, name_of_found n inv cm)

pub adjusted_money :
    (a : ℤ) (p : InventoryBase) → (adjust_money a p).money ≡ at_least_zero (p.money +ℤ a)
unfolding adjust_money
adjusted_money a p = refl

-- ===== src/Inventory/Invariant.antt =====
-- The invariant of an inventory, and that the writes of pkg/galwar/base.go keep it.
use galwar.Base.{ℕ, ◌≡◌, refl, inl, inr, none, List, [], ◌∷◌, ◌++◌, Option-cases, arith}
use galwar.Base.Int.{ℤ, pos, ◌≤ℤ◌}
use galwar.Inventory.{
  at_least_zero, get_commodity, update, get_quantity, set_clamped, set_quantity, adjust_quantity,
  new_commodity,
}
use galwar.Inventory.Goods.{Commodity}
use galwar.Inventory.Laws.{
  get-update_ne, get-append_ne, new_commodity_fields, set_clamped_found, set_clamped_missing,
}

-- No quantity is negative, and no name has two entries.
abbrev pub IsStocked : List Commodity → Type 0
IsStocked [] = Unit
IsStocked (c ∷ inv) = (pos 0 ≤ℤ c.quantity) × (get_commodity c.name inv ≡ none) × IsStocked inv

pub get_quantity_nonneg :
    (n : ℕ) (inv : List Commodity) → IsStocked inv → pos 0 ≤ℤ get_quantity n inv
unfolding get_quantity get_commodity
get_quantity_nonneg n [] v = omega arith
get_quantity_nonneg n (c ∷ inv) v = ground (arith, get_quantity_nonneg n inv v.2)

-- An update that keeps names and makes no quantity negative.
update-IsStocked :
    (n : ℕ) (f : Commodity → Commodity) (inv : List Commodity)
    → ((c : Commodity) → (f c).name ≡ c.name)
    → ((c : Commodity) → pos 0 ≤ℤ (f c).quantity)
    → IsStocked inv
    → IsStocked (update n f inv)
unfolding update get_commodity
update-IsStocked n f [] keeps good v = tt
update-IsStocked n f (c ∷ inv) keeps good v = ground (
  arith,
  keeps c,
  good c,
  update-IsStocked n f inv keeps good v.2,
  get-update_ne n c.name f inv keeps,
)

append-IsStocked :
    (c : Commodity) (inv : List Commodity)
    → pos 0 ≤ℤ c.quantity
    → get_commodity c.name inv ≡ none
    → IsStocked inv
    → IsStocked (inv ++ (c ∷ []))
unfolding get_commodity
append-IsStocked c [] h e v = (h, refl, tt)
append-IsStocked c (x ∷ inv) h e v =
    ground (arith, append-IsStocked c inv h, get-append_ne x.name inv c)

set_clamped-IsStocked :
    (n : ℕ) (a : ℤ) (inv : List Commodity)
    → pos 0 ≤ℤ a
    → IsStocked inv
    → IsStocked (set_clamped n a inv)
set_clamped-IsStocked n a inv h v = elim (Option-cases (get_commodity n inv)) [
  | inl e ↦
      rw (set_clamped_missing n a inv e)
        (ground (arith, new_commodity_fields n a, append-IsStocked (new_commodity n a) inv))
  | inr (cm, e) ↦
      rw (set_clamped_found n a inv cm e) (update-IsStocked n _ inv (λ c. refl) (λ c. h) v)
]

-- `SetQuantity` keeps every quantity at zero or more and every name to one entry.
pub set_quantity-IsStocked :
    (n : ℕ) (a : ℤ) (inv : List Commodity) → IsStocked inv → IsStocked (set_quantity n a inv)
unfolding set_quantity
set_quantity-IsStocked n a inv v = set_clamped-IsStocked n (at_least_zero a) inv (ground arith) v

-- So does `AdjustQuantity`, whatever the delta.
pub adjust_quantity-IsStocked :
    (n : ℕ) (a : ℤ) (inv : List Commodity) → IsStocked inv → IsStocked (adjust_quantity n a inv)
unfolding adjust_quantity
adjust_quantity-IsStocked n a inv v = elim (Option-cases (get_commodity n inv)) [
  | inl e ↦ rw (e, adjust_quantity) (ground (arith, set_quantity-IsStocked n a inv v))
  | inr (cm, e) ↦
      rw (e, adjust_quantity) (update-IsStocked n _ inv (λ c. refl) (λ c. ground arith) v)
]

-- An update that keeps names and makes no quantity negative that was not.
pub update_kept-IsStocked :
    (n : ℕ) (f : Commodity → Commodity) (inv : List Commodity)
    → ((c : Commodity) → (f c).name ≡ c.name)
    → ((c : Commodity) → pos 0 ≤ℤ c.quantity → pos 0 ≤ℤ (f c).quantity)
    → IsStocked inv
    → IsStocked (update n f inv)
unfolding update get_commodity
update_kept-IsStocked n f [] keeps good v = tt
update_kept-IsStocked n f (c ∷ inv) keeps good v = ground (
  arith,
  keeps c,
  good c v.0,
  update_kept-IsStocked n f inv keeps good v.2,
  get-update_ne n c.name f inv keeps,
)

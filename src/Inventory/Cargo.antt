-- ===== src/Inventory/Cargo.antt =====
-- The holds that cargo takes, under the writes of pkg/galwar/base.go.
use galwar.Base.{
  ℕ, ◌≡◌, refl, sym, ◌∙◌, ◌≢◌, ◌∙◌, ◌⊎◌, inl, inr, some, List, [], ◌∷◌, ◌++◌, Option-cases,
  Bool-cases, true, false, arith,
}
use galwar.Base.Int.{ℤ, pos, ◌+ℤ◌, ◌-ℤ◌, ◌*ℤ◌, ◌≤ℤ◌, ltb_ℤ, ltb_ℤ→le, int_laws}
use galwar.Inventory.{
  at_least_zero, get_commodity, update, get_quantity, adjust_quantity, new_commodity,
  get_free_holds, holds_used_from,
}
use galwar.Inventory.Goods.{Commodity, holds, get_holds_used, def_holds, is_cargo}
use galwar.Inventory.Laws.{
  new_commodity_fields, get_quantity_of, get_quantity-none, adjust_quantity_found,
  adjust_quantity_new, adjust_quantity_missing, get_quantity-adjust_quantity_ne,
}

-- A name takes one hold a unit, or none; the Cargo Holds themselves take none.
pub def_holds_cases :
    (n : ℕ)
    → ((def_holds n ≡ pos 1) × (is_cargo n ≡ true)) ⊎ ((def_holds n ≡ pos 0) × (is_cargo n ≡ false))
unfolding def_holds is_cargo
def_holds_cases n = ground arith

-- The holds in use, as a plain sum.
used : List Commodity → ℤ
used [] = pos 0
used (c ∷ inv) = get_holds_used c +ℤ used inv

holds_used_from-used :
    (free : ℤ) (inv : List Commodity) → holds_used_from free inv ≡ free -ℤ used inv
unfolding holds_used_from used
holds_used_from-used free [] = omega int_laws
holds_used_from-used free (c ∷ inv) =
    rw (holds_used_from-used (free -ℤ get_holds_used c) inv) (omega int_laws)

-- A unit of the name takes `def_holds n` holds, so a change of `a` units changes the sum by that.
pos_one-*ℤ : (a : ℤ) → pos 1 *ℤ a ≡ a
unfolding ◌*ℤ◌
pos_one-*ℤ a = ground arith

pos_zero-*ℤ : (a : ℤ) → pos 0 *ℤ a ≡ pos 0
unfolding ◌*ℤ◌
pos_zero-*ℤ a = ground arith

-- `h` is 0 or 1, so multiplication by it is linear.
held-add : (n : ℕ) (a b : ℤ) → def_holds n *ℤ (a +ℤ b) ≡ def_holds n *ℤ a +ℤ def_holds n *ℤ b
held-add n a b = elim (def_holds_cases n) [
  | inl (one, _) ↦ rw one (simp pos_one-*ℤ)
  | inr (none_held, _) ↦ rw none_held (simp pos_zero-*ℤ (omega int_laws))
]

used-update :
    (n : ℕ) (f : Commodity → Commodity) (inv : List Commodity) (cm : Commodity)
    → ((c : Commodity) → (f c).name ≡ c.name)
    → get_commodity n inv ≡ some cm
    → used (update n f inv) +ℤ def_holds n *ℤ cm.quantity
      ≡ used inv +ℤ def_holds n *ℤ (f cm).quantity
unfolding used update get_commodity get_holds_used
used-update n f [] cm keeps e = cc
used-update n f (c ∷ inv) cm keeps e = grind (int_laws, keeps c, used-update n f inv cm keeps)

used-append :
    (c : Commodity) (inv : List Commodity) → used (inv ++ (c ∷ [])) ≡ used inv +ℤ get_holds_used c
unfolding used
used-append c [] = omega int_laws
used-append c (x ∷ inv) = rw (used-append c inv) (omega int_laws)

held-zero : (n : ℕ) → def_holds n *ℤ pos 0 ≡ pos 0
held-zero n = elim (def_holds_cases n) [
  | inl (one, _) ↦ rw one (simp pos_one-*ℤ)
  | inr (none_held, _) ↦ rw none_held (simp pos_zero-*ℤ)
]

used-new :
    (n : ℕ) (a : ℤ) (inv : List Commodity)
    → used (inv ++ (new_commodity n a ∷ [])) ≡ used inv +ℤ def_holds n *ℤ a
unfolding get_holds_used
used-new n a inv =
    let (name, quantity) = new_commodity_fields n a in
    rw (used-append (new_commodity n a) inv, name, quantity) refl

clamp_idle : (a : ℤ) → pos 0 ≤ℤ a → at_least_zero a ≡ a
clamp_idle a h = ground arith

add_cancel : (x k y m : ℤ) → x +ℤ k ≡ y +ℤ (k +ℤ m) → x ≡ y +ℤ m
add_cancel x k y m e = grind int_laws

used-adjust_found :
    (n : ℕ) (a : ℤ) (inv : List Commodity) (cm : Commodity)
    → get_commodity n inv ≡ some cm
    → pos 0 ≤ℤ cm.quantity +ℤ a
    → used (adjust_quantity n a inv) ≡ used inv +ℤ def_holds n *ℤ a
used-adjust_found n a inv cm e h =
    let moved =
      used-update n (λ c. record c { quantity = at_least_zero (c.quantity +ℤ a) }) inv cm
        (λ c. refl) e in
    rw (adjust_quantity_found n a inv cm e)
      (add_cancel _ _ _ _ (rw (clamp_idle (cm.quantity +ℤ a) h, held-add n cm.quantity a) at moved))

unchanged : (a : ℤ) {q : ℤ} → q ≡ pos 0 → pos 0 ≤ℤ q +ℤ a → ltb_ℤ (pos 0) a ≡ false → a ≡ pos 0
unchanged a e h no_more = grind (int_laws, ltb_ℤ→le)

-- Where the result is not clamped, a change of `a` units changes the holds in use by `a` units' worth.
used-adjust :
    (n : ℕ) (a : ℤ) (inv : List Commodity)
    → pos 0 ≤ℤ get_quantity n inv +ℤ a
    → used (adjust_quantity n a inv) ≡ used inv +ℤ def_holds n *ℤ a
used-adjust n a inv h = elim (Option-cases (get_commodity n inv)) [
  | inl e ↦ elim (Bool-cases (ltb_ℤ (pos 0) a)) [
    | inl more ↦ rw (adjust_quantity_new n a inv e (ground arith)) (used-new n a inv)
    | inr no_more ↦
        let same : a ≡ pos 0 = unchanged a (get_quantity-none n inv e) h no_more in
        rw (adjust_quantity_missing n a inv e (omega (int_laws, ltb_ℤ→le)), same, held-zero n)
          (omega int_laws)
  ]
  | inr (cm, e) ↦ used-adjust_found n a inv cm e (rw (get_quantity_of n inv cm e) at h)
]

-- Goods other than the holds themselves: `a` units more leave `a` units' worth of holds less free.
pub get_free_holds-adjust :
    (n : ℕ) (a : ℤ) (inv : List Commodity)
    → n ≢ holds
    → pos 0 ≤ℤ get_quantity n inv +ℤ a
    → get_free_holds (adjust_quantity n a inv) ≡ get_free_holds inv -ℤ def_holds n *ℤ a
unfolding get_free_holds
get_free_holds-adjust n a inv other h =
    rw
      (
        holds_used_from-used (get_quantity holds (adjust_quantity n a inv))
            (adjust_quantity n a inv),
        holds_used_from-used (get_quantity holds inv) inv,
        used-adjust n a inv h,
        get_quantity-adjust_quantity_ne n holds a inv (λ e. other (sym e)),
      )
      (omega int_laws)

-- Cargo is no hold.
pub cargo-ne-holds : (n : ℕ) → is_cargo n ≡ true → n ≢ holds
unfolding is_cargo def_holds
cargo-ne-holds n h e = let h' : is_cargo holds ≡ true = rw e at h in cc h'

-- A unit of cargo takes one hold.
pub get_free_holds-adjust_cargo :
    (n : ℕ) (a : ℤ) (inv : List Commodity)
    → is_cargo n ≡ true
    → pos 0 ≤ℤ get_quantity n inv +ℤ a
    → get_free_holds (adjust_quantity n a inv) ≡ get_free_holds inv -ℤ a
get_free_holds-adjust_cargo n a inv cargo h = elim (def_holds_cases n) [
  | inl (one, _) ↦
      get_free_holds-adjust n a inv (cargo-ne-holds n cargo) h ∙ rw (one, pos_one-*ℤ a) refl
  | inr (_, none_held) ↦ cc
]

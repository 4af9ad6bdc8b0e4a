-- ===== src/Pulsar/Bombing.antt =====
-- What a bombardment leaves of a planet: pkg/galwar/specials.go, `bombPlanet`.
use galwar.Base.{
  ℕ, ◌≡◌, refl, ◌∙◌, inl, inr, ◌⊎◌, Bool-cases, some, List, [], ◌∷◌, if◌then◌else◌, arith,
}
use galwar.Base.Int.{ℤ, pos, ◌-ℤ◌, ◌*ℤ◌, ◌≤ℤ◌, ltb_ℤ, ltb_ℤ→lt, ltb_ℤ→le, int_laws}
use galwar.Inventory.{get_commodity, update}
use galwar.Inventory.Goods.{Commodity, ore, organics, equipment}
use galwar.Inventory.Laws.{get-update_self, get-update_ne}
use galwar.Pulsar.{bomb_one, bomb_each}

-- A commodity before and after a bombardment of `per_bomb`.
pub record IsBombed (per_bomb : ℤ) (c c' : Commodity) : Type 0 where
  pub exactly : c'.prod ≡ (if ltb_ℤ per_bomb c.prod then c.prod -ℤ per_bomb else pos 0)
  pub nonneg : pos 0 ≤ℤ c'.prod
  pub no_gain : c'.prod ≤ℤ c.prod
  pub stock_le : c'.quantity ≤ℤ c.quantity
  pub stock_capped : c'.quantity ≤ℤ c'.prod *ℤ pos 10

none_left : (a : ℤ) → a -ℤ a ≡ pos 0
none_left a = omega int_laws

stock_bounds : (l q : ℤ) → ((if ltb_ℤ l q then l else q) ≤ℤ q) × ((if ltb_ℤ l q then l else q) ≤ℤ l)
stock_bounds l q = elim (Bool-cases (ltb_ℤ l q)) [
  | inl above ↦ let lt = ltb_ℤ→lt l q above in rw (above) (omega int_laws, omega int_laws)
  | inr within ↦ let le = ltb_ℤ→le l q within in rw (within) (omega int_laws, omega int_laws)
]

bomb_one-IsBombed :
    (b : ℤ) (c : Commodity) → pos 0 ≤ℤ b → pos 0 ≤ℤ c.prod → IsBombed b c (bomb_one b c)
unfolding bomb_one
bomb_one-IsBombed b c hb hc = elim (Bool-cases (ltb_ℤ b c.prod)) [
  | inl part ↦
      let lt = ltb_ℤ→lt b c.prod part in
      let (le, cap) = stock_bounds ((c.prod -ℤ b) *ℤ pos 10) c.quantity in
      rw (part) (record {
        exactly = rw (part) refl;
        nonneg = omega int_laws;
        no_gain = omega int_laws;
        stock_le = le;
        stock_capped = cap;
      })
  | inr whole ↦
      let (le, cap) = stock_bounds ((c.prod -ℤ c.prod) *ℤ pos 10) c.quantity in
      rw (whole) (record {
        exactly = rw (whole) (none_left c.prod);
        nonneg = omega int_laws;
        no_gain = omega int_laws;
        stock_le = le;
        stock_capped = cap;
      })
]

keeps_name : (b : ℤ) (c : Commodity) → (bomb_one b c).name ≡ c.name
unfolding bomb_one
keeps_name b c = refl

-- The three updates of one inventory
bomb_three :
    (b : ℤ) (inv : List Commodity) (name : ℕ) (c : Commodity)
    → (name ≡ ore) ⊎ (name ≡ organics) ⊎ (name ≡ equipment)
    → get_commodity name inv ≡ some c
    → get_commodity name (bomb_each b (ore ∷ organics ∷ equipment ∷ []) inv) ≡ some (bomb_one b c)
unfolding bomb_each
bomb_three b inv name c which e =
    let f : Commodity → Commodity = bomb_one b in
    elim which [
      | inl is_ore ↦
          get-update_ne equipment name f (update organics f (update ore f inv)) (keeps_name b)
            (omega (arith, is_ore))
          ∙ get-update_ne organics name f (update ore f inv) (keeps_name b) (omega (arith, is_ore))
          ∙ rw (is_ore) (get-update_self ore f inv c (keeps_name b) (rw (is_ore) at e))
      | inr (inl is_org) ↦
          get-update_ne equipment name f (update organics f (update ore f inv)) (keeps_name b)
            (omega (arith, is_org))
          ∙ rw (is_org) (
              get-update_self organics f (update ore f inv) c (keeps_name b) (
                get-update_ne ore organics f inv (keeps_name b) (omega arith) ∙ (rw (is_org) at e)))
      | inr (inr is_equ) ↦ rw (is_equ) (
          get-update_self equipment f (update organics f (update ore f inv)) c (keeps_name b) (
            get-update_ne organics equipment f (update ore f inv) (keeps_name b) (omega arith)
            ∙ get-update_ne ore equipment f inv (keeps_name b) (omega arith)
            ∙ (rw (is_equ) at e)))
    ]

-- A bombardment with a power that is not negative takes exactly that much from the production of ore,
-- organics and equipment, or all of it where there is less, adds to no stock, and caps each stock at
-- ten times the production that is left. The production was not negative.
pub bomb_each-IsBombed :
    (b : ℤ) (inv : List Commodity) (name : ℕ) (c : Commodity)
    → (name ≡ ore) ⊎ (name ≡ organics) ⊎ (name ≡ equipment)
    → get_commodity name inv ≡ some c
    → pos 0 ≤ℤ b
    → pos 0 ≤ℤ c.prod
    → (c' : Commodity) × (get_commodity name (bomb_each b (ore ∷ organics ∷ equipment ∷ []) inv)
        ≡ some c')
      × IsBombed b c c'
bomb_each-IsBombed b inv name c which e hb hc =
    (bomb_one b c, bomb_three b inv name c which e, bomb_one-IsBombed b c hb hc)

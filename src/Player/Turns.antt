-- ===== src/Player/Turns.antt =====
-- The turn economy: pkg/galwar/commands.go, `spendTurn`.
use galwar.Base.{◌≡◌, ◌⊎◌, ◌∙◌, refl, inl, inr, Bool-cases}
use galwar.Base.Int.{ℤ, pos, negsuc, ◌+ℤ◌, ◌-ℤ◌, ◌≤ℤ◌, ltb_ℤ, int_laws, ltb_ℤ→lt, ltb_ℤ→le}
use galwar.GameError.{Result, ok, err, Done, err_no_turns, IsAtomic}
use galwar.Inventory.Goods.{turns}
use galwar.Inventory.Laws.{adjusted_sum}
use galwar.Inventory.Invariant.{IsStocked, get_quantity_nonneg}
use galwar.Player.{Player, has, adjust, spend_turn, heal_systems}

-- The day's allowance and the Fusion Cell reserve.
abbrev pub turns_left : Player → ℤ
turns_left p = has turns p +ℤ p.banked_turns

-- Where the turn came from: the allowance where that has one, and the reserve only where it has none
abbrev pub DrawnFrom : Player → Player → Type 0
DrawnFrom p p' =
    ((pos 1 ≤ℤ has turns p)
      × (has turns p' ≡ has turns p -ℤ pos 1)
      × (p'.banked_turns ≡ p.banked_turns))
    ⊎ ((has turns p ≡ pos 0)
        × (pos 1 ≤ℤ p.banked_turns)
        × (has turns p' ≡ pos 0)
        × (p'.banked_turns ≡ p.banked_turns -ℤ pos 1))

-- What a call of `spendTurn` has done, by how it ended.
abbrev pub Spends : Player → Result Done × Player → Type 0
Spends p (ok _, p') =
    DrawnFrom p p'
    × (turns_left p' ≡ turns_left p -ℤ pos 1)
    × (p'.systems ≡ (heal_systems p).systems)
    × (p'.money ≡ p.money)
    × (p'.sector ≡ p.sector)
Spends p (err e, p') =
    (p' ≡ p) × (e ≡ err_no_turns) × (has turns p ≡ pos 0) × (p.banked_turns ≤ℤ pos 0)

minus_one : (a : ℤ) → a +ℤ negsuc 0 ≡ a -ℤ pos 1
minus_one a = omega int_laws

less_one : (a b : ℤ) → a +ℤ negsuc 0 +ℤ b ≡ a +ℤ b -ℤ pos 1
less_one a b = omega int_laws

drawn :
    (p : Player)
    → pos 1 ≤ℤ has turns p
    → has turns (adjust turns (negsuc 0) p) ≡ has turns p -ℤ pos 1
drawn p h = adjusted_sum turns (negsuc 0) p.inventory (omega int_laws) ∙ minus_one (has turns p)

spent :
    (p : Player)
    → pos 1 ≤ℤ has turns p
    → turns_left (adjust turns (negsuc 0) p) ≡ turns_left p -ℤ pos 1
spent p h =
    rw (adjusted_sum turns (negsuc 0) p.inventory (omega int_laws))
      (less_one (has turns p) p.banked_turns)

-- For a ship with no negative quantity, `spendTurn` takes exactly one turn, from the allowance
-- where that has one and from the reserve only where the allowance is used up, heals every system,
-- and leaves credits and place; or, where neither has a turn, refuses and changes nothing.
pub spend_turn-Spends : (p : Player) → IsStocked p.inventory → Spends p (spend_turn p)
unfolding spend_turn heal_systems
spend_turn-Spends p stocked =
    let nonneg = get_quantity_nonneg turns p.inventory stocked in
    elim (Bool-cases (ltb_ℤ (has turns p) (pos 1))) [
      | inl none_left ↦ elim (Bool-cases (ltb_ℤ (pos 0) p.banked_turns)) [
        | inl reserve ↦
            let used : has turns p ≡ pos 0 =
              omega (int_laws, nonneg, ltb_ℤ→lt (has turns p) (pos 1) none_left) in
            rw (none_left, reserve)
              (
                inr (used, omega (int_laws, ltb_ℤ→lt (pos 0) p.banked_turns reserve), used, refl),
                omega int_laws,
                refl,
                refl,
                refl,
              )
        | inr empty ↦
            rw (none_left, empty)
              (
                refl,
                refl,
                omega (int_laws, ltb_ℤ→lt (has turns p) (pos 1) none_left),
                ltb_ℤ→le (pos 0) p.banked_turns empty,
              )
      ]
      | inr allowance ↦
          let some = ltb_ℤ→le (has turns p) (pos 1) allowance in
          rw allowance (inl (some, drawn p some, refl), spent p some, refl, refl, refl)
    ]

-- A turn that is refused has written nothing.
pub spend_turn-IsAtomic : (p : Player) → IsAtomic p (spend_turn p)
unfolding spend_turn
spend_turn-IsAtomic p = elim (Bool-cases (ltb_ℤ (has turns p) (pos 1))) [
  | inl none_left ↦ elim (Bool-cases (ltb_ℤ (pos 0) p.banked_turns)) [
    | inl reserve ↦ rw (none_left, reserve) tt
    | inr empty ↦ rw (none_left, empty) refl
  ]
  | inr allowance ↦ rw (allowance) tt
]

-- ===== src/Movement/Field.antt =====
-- A minefield is swept to its last mine: pkg/galwar/commands.go, `MovePlayer`.
use galwar.Base.{
  ℕ, zero, suc, ◌<◌, ◌≡◌, ap, ◌∙◌, ◌⊎◌, inl, inr, false, List, length, length-set, get_or,
  Bool-cases, arith,
}
use galwar.Base.Int.{ℤ, pos, negsuc, ltb_ℤ}
use galwar.Inventory.{get_quantity}
use galwar.Inventory.Goods.{mines}
use galwar.Universe.{Battlegroup, mines_destroyed}
use galwar.Universe.Pointers.{get_or-set_self}
use galwar.Battlegroup.{no_group, force}
use galwar.World.{World, goes_on, report_to, adjust_force, force_of, owner_of, mine_hits}
use galwar.World.Field.{get_quantity-adjust_one, mine_hits-Apart}
use galwar.Movement.{sweep}

one_less :
    (k n : ℕ) (w : World)
    → k < length (w.0).battlegroups
    → force_of w mines k ≡ pos (suc n)
    → force_of (adjust_force k mines (negsuc 0) w) mines k ≡ pos n
one_less k n (u, c) inside e =
    ap (λ (b : Battlegroup). get_quantity mines b.inv.inventory)
      (get_or-set_self u.battlegroups k _ no_group inside)
    ∙ get_quantity-adjust_one mines n (force u k) e

module _ (tries : ℕ) where
  -- The loop over the mines of a hostile force ends, a round for each mine being enough: no mine is
  -- left, or the ship was flung away or destroyed by one.
  pub sweep-clears :
      (n i k : ℕ) (now : ℤ) (w : World)
      → k < length (w.0).battlegroups
      → force_of w mines k ≡ pos n
      → (goes_on (sweep tries n i k now w).0 ≡ false)
        ⊎ (force_of (sweep tries n i k now w).1 mines k ≡ pos 0)
  unfolding sweep
  sweep-clears zero i k now w inside e = inr e
  sweep-clears (suc n) i k now w inside e =
      let laid = adjust_force k mines (negsuc 0) w in
      let told = report_to (owner_of w k) now mines_destroyed in
      let hit = mine_hits tries i now told laid in
      elim (Bool-cases (ltb_ℤ (pos 0) (force_of w mines k))) [
        | inr none_left ↦ absurd (ground (arith, e, none_left))
        | inl some_left ↦ elim (Bool-cases (goes_on hit.0)) [
          | inr over ↦ rw (some_left, over, sweep) (inl over)
          | inl more ↦
              let apart = mine_hits-Apart tries i now told laid more in
              let groups : length (hit.1.0).battlegroups ≡ length (w.0).battlegroups =
                ap (λ (bs : List Battlegroup). length bs) apart.same_groups
                ∙ length-set (w.0).battlegroups k _ in
              let left : force_of hit.1 mines k ≡ pos n =
                ap
                  (λ (bs : List Battlegroup).
                    get_quantity mines (get_or bs k no_group).inv.inventory)
                  apart.same_groups
                ∙ one_less k n w inside e in
              rw (some_left, more, sweep)
                (sweep-clears n i k now hit.1 (omega (arith, groups)) left)
        ]
      ]

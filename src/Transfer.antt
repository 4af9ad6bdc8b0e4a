-- ===== src/Transfer.antt =====
-- The lines that pkg/galwar/planet.go (`TransferSet`) and pkg/galwar/battlegroup.go
-- (`AdjustBattlegroup`) share: one side of a pair of inventories is set, and the other side gets the
-- rest of the total.
use galwar.Base.{ℕ, ◌≡◌, ◌∙◌, List, arith}
use galwar.Base.Int.{ℤ, pos, ◌+ℤ◌, ◌-ℤ◌, ◌≤ℤ◌, int_laws}
use galwar.Inventory.{at_least_zero, get_quantity, set_quantity}
use galwar.Inventory.Goods.{Commodity}
use galwar.Inventory.Laws.{get_quantity-set_quantity}

abbrev pub total : ℕ → List Commodity → List Commodity → ℤ
total good theirs mine = get_quantity good theirs +ℤ get_quantity good mine

-- Two inventories after a transfer of one good, against what they were.
pub record Transferred (good : ℕ) (kept : ℤ) (theirs mine theirs' mine' : List Commodity)
    : Type 0 where
  pub set_side : get_quantity good theirs' ≡ kept
  pub sum : total good theirs' mine' ≡ total good theirs mine

clamp_idle : (a : ℤ) → pos 0 ≤ℤ a → at_least_zero a ≡ a
clamp_idle a h = ground arith

rest_sum : (a t : ℤ) → a +ℤ (t -ℤ a) ≡ t
rest_sum a t = omega int_laws

pub set_sides :
    (good : ℕ) (amount t : ℤ) (theirs mine : List Commodity)
    → pos 0 ≤ℤ amount
    → amount ≤ℤ total good theirs mine
    → t ≡ total good theirs mine
    → Transferred good amount theirs mine
        (set_quantity good amount theirs)
        (set_quantity good (t -ℤ amount) mine)
set_sides good amount t theirs mine low high e =
    let mine_side : get_quantity good (set_quantity good amount theirs) ≡ amount =
      get_quantity-set_quantity good amount theirs ∙ clamp_idle amount low in
    let rest : pos 0 ≤ℤ t -ℤ amount = rw (e) (omega int_laws) in
    record {
      set_side = mine_side;
      sum =
          rw
            (
              mine_side,
              get_quantity-set_quantity good (t -ℤ amount) mine,
              clamp_idle (t -ℤ amount) rest,
            )
            (rest_sum amount t ∙ e);
    }

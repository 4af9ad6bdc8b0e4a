-- ===== src/Maintenance.antt =====
-- pkg/galwar/maintenance.go: the nightly reset of turns and the growth of planets. The rounding of the
-- production index is on floats.
pub mod Night
mod Tests
use galwar.Base.{ℕ, Bool, true, false, Option, none, some, List, [], ◌∷◌, if◌then◌else◌}
use galwar.Base.Int.{ℤ, pos, ◌+ℤ◌, ◌-ℤ◌, ◌*ℤ◌, ◌/ℤ◌, ltb_ℤ, min_ℤ}
use galwar.Float64.{Float64}
use galwar.Inventory.{get_commodity, update, set_quantity}
use galwar.Inventory.Goods.{Commodity, ore, organics, equipment, fighters, mines, turns}
use galwar.Player.{Player, has, has_fusion_cell}

-- `const bil`
abbrev pub bil : ℤ
bil = pos 1_500_000_000

-- A Fusion Cell banks the day's unused turns, up to a day's allowance.
pub bank_turns : ℤ → Player → Player
bank_turns turns_per_day p =
    let banked = p.banked_turns +ℤ has turns p in
    if has_fusion_cell p
    then record p { banked_turns = if ltb_ℤ turns_per_day banked then turns_per_day else banked }
    else record p { banked_turns = pos 0 }

pub reset_turns : ℤ → List Player → List Player
unfolding bank_turns
reset_turns turns_per_day [] = []
reset_turns turns_per_day (p ∷ ps) =
    let q = bank_turns turns_per_day p in
    record q {
      inv = record (q.inv) { inventory = set_quantity turns turns_per_day q.inv.inventory };
    }
    ∷ reset_turns turns_per_day ps

-- The stock of a good grows by its production, up to a limit.
abbrev grow_stock : ℤ → Commodity → Commodity
grow_stock limit c = record c { quantity = min_ℤ (c.quantity +ℤ c.prod) limit }

-- The production compounds where the stock exceeds ten times the rate.
pub compound : Commodity → Commodity
compound c =
    if ltb_ℤ (c.prod *ℤ pos 10) c.quantity
    then record c { prod = c.prod +ℤ (c.quantity -ℤ c.prod *ℤ pos 10) /ℤ pos 10 }
    else c

abbrev on_produce : (Commodity → Commodity) → List Commodity → List Commodity
on_produce f inv = update equipment f (update organics f (update ore f inv))

pub accrue_day : ℤ → List Commodity → List Commodity
accrue_day max_mines inv =
    update mines (grow_stock max_mines)
      (update fighters (grow_stock bil) (on_produce (grow_stock bil) inv))

pub production_of : ℕ → List Commodity → ℤ
production_of name inv = elim (get_commodity name inv) [ some c ↦ c.prod | none ↦ pos 0 ]

-- `ore == nil || org == nil || eqp == nil`
pub lacks : List ℕ → List Commodity → Bool
lacks [] inv = false
lacks (name ∷ names) inv =
    let rest = lacks names inv in elim (get_commodity name inv) [ some _ ↦ rest | none ↦ true ]

module _ (fl : Float64) where
  open fl use {of_int, to_int, round, add, div}

  -- int(math.Round(ore/4 + org/2 + eqp))
  pub index : List Commodity → ℤ
  unfolding production_of
  index inv = to_int (
      round (
        add
          (add (div (of_int (production_of ore inv)) (of_int (pos 4)))
            (div (of_int (production_of organics inv)) (of_int (pos 2))))
          (of_int (production_of equipment inv))))

  pub grow_planet : ℤ → Bool → List Commodity → List Commodity
  unfolding lacks accrue_day compound index
  grow_planet max_mines frozen inv =
      let grown = accrue_day max_mines inv in
      let compounded = on_produce compound grown in
      let t = index compounded in
      if lacks (ore ∷ organics ∷ equipment ∷ []) inv
      then inv
      else if frozen
      then grown
      else update mines (λ c. record c { prod = t /ℤ pos 1000 })
          (update fighters (λ c. record c { prod = t /ℤ pos 5 }) compounded)

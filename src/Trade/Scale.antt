-- ===== src/Trade/Scale.antt =====
-- Volume scaling of pkg/galwar/ops.go: what `scaleDown` returns.
use galwar.Base.{ℕ, zero, suc, ◌≡◌, inl, inr, true, List, if◌then◌else◌, Bool-cases, arith}
use galwar.Base.Int.{
  ℤ, pos, negsuc, ◌+ℤ◌, ◌≤ℤ◌, ltb_ℤ, leb_ℤ, pos_part, int_laws, ltb_ℤ→lt, ltb_ℤ→le,
}
use galwar.Float64.{Float64, ScaleLaws, exact_limit}
use galwar.Inventory.{get_quantity}
use galwar.Inventory.Goods.{Commodity, holds}
use galwar.Trade.{scale_factor, scale_up, raise, scale_down, top_275}

module _ (fl : Float64) (laws : ScaleLaws fl) (inv : List Commodity)
    (few : get_quantity holds inv ≤ℤ exact_limit) where
  open fl use {of_int, to_int, mul, div, lt, le}

  ratio : ℕ
  ratio = div (of_int (get_quantity holds inv)) (of_int (pos 50))

  top_275_range :
      pos 50 ≤ℤ get_quantity holds inv
      → (le (of_int (pos 1)) (top_275 fl ratio) ≡ true)
        × (le (top_275 fl ratio) (of_int (pos 275)) ≡ true)
  unfolding ratio
  top_275_range h = elim (Bool-cases (lt (of_int (pos 275)) ratio)) [
    | inl over ↦ rw over (laws.one_le_top, laws.top_le_top)
    | inr under ↦ rw under (laws.one_le_ratio _ h few, laws.ratio_le_top _ h few under)
  ]

  scale_factor_range :
      (le (of_int (pos 1)) (scale_factor fl inv) ≡ true)
      × (le (scale_factor fl inv) (of_int (pos 275)) ≡ true)
  unfolding scale_factor ratio
  scale_factor_range = elim (Bool-cases (ltb_ℤ (get_quantity holds inv) (pos 50))) [
    | inl small ↦ rw small (laws.one_le_one, laws.one_le_top)
    | inr big ↦ rw big (top_275_range (ltb_ℤ→le (get_quantity holds inv) (pos 50) big))
  ]

  le-scale_up : (w : ℤ) → pos 0 ≤ℤ w → w ≤ℤ exact_limit → w ≤ℤ scale_up fl inv w
  unfolding scale_up
  le-scale_up w h k = laws.le-product w _ h k scale_factor_range.0 scale_factor_range.1

  -- The loop ends by its test: at `d` = `w` at the latest.
  raise_covers :
      (fuel : ℕ) (w d : ℤ)
      → pos 0 ≤ℤ d
      → d ≤ℤ w
      → w ≤ℤ exact_limit
      → w ≤ℤ d +ℤ pos fuel
      → (w ≤ℤ scale_up fl inv (raise fl fuel inv w d)) × (d ≤ℤ raise fl fuel inv w d)
  unfolding raise
  raise_covers zero w d hd hw limit m =
      let same : d ≡ w = omega int_laws in rw same (le-scale_up w (omega arith) limit, omega arith)
  raise_covers (suc fuel) w d hd hw limit m = elim (Bool-cases (ltb_ℤ (scale_up fl inv d) w)) [
    | inl short ↦
        let more : scale_up fl inv d +ℤ pos 1 ≤ℤ w = ltb_ℤ→lt (scale_up fl inv d) w short in
        let (covers, grows) =
          raise_covers fuel w (d +ℤ pos 1) (omega int_laws)
            (omega (int_laws, le-scale_up d hd (omega arith))) limit (omega int_laws) in
        rw (short, raise) (covers, omega int_laws)
    | inr enough ↦ rw (enough, raise) (ltb_ℤ→le (scale_up fl inv d) w enough, omega arith)
  ]

  next-le :
      (w d q : ℤ)
      → d ≤ℤ q
      → ltb_ℤ (scale_up fl inv d) w ≡ true
      → w ≤ℤ scale_up fl inv q
      → d +ℤ pos 1 ≤ℤ q
  next-le w d q h short cover = elim (Bool-cases (ltb_ℤ d q)) [
    | inl below ↦ ltb_ℤ→lt d q below
    | inr above ↦
        let same : d ≡ q = omega (int_laws, ltb_ℤ→le d q above) in
        absurd (omega (int_laws, ltb_ℤ→lt (scale_up fl inv q) w (rw same at short)))
  ]

  -- It passes no value that covers `w`.
  raise-le : (fuel : ℕ) (w d q : ℤ) → d ≤ℤ q → w ≤ℤ scale_up fl inv q → raise fl fuel inv w d ≤ℤ q
  unfolding raise
  raise-le zero w d q h cover = h
  raise-le (suc fuel) w d q h cover = elim (Bool-cases (ltb_ℤ (scale_up fl inv d) w)) [
    | inl short ↦
        rw (short, raise) (raise-le fuel w (d +ℤ pos 1) q (next-le w d q h short cover) cover)
    | inr enough ↦ rw (enough, raise) h
  ]

  start : ℤ → ℤ
  start w =
      let d = to_int (div (of_int w) (scale_factor fl inv)) in if ltb_ℤ d (pos 1) then pos 1 else d

  start-le :
      (w q : ℤ)
      → pos 1 ≤ℤ w
      → w ≤ℤ exact_limit
      → pos 1 ≤ℤ q
      → q ≤ℤ exact_limit
      → w ≤ℤ scale_up fl inv q
      → (pos 1 ≤ℤ start w) × (start w ≤ℤ q)
  unfolding start scale_up
  start-le w q hw limit hq qlimit cover =
      let (least, top) = scale_factor_range in
      let d-le =
        laws.quotient-le w q (scale_factor fl inv) (omega arith) limit (omega arith) qlimit least
          top cover in
      ground arith

  positive_of_cover : (w q : ℤ) → pos 1 ≤ℤ w → pos 0 ≤ℤ q → w ≤ℤ scale_up fl inv q → pos 1 ≤ℤ q
  unfolding scale_up
  positive_of_cover w (pos zero) hw hq cover =
      absurd (omega (arith, laws.product_zero (scale_factor fl inv) scale_factor_range.1))
  positive_of_cover w (pos (suc n)) hw hq cover = omega arith
  positive_of_cover w (negsuc n) hw hq cover = absurd (omega arith)

  scale_down-start :
      (w : ℤ) → pos 1 ≤ℤ w → scale_down fl inv w ≡ raise fl (pos_part w) inv w (start w)
  unfolding scale_down start
  scale_down-start w h = ground arith

  -- For 1 to 2^50 units and a ship of at most 2^50 holds, on floats with the rounding laws of IEEE 754,
  -- `scaleDown` ends with a number of port units whose `ScaleUp` covers the units traded, and which
  -- lies between 1 and the units traded.
  pub scale_down_covers :
      (w : ℤ)
      → pos 1 ≤ℤ w
      → w ≤ℤ exact_limit
      → (w ≤ℤ scale_up fl inv (scale_down fl inv w))
        × (pos 1 ≤ℤ scale_down fl inv w)
        × (scale_down fl inv w ≤ℤ w)
  scale_down_covers w hw limit =
      let self = le-scale_up w (omega arith) limit in
      let (start_pos, start_le_w) = start-le w w hw limit hw limit self in
      let (covers, grows) =
        raise_covers (pos_part w) w (start w) (omega arith) start_le_w limit (omega int_laws) in
      rw (scale_down-start w hw)
        (covers, omega arith, raise-le (pos_part w) w (start w) w start_le_w self)

  -- No number of port units whose `ScaleUp` covers the units traded is smaller. So a stock that
  -- passed the check of a trade is never overdrawn.
  pub scale_down-le :
      (w q : ℤ)
      → pos 0 ≤ℤ w
      → w ≤ℤ exact_limit
      → pos 0 ≤ℤ q
      → q ≤ℤ exact_limit
      → w ≤ℤ scale_up fl inv q
      → scale_down fl inv w ≤ℤ q
  scale_down-le w q hw limit hq qlimit cover = elim (Bool-cases (leb_ℤ w (pos 0))) [
    | inl none_traded ↦ unfold scale_down in rw (none_traded, scale_down) hq
    | inr traded ↦
        let some_traded : pos 1 ≤ℤ w = ground arith in
        let q_pos = positive_of_cover w q some_traded hq cover in
        rw (scale_down-start w some_traded) (
          raise-le (pos_part w) w (start w) q (start-le w q some_traded limit q_pos qlimit cover).1
            cover)
  ]

-- ===== src/Float64.antt =====
-- float64 as the source uses it. A value is its 64-bit pattern, and the operations of IEEE 754 are
-- parameters. `ScaleLaws` names what the trade code relies on.
pub mod Whole
use galwar.Base.{ℕ, ◌≡◌, Bool, true, false}
use galwar.Base.Int.{ℤ, pos, ◌≤ℤ◌}

pub record Float64 : Type 0 where
  -- float64(n), and int(x) with its truncation
  pub of_int : ℤ → ℕ
  pub to_int : ℕ → ℤ
  -- math.Round
  pub round : ℕ → ℕ
  pub add : ℕ → ℕ → ℕ
  pub sub : ℕ → ℕ → ℕ
  pub mul : ℕ → ℕ → ℕ
  pub div : ℕ → ℕ → ℕ
  pub lt : ℕ → ℕ → Bool
  pub le : ℕ → ℕ → Bool

-- The constants of the source: 0.0, 0.05 and 0.65
abbrev pub float_zero : ℕ
float_zero = 0

abbrev pub float_0_05 : ℕ
float_0_05 = 0x3fa999999999999a

abbrev pub float_0_65 : ℕ
float_0_65 = 0x3fe4cccccccccccd

-- 2^50: up to here an integer is exact, with bits to spare for a product and a quotient by a factor
-- of at most 275.
abbrev pub exact_limit : ℤ
exact_limit = pos 1_125_899_906_842_624

module _ (fl : Float64) where
  open fl use {of_int, to_int, mul, div, lt, le}

  pub record ScaleLaws : Type 0 where
    pub one_le_one : le (of_int (pos 1)) (of_int (pos 1)) ≡ true
    pub one_le_top : le (of_int (pos 1)) (of_int (pos 275)) ≡ true
    pub top_le_top : le (of_int (pos 275)) (of_int (pos 275)) ≡ true
    -- h / 50 for 50 holds or more is at least 1, and is no NaN.
    pub one_le_ratio :
        (h : ℤ)
        → pos 50 ≤ℤ h
        → h ≤ℤ exact_limit
        → le (of_int (pos 1)) (div (of_int h) (of_int (pos 50))) ≡ true
    pub ratio_le_top :
        (h : ℤ)
        → pos 50 ≤ℤ h
        → h ≤ℤ exact_limit
        → lt (of_int (pos 275)) (div (of_int h) (of_int (pos 50))) ≡ false
        → le (div (of_int h) (of_int (pos 50))) (of_int (pos 275)) ≡ true
    -- A product with a factor from 1 to 275 is no less than the integer.
    pub le-product :
        (w : ℤ) (f : ℕ)
        → pos 0 ≤ℤ w
        → w ≤ℤ exact_limit
        → le (of_int (pos 1)) f ≡ true
        → le f (of_int (pos 275)) ≡ true
        → w ≤ℤ to_int (mul (of_int w) f)
    -- A product with zero is zero.
    pub product_zero :
        (f : ℕ) → le f (of_int (pos 275)) ≡ true → to_int (mul (of_int (pos 0)) f) ≤ℤ pos 0
    -- A quotient undoes a product, rounding included.
    pub quotient-le :
        (w q : ℤ) (f : ℕ)
        → pos 0 ≤ℤ w
        → w ≤ℤ exact_limit
        → pos 0 ≤ℤ q
        → q ≤ℤ exact_limit
        → le (of_int (pos 1)) f ≡ true
        → le f (of_int (pos 275)) ≡ true
        → w ≤ℤ to_int (mul (of_int q) f)
        → to_int (div (of_int w) f) ≤ℤ q

-- ===== src/Attrition/Tests.antt =====
-- Exchanges at concrete numbers and dice.
use galwar.Base.{◌*◌, ◌≡◌, refl, inl, arith}
use galwar.Base.Int.{pos, ◌+ℤ◌, ◌-ℤ◌}
use galwar.Rng.{Rng, intn}
use galwar.Attrition.{attrition, tick, loop, roll_for}
use galwar.Attrition.Outcome.{IsDecided, attrition-IsDecided}

-- The rolls 0, 30, 60, 90, 20, ...
abbrev dice : Rng
dice i = 30 * i

small_exchange : let (a, c, _) = attrition (pos 3) (pos 3) dice in (a ≡ pos 2) × (c ≡ pos 3)
unfolding attrition loop tick roll_for intn ◌+ℤ◌ ◌-ℤ◌
small_exchange = (refl, refl)

attrition-IsDecided_example : IsDecided (pos 2500) (pos 1800) (attrition (pos 2500) (pos 1800) dice)
attrition-IsDecided_example =
    attrition-IsDecided (pos 2500) (pos 1800) (omega arith) (omega arith) (inl (omega arith)) dice

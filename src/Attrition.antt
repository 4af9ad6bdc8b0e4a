-- ===== src/Attrition.antt =====
-- pkg/galwar/combat.go, `attrition`: the coin-flip exchange of two groups of fighters.
pub mod Outcome
mod Tests
use galwar.Base.{ℕ, zero, suc, ◌+◌, Bool, true, false, ◌&&◌, ltb, if◌then◌else◌}
use galwar.Base.Int.{ℤ, pos, ◌+ℤ◌, ◌-ℤ◌, ltb_ℤ, pos_part}
use galwar.Rng.{Rng, intn}

-- The loop's variables `a` and `c`, the losses so far, and the dice.
pub record Exchange : Type 0 where
  pub a : ℤ
  pub c : ℤ
  pub rng : Rng

-- rand.Intn(100) > 50
pub attacker_pays : Rng → Bool × Rng
attacker_pays rng = let (roll, rest) = intn 100 rng in (ltb 50 roll, rest)

-- `if roll { a += n } else { c += n }`
charge : Bool → ℤ → Rng → Exchange → Exchange
charge true n rng e = record e { a = e.a +ℤ n; rng = rng }
charge false n rng e = record e { c = e.c +ℤ n; rng = rng }

-- One roll that moves `n` fighters.
pub roll_for : ℤ → Exchange → Exchange
unfolding charge attacker_pays
roll_for n e = let (pays, rest) = attacker_pays e.rng in charge pays n rest e

module _ (attackers defenders : ℤ) where
  abbrev running : Exchange → Bool
  running e = ltb_ℤ e.a attackers && ltb_ℤ e.c defenders

  abbrev both_large : Exchange → Bool
  both_large e = ltb_ℤ (pos 1000) (attackers -ℤ e.a) && ltb_ℤ (pos 1000) (defenders -ℤ e.c)

  -- The loop's body.
  pub tick : Exchange → Exchange
  tick e = roll_for (pos 1) (if both_large e then roll_for (pos 100) e else e)

  pub loop : ℕ → Exchange → Exchange
  loop zero e = e
  loop (suc fuel) e = elim (running e) [ true ↦ loop fuel (tick e) | false ↦ e ]

  -- A tick costs at least one fighter, so as many rounds as there are fighters are enough.
  abbrev rounds : ℕ
  rounds = pos_part attackers + pos_part defenders

  abbrev capped : Exchange → ℤ × ℤ × Rng
  capped e = (
    if ltb_ℤ attackers e.a then attackers else e.a,
    if ltb_ℤ defenders e.c then defenders else e.c,
    e.rng,
  )

  -- The losses of the two sides.
  pub attrition : Rng → ℤ × ℤ × Rng
  attrition rng = capped (loop rounds (record { a = pos 0; c = pos 0; rng = rng }))

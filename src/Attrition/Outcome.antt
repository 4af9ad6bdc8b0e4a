-- ===== src/Attrition/Outcome.antt =====
-- How an exchange ends, whatever the dice: pkg/galwar/combat.go, `attrition`.
use galwar.Base.{
  ℕ, zero, suc, ◌+◌, ◌≤◌, ◌≡◌, ◌⊎◌, inl, inr, true, false, if◌then◌else◌, Bool-cases, arith,
}
use galwar.Base.Int.{ℤ, pos, ◌+ℤ◌, ◌≤ℤ◌, ltb_ℤ, pos_part, int_laws, ltb_ℤ→lt, ltb_ℤ→le}
use galwar.Rng.{Rng}
use galwar.Attrition.{
  Exchange, roll_for, running, both_large, tick, loop, rounds, capped, attrition,
}

-- A roll moves `n` from one side's pool, and nothing else.
pub roll_for_charges :
    (n : ℤ) (e : Exchange)
    → (((roll_for n e).a ≡ e.a +ℤ n) × ((roll_for n e).c ≡ e.c))
      ⊎ (((roll_for n e).a ≡ e.a) × ((roll_for n e).c ≡ e.c +ℤ n))
unfolding roll_for
roll_for_charges n e = ground arith

cap_idle : (x y : ℤ) → y ≤ℤ x → (if ltb_ℤ x y then x else y) ≡ y
cap_idle x y h = ground arith

some_spent : (x y : ℤ) (e : Exchange) → running x y e ≡ false → (x ≤ℤ e.a) ⊎ (y ≤ℤ e.c)
some_spent x y e h = ground (arith, ltb_ℤ→le e.a x, ltb_ℤ→le e.c y)

module _ (attackers defenders : ℤ) where
  -- Neither side has lost more than it has, and not both have lost all.
  pub record Inv (e : Exchange) : Type 0 where
    pub a_nonneg : pos 0 ≤ℤ e.a
    pub c_nonneg : pos 0 ≤ℤ e.c
    pub a_le : e.a ≤ℤ attackers
    pub c_le : e.c ≤ℤ defenders
    pub one_stands : (e.a +ℤ pos 1 ≤ℤ attackers) ⊎ (e.c +ℤ pos 1 ≤ℤ defenders)

  -- What holds inside the loop: both sides have fighters left.
  record Fighting (e : Exchange) : Type 0 where
    a_nonneg : pos 0 ≤ℤ e.a
    c_nonneg : pos 0 ≤ℤ e.c
    a_lt : e.a +ℤ pos 1 ≤ℤ attackers
    c_lt : e.c +ℤ pos 1 ≤ℤ defenders

  big_roll-Fighting :
      (e : Exchange)
      → Fighting e
      → both_large attackers defenders e ≡ true
      → Fighting (roll_for (pos 100) e)
  big_roll-Fighting e v h = grind (int_laws, roll_for_charges (pos 100) e)

  small_roll-Inv : (e : Exchange) → Fighting e → Inv (roll_for (pos 1) e)
  small_roll-Inv e v = grind (int_laws, roll_for_charges (pos 1) e)

  tick-Inv :
      (e : Exchange)
      → Inv e
      → running attackers defenders e ≡ true
      → Inv (tick attackers defenders e)
  unfolding tick
  tick-Inv e v h = small_roll-Inv _ fighting
    where
      start : Fighting e
      start = grind (int_laws, ltb_ℤ→lt)

      fighting : Fighting (if both_large attackers defenders e then roll_for (pos 100) e else e)
      fighting = elim (Bool-cases (both_large attackers defenders e)) [
        | inl large ↦ rw large (big_roll-Fighting e start large)
        | inr small ↦ rw small start
      ]

  abbrev spent : Exchange → ℕ
  spent e = pos_part e.a + pos_part e.c

  roll_for-spent :
      (n : ℕ) (e : Exchange)
      → pos 0 ≤ℤ e.a
      → pos 0 ≤ℤ e.c
      → let e' = roll_for (pos n) e in (spent e' ≡ spent e + n) × (pos 0 ≤ℤ e'.a) × (pos 0 ≤ℤ e'.c)
  roll_for-spent n e ha hc = grind (int_laws, roll_for_charges (pos n) e)

  tick-spent :
      (e : Exchange)
      → Inv e
      → running attackers defenders e ≡ true
      → spent e + 1 ≤ spent (tick attackers defenders e)
  unfolding tick
  tick-spent e v h = elim (Bool-cases (both_large attackers defenders e)) [
    | inl large ↦
        let (sum, ha, hc) = roll_for-spent 100 e v.a_nonneg v.c_nonneg in
        rw large (omega (arith, roll_for-spent 1 (roll_for (pos 100) e) ha hc))
    | inr small ↦ rw small (omega (arith, roll_for-spent 1 e v.a_nonneg v.c_nonneg))
  ]

  -- The loop ends by its test, within the rounds given.
  loop-Inv :
      (fuel : ℕ) (e : Exchange)
      → Inv e
      → rounds attackers defenders ≤ fuel + spent e
      → Inv (loop attackers defenders fuel e)
        × (running attackers defenders (loop attackers defenders fuel e) ≡ false)
  unfolding loop
  loop-Inv zero e v m = (v, grind int_laws)
  loop-Inv (suc fuel) e v m = elim (Bool-cases (running attackers defenders e)) [
    | inl more ↦
        rw (more, loop)
          (loop-Inv fuel (tick attackers defenders e) (tick-Inv e v more)
            (omega (arith, tick-spent e v more)))
    | inr done ↦ rw (done, loop) (v, done)
  ]

  -- What an exchange decides: losses within what each side brought, one side lost to the last
  -- fighter, and the other side not.
  pub record IsDecided (result : ℤ × ℤ × Rng) : Type 0 where
    pub attacker_loss_nonneg : pos 0 ≤ℤ result.0
    pub attacker_loss_le : result.0 ≤ℤ attackers
    pub defender_loss_nonneg : pos 0 ≤ℤ result.1
    pub defender_loss_le : result.1 ≤ℤ defenders
    pub one_wiped_out :
        ((result.0 ≡ attackers) × (result.1 +ℤ pos 1 ≤ℤ defenders))
        ⊎ ((result.1 ≡ defenders) × (result.0 +ℤ pos 1 ≤ℤ attackers))

  IsDecided-of :
      (e : Exchange)
      → Inv e
      → running attackers defenders e ≡ false
      → IsDecided (capped attackers defenders e)
  IsDecided-of e v stop =
      rw (cap_idle attackers e.a v.a_le, cap_idle defenders e.c v.c_le)
        (grind (int_laws, some_spent attackers defenders e stop))

  -- Between two pools of fighters that are not both empty, `attrition` ends, takes from each side at
  -- most what it has, wipes out exactly one side, and leaves the other at least one fighter.
  pub attrition-IsDecided :
      pos 0 ≤ℤ attackers
      → pos 0 ≤ℤ defenders
      → (pos 1 ≤ℤ attackers) ⊎ (pos 1 ≤ℤ defenders)
      → (rng : Rng) → IsDecided (attrition attackers defenders rng)
  unfolding attrition
  attrition-IsDecided ha hd some_fighter rng =
      let (inv, stop) = loop-Inv (rounds attackers defenders) _ start (omega arith) in
      IsDecided-of _ inv stop
    where
      start : Inv (record { a = pos 0; c = pos 0; rng = rng })
      start = grind int_laws

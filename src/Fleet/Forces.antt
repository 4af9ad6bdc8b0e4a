-- ===== src/Fleet/Forces.antt =====
-- What the defense forces on its way cost a strike fleet: pkg/galwar/combat.go, `battleSector`.
use galwar.Base.{ℕ, zero, suc, ◌+◌, ◌&&◌, inl, inr, Bool-cases, Option-cases, if◌then◌else◌, arith}
use galwar.Base.Int.{ℤ, pos, negsuc, ◌-ℤ◌, ◌≤ℤ◌, ltb_ℤ, pos_part, int_laws, ltb_ℤ→lt}
use galwar.Rng.{intn}
use galwar.Inventory.Goods.{fighters, mines}
use galwar.Attrition.{attrition}
use galwar.Attrition.Outcome.{attrition-IsDecided}
use galwar.Universe.{group_hit_force, group_hit_mines}
use galwar.Death.Spares.{Spares, Spares-refl, Spares-trans}
use galwar.World.{World, hostile, adjust_force, force_of, owner_of}
use galwar.World.Others.{report_to-Spares, drop-Spares}
use galwar.Fleet.{Strike, meet_fighters, clear_mines, meet_mines, meet_force}

-- A part of the voyage: it leaves the sender's record alone, and the fleet does not grow.
pub record Returns (i : ℕ) (s t : Strike) : Type 0 where
  pub spared : Spares i s.1.0 t.1.0
  pub some_left : pos 0 ≤ℤ t.0
  pub no_more : t.0 ≤ℤ s.0

pub Returns-refl : (i : ℕ) (s : Strike) → pos 0 ≤ℤ s.0 → Returns i s s
Returns-refl i s h = record { spared = Spares-refl i s.1.0; some_left = h; no_more = omega arith }

pub Returns-trans : (i : ℕ) (s t r : Strike) → Returns i s t → Returns i t r → Returns i s r
Returns-trans i s t r a b = record {
  spared = Spares-trans i s.1.0 t.1.0 r.1.0 a.spared b.spared;
  some_left = b.some_left;
  no_more = omega (int_laws, a.no_more, b.no_more);
}

pub less_loss : (a b : ℤ) → pos 0 ≤ℤ b → b ≤ℤ a → (pos 0 ≤ℤ a -ℤ b) × (a -ℤ b ≤ℤ a)
less_loss a b h k = omega int_laws

meet_fighters-Returns :
    (i k : ℕ) (now fleet : ℤ) (w : World)
    → pos 0 ≤ℤ fleet
    → Returns i (fleet, w) (meet_fighters k now (fleet, w))
unfolding meet_fighters
meet_fighters-Returns i k now fleet w h =
    let gf = force_of w fighters k in
    let r = attrition fleet gf (w.1).dice in
    let fought = adjust_force k fighters (pos 0 -ℤ r.1) (w.0, record (w.1) { dice = r.2 }) in
    elim (Bool-cases (ltb_ℤ (pos 0) gf)) [
      | inr e ↦ rw (e) (Returns-refl i (fleet, w) h)
      | inl e ↦
          let some_there = ltb_ℤ→lt (pos 0) gf e in
          let d =
            attrition-IsDecided fleet gf h (omega (int_laws, some_there))
              (inr (omega (int_laws, some_there))) (w.1).dice in
          let told = report_to-Spares i (owner_of fought k) now group_hit_force fought in
          let b = less_loss fleet r.0 d.attacker_loss_nonneg d.attacker_loss_le in
          rw (e) (record {
            spared = record { same_ship = told.same_ship; no_fewer = told.no_fewer };
            some_left = b.0;
            no_more = b.1;
          })
    ]

roll_loss :
    (fleet : ℤ) (n : ℕ)
    → pos 0 ≤ℤ fleet
    → (let lost = if ltb_ℤ fleet (pos n) then fleet else pos n in (pos 0 ≤ℤ lost) × (lost ≤ℤ fleet))
roll_loss fleet n h = ground arith

clear_mines-Returns :
    (n i k : ℕ) (fleet : ℤ) (w : World)
    → pos 0 ≤ℤ fleet
    → Returns i (fleet, w) (clear_mines n k (fleet, w))
unfolding clear_mines
clear_mines-Returns zero i k fleet w h = Returns-refl i (fleet, w) h
clear_mines-Returns (suc n) i k fleet w h =
    let r = intn 200 (w.1).dice in
    let lost = if ltb_ℤ fleet (pos (r.0 + 300)) then fleet else pos (r.0 + 300) in
    let v : World = (w.0, record (w.1) { dice = r.1 }) in
    let cleared = adjust_force k mines (negsuc 0) v in
    elim (Bool-cases (ltb_ℤ (pos 0) (force_of w mines k) && ltb_ℤ (pos 0) fleet)) [
      | inr e ↦ rw (e, clear_mines) (Returns-refl i (fleet, w) h)
      | inl e ↦
          let l = roll_loss fleet (r.0 + 300) h in
          let b = less_loss fleet lost l.0 l.1 in
          let rest = clear_mines-Returns n i k (fleet -ℤ lost) cleared b.0 in
          rw (e, clear_mines)
            (record {
              spared = record {
                same_ship = rest.spared.same_ship;
                no_fewer = rest.spared.no_fewer;
              };
              some_left = rest.some_left;
              no_more = omega (int_laws, rest.no_more, b.1);
            })
    ]

meet_mines-Returns :
    (i k : ℕ) (now fleet : ℤ) (w : World)
    → pos 0 ≤ℤ fleet
    → Returns i (fleet, w) (meet_mines k now (fleet, w))
unfolding meet_mines
meet_mines-Returns i k now fleet w h =
    let n = pos_part (force_of w mines k) in
    let r = clear_mines n k (fleet, w) in
    elim (Bool-cases (ltb_ℤ (pos 0) (force_of w mines k) && ltb_ℤ (pos 0) fleet)) [
      | inr e ↦ rw (e) (Returns-refl i (fleet, w) h)
      | inl e ↦ elim (Bool-cases (ltb_ℤ fleet (pos 150))) [
        | inl f ↦ rw (e, f) (Returns-refl i (fleet, w) h)
        | inr f ↦
            let cleared = clear_mines-Returns n i k fleet w h in
            let told = report_to-Spares i (owner_of r.1 k) now group_hit_mines r.1 in
            rw (e, f)
              (record {
                spared = Spares-trans i w.0 r.1.0 _ cleared.spared told;
                some_left = cleared.some_left;
                no_more = cleared.no_more;
              })
      ]
    ]

pub meet_force-Returns :
    (i sec : ℕ) (now : ℤ) (s : Strike) → pos 0 ≤ℤ s.0 → Returns i s (meet_force i sec now s)
unfolding meet_force
meet_force-Returns i sec now (fleet, w) h = elim (Option-cases (hostile i sec w)) [
  | inl e ↦ rw (e, meet_force) (Returns-refl i (fleet, w) h)
  | inr (k, e) ↦
      let f = meet_fighters k now (fleet, w) in
      let a = meet_fighters-Returns i k now fleet w h in
      let m = meet_mines k now f in
      let b = meet_mines-Returns i k now f.0 f.1 a.some_left in
      let both = Returns-trans i (fleet, w) f m a b in
      rw (e, meet_force)
        (record {
          spared = Spares-trans i w.0 m.1.0 _ both.spared (drop-Spares i k m.1);
          some_left = both.some_left;
          no_more = both.no_more;
        })
]

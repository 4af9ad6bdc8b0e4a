-- ===== src/Fleet/Voyage.antt =====
-- What ships in transit cost a strike fleet, and the whole way: pkg/galwar/combat.go, `battleSector`.
use galwar.Base.{
  ℕ, ◌<◌, ◌≡◌, ◌≢◌, ◌&&◌, ◌||◌, not, inl, inr, ◌⊎◌, Bool, true, false, none, some, List, [], ◌∷◌,
  length, ltb, Bool-cases, if◌then◌else◌, arith,
}
use galwar.Base.Int.{ℤ, pos, ◌-ℤ◌, ◌≤ℤ◌, ltb_ℤ, int_laws, ltb_ℤ→le}
use galwar.Float64.{Float64}
use galwar.Inventory.Goods.{fighters}
use galwar.Inventory.Invariant.{get_quantity_nonneg}
use galwar.Attrition.{attrition}
use galwar.Attrition.Outcome.{attrition-IsDecided}
use galwar.Player.{adjust}
use galwar.Universe.{player_at, group_saved, group_killed, group_attacked}
use galwar.Universe.Sound.{Sound, ship-ShipStocked}
use galwar.Death.Spares.{Spares, Spares-trans, kill_player-Spares}
use galwar.World.{World, alter, report_to, has_in, unarmed, try_em_warp, hostile}
use galwar.World.Others.{report_to-Spares, alter-Spares, try_em_warp-Spares}
use galwar.Fleet.{
  Strike, meet_force, finish_ship, passes_by, meet_ship, meet_ships, ships_in, battle_sector,
  strike_all,
}
use galwar.Fleet.Sound.{meet_force-Sound, meet_ship-Sound, battle_sector-Sound}
use galwar.Fleet.Forces.{Returns, Returns-refl, Returns-trans, less_loss, meet_force-Returns}

-- Where the loop over the ships goes on, a fleet in battle has a ship left.
still_armed :
    (skip battle : Bool) (s t : Strike)
    → (battle ≡ false) ⊎ (pos 1 ≤ℤ s.0)
    → (not skip && ltb_ℤ (if skip then s else t).0 (pos 1)) ≡ false
    → (battle ≡ false) ⊎ (pos 1 ≤ℤ (if skip then s else t).0)
still_armed true battle s t k h = k
still_armed false battle s t k h = inr (ltb_ℤ→le t.0 (pos 1) h)

module _ (tries : ℕ) (fl : Float64) where
  finish_ship-Spares :
      (i j : ℕ) (now : ℤ) (w : World)
      → j ≢ i
      → i < length (w.0).players
      → Spares i w.0 (finish_ship tries fl j now w).0
  unfolding finish_ship
  finish_ship-Spares i j now w ne inside =
      let id = (player_at (w.0) j).id in
      let r = try_em_warp tries j now w in
      elim (Bool-cases (unarmed w j)) [
        | inr armed ↦ rw (armed) (report_to-Spares i id now group_attacked w)
        | inl lost ↦ elim (Bool-cases (r.0)) [
          | inl saved ↦
              rw (lost, saved)
                (Spares-trans i w.0 r.1.0 _ (try_em_warp-Spares tries i j now w ne)
                  (report_to-Spares i id now group_saved r.1))
          | inr doomed ↦
              let told = report_to id now group_killed w in
              let kept = report_to-Spares i id now group_killed w in
              rw (lost, doomed)
                (Spares-trans i w.0 told.0 _ kept
                  (kill_player-Spares i j now told ne (omega (arith, kept.no_fewer))))
        ]
      ]

  meet_ship-Returns :
      (i j : ℕ) (now : ℤ) (s : Strike)
      → j ≢ i
      → i < length (s.1.0).players
      → pos 1 ≤ℤ s.0
      → Sound s.1.0
      → Returns i s (meet_ship tries fl i j now s)
  unfolding meet_ship
  meet_ship-Returns i j now (fleet, w) ne inside h sound =
      let r = attrition fleet (has_in fighters w j) (w.1).dice in
      let v : World = (w.0, record (w.1) { dice = r.2 }) in
      let loss = adjust fighters (pos 0 -ℤ r.1) in
      let theirs =
        get_quantity_nonneg fighters (player_at (w.0) j).inventory (ship-ShipStocked j w.0 sound) in
      let d =
        attrition-IsDecided fleet (has_in fighters w j) (omega (int_laws, h)) theirs (inl h)
          (w.1).dice in
      let b = less_loss fleet r.0 d.attacker_loss_nonneg d.attacker_loss_le in
      let hit = alter-Spares i j loss v ne in
      let done =
        finish_ship-Spares i j now (alter j loss v) ne (omega (arith, inside, hit.no_fewer)) in
      let both = Spares-trans i w.0 (alter j loss v).0 _ hit done in
      record { spared = both; some_left = b.0; no_more = b.1 }

  meet_ships-Returns :
      (battle : Bool) (i : ℕ) (now : ℤ) (js : List ℕ) (s : Strike)
      → i < length (s.1.0).players
      → pos 0 ≤ℤ s.0
      → (battle ≡ false) ⊎ (pos 1 ≤ℤ s.0)
      → Sound s.1.0
      → Returns i s (meet_ships tries fl battle i now js s)
  unfolding meet_ships passes_by
  meet_ships-Returns battle i now [] s inside h k sound = Returns-refl i s h
  meet_ships-Returns battle i now (j ∷ js) (fleet, w) inside h k sound =
      let skip = passes_by tries fl i j now w.0 || not battle in
      let t : Strike = if skip then (fleet, w) else meet_ship tries fl i j now (fleet, w) in
      let one : Returns i (fleet, w) t × Sound t.1.0 = elim (Bool-cases skip) [
        | inl e ↦ rw (e) (Returns-refl i (fleet, w) h, sound)
        | inr e ↦
            let ne : j ≢ i = ground (arith, e) in
            let some : pos 1 ≤ℤ fleet = ground (arith, e, k) in
            rw (e) (
              meet_ship-Returns i j now (fleet, w) ne inside some sound,
              meet_ship-Sound tries fl i j now (fleet, w) sound,
            )
      ] in
      elim (Bool-cases (not skip && ltb_ℤ t.0 (pos 1))) [
        | inl over ↦ rw (over, meet_ships) (one.0)
        | inr more ↦
            let again =
              still_armed skip battle (fleet, w) (meet_ship tries fl i j now (fleet, w)) k more in
            rw (more, meet_ships)
              (Returns-trans i (fleet, w) t _ one.0
                (meet_ships-Returns battle i now js t (omega (arith, inside, one.0.spared.no_fewer))
                  one.0.some_left again one.1))
      ]

  ready :
      (engage : Bool) (fleet : ℤ) (sec : ℕ)
      → ((engage && ltb_ℤ (pos 1) fleet && ltb 10 sec) ≡ false) ⊎ (pos 1 ≤ℤ fleet)
  ready engage fleet sec = elim (Bool-cases (engage && ltb_ℤ (pos 1) fleet && ltb 10 sec)) [
    | inl e ↦ inr (ground (arith, e))
    | inr e ↦ inl e
  ]

  battle_sector-Returns :
      (engage : Bool) (i sec : ℕ) (now : ℤ) (s : Strike)
      → i < length (s.1.0).players
      → pos 0 ≤ℤ s.0
      → Sound s.1.0
      → Returns i s (battle_sector tries fl engage i sec now s)
  unfolding battle_sector
  battle_sector-Returns engage i sec now s inside h sound =
      let r = meet_force i sec now s in
      let met = meet_force-Returns i sec now s h in
      let battle = engage && ltb_ℤ (pos 1) r.0 && ltb 10 sec in
      let over : Bool =
        ltb_ℤ r.0 (pos 1) && (elim (hostile i sec (s.1)) [ some _ ↦ true | none ↦ false ]) in
      elim (Bool-cases over) [
        | inl e ↦ rw (e) met
        | inr e ↦ rw (e) (
            Returns-trans i s r _ met (
              meet_ships-Returns battle i now (ships_in tries fl sec 0 ((r.1).0).players) r
                (omega (arith, inside, met.spared.no_fewer)) met.some_left (ready engage r.0 sec)
                (meet_force-Sound i sec now s sound)))
      ]

  pub strike_all-Returns :
      (i : ℕ) (now : ℤ) (secs : List ℕ) (s : Strike)
      → i < length (s.1.0).players
      → pos 0 ≤ℤ s.0
      → Sound s.1.0
      → Returns i s (strike_all tries fl i now secs s)
  unfolding strike_all
  strike_all-Returns i now [] s inside h sound = Returns-refl i s h
  strike_all-Returns i now (sec ∷ secs) s inside h sound =
      let r = battle_sector tries fl true i sec now s in
      let met = battle_sector-Returns true i sec now s inside h sound in
      elim (Bool-cases (ltb_ℤ r.0 (pos 1))) [
        | inl over ↦ rw (over, strike_all) met
        | inr more ↦
            rw (more, strike_all)
              (Returns-trans i s r _ met (
                strike_all-Returns i now secs r (omega (arith, inside, met.spared.no_fewer))
                  met.some_left (battle_sector-Sound tries fl true i sec now s sound)))
      ]

-- ===== src/Fleet/Sound.antt =====
-- No strike leaves a negative quantity: pkg/galwar/combat.go, `LaunchBattleGroup`.
use galwar.Base.{
  ℕ, zero, suc, ◌+◌, ◌&&◌, ◌||◌, not, inl, inr, Bool, true, false, none, some, List, [], ◌∷◌, ltb,
  Bool-cases, Option-cases, if◌then◌else◌,
}
use galwar.Base.Int.{ℤ, pos, negsuc, ◌-ℤ◌, ltb_ℤ, pos_part}
use galwar.Float64.{Float64}
use galwar.Rng.{intn}
use galwar.Inventory.Goods.{fighters, mines}
use galwar.Attrition.{attrition}
use galwar.Player.{adjust}
use galwar.Universe.{
  player_at, group_hit_force, group_hit_mines, group_saved, group_killed, group_attacked,
}
use galwar.Universe.Sound.{Sound}
use galwar.Death.Sound.{kill_player-Sound}
use galwar.World.{
  World, alter, report_to, has_in, unarmed, try_em_warp, hostile, adjust_force, force_of, owner_of,
}
use galwar.World.Sound.{
  alter-Sound, adjust-ShipStocked, report_to-Sound, adjust_force-Sound, drop-Sound,
  try_em_warp-Sound,
}
use galwar.Fleet.{
  Strike, meet_fighters, clear_mines, meet_mines, meet_force, finish_ship, passes_by, meet_ship,
  meet_ships, ships_in, battle_sector, strike_all,
}

meet_fighters-Sound :
    (k : ℕ) (now fleet : ℤ) (w : World) → Sound w.0 → Sound (meet_fighters k now (fleet, w)).1.0
unfolding meet_fighters
meet_fighters-Sound k now fleet w s =
    let r = attrition fleet (force_of w fighters k) (w.1).dice in
    let v : World = (w.0, record (w.1) { dice = r.2 }) in
    let fought = adjust_force k fighters (pos 0 -ℤ r.1) v in
    elim (Bool-cases (ltb_ℤ (pos 0) (force_of w fighters k))) [
      | inl e ↦ rw (e) (
          report_to-Sound (owner_of fought k) now group_hit_force fought
            (adjust_force-Sound k fighters (pos 0 -ℤ r.1) v s))
      | inr e ↦ rw (e) s
    ]

clear_mines-Sound :
    (n k : ℕ) (fleet : ℤ) (w : World) → Sound w.0 → Sound (clear_mines n k (fleet, w)).1.0
unfolding clear_mines
clear_mines-Sound zero k fleet w s = s
clear_mines-Sound (suc n) k fleet w s =
    let r = intn 200 (w.1).dice in
    let lost = if ltb_ℤ fleet (pos (r.0 + 300)) then fleet else pos (r.0 + 300) in
    let v : World = (w.0, record (w.1) { dice = r.1 }) in
    elim (Bool-cases (ltb_ℤ (pos 0) (force_of w mines k) && ltb_ℤ (pos 0) fleet)) [
      | inl e ↦
          rw (e, clear_mines)
            (clear_mines-Sound n k (fleet -ℤ lost) (adjust_force k mines (negsuc 0) v)
              (adjust_force-Sound k mines (negsuc 0) v s))
      | inr e ↦ rw (e, clear_mines) s
    ]

meet_mines-Sound :
    (k : ℕ) (now fleet : ℤ) (w : World) → Sound w.0 → Sound (meet_mines k now (fleet, w)).1.0
unfolding meet_mines
meet_mines-Sound k now fleet w s =
    let n = pos_part (force_of w mines k) in
    let r = clear_mines n k (fleet, w) in
    elim (Bool-cases (ltb_ℤ (pos 0) (force_of w mines k) && ltb_ℤ (pos 0) fleet)) [
      | inr e ↦ rw (e) s
      | inl e ↦ elim (Bool-cases (ltb_ℤ fleet (pos 150))) [
        | inl f ↦ rw (e, f) s
        | inr f ↦
            rw (e, f)
              (report_to-Sound (owner_of r.1 k) now group_hit_mines r.1
                (clear_mines-Sound n k fleet w s))
      ]
    ]

pub meet_force-Sound :
    (i sec : ℕ) (now : ℤ) (s : Strike) → Sound s.1.0 → Sound (meet_force i sec now s).1.0
unfolding meet_force
meet_force-Sound i sec now (fleet, w) s = elim (Option-cases (hostile i sec w)) [
  | inl e ↦ rw (e, meet_force) s
  | inr (k, e) ↦
      let f = meet_fighters k now (fleet, w) in
      rw (e, meet_force)
        (drop-Sound k (meet_mines k now f).1
          (meet_mines-Sound k now f.0 f.1 (meet_fighters-Sound k now fleet w s)))
]

module _ (tries : ℕ) (fl : Float64) where
  finish_ship-Sound :
      (j : ℕ) (now : ℤ) (w : World) → Sound w.0 → Sound (finish_ship tries fl j now w).0
  unfolding finish_ship
  finish_ship-Sound j now w s =
      let id = (player_at (w.0) j).id in
      let r = try_em_warp tries j now w in
      elim (Bool-cases (unarmed w j)) [
        | inr armed ↦ rw (armed) (report_to-Sound id now group_attacked w s)
        | inl lost ↦ elim (Bool-cases (r.0)) [
          | inl saved ↦
              rw (lost, saved)
                (report_to-Sound id now group_saved r.1 (try_em_warp-Sound tries j now w s))
          | inr doomed ↦
              rw (lost, doomed)
                (kill_player-Sound j now (report_to id now group_killed w)
                  (report_to-Sound id now group_killed w s))
        ]
      ]

  pub meet_ship-Sound :
      (i j : ℕ) (now : ℤ) (s : Strike) → Sound s.1.0 → Sound (meet_ship tries fl i j now s).1.0
  unfolding meet_ship
  meet_ship-Sound i j now (fleet, w) s =
      let r = attrition fleet (has_in fighters w j) (w.1).dice in
      let v : World = (w.0, record (w.1) { dice = r.2 }) in
      let loss = adjust fighters (pos 0 -ℤ r.1) in
      finish_ship-Sound j now (alter j loss v)
        (alter-Sound j loss v (adjust-ShipStocked fighters (pos 0 -ℤ r.1)) s)

  meet_ships-Sound :
      (battle : Bool) (i : ℕ) (now : ℤ) (js : List ℕ) (s : Strike)
      → Sound s.1.0
      → Sound (meet_ships tries fl battle i now js s).1.0
  unfolding meet_ships
  meet_ships-Sound battle i now [] s h = h
  meet_ships-Sound battle i now (j ∷ js) (fleet, w) h =
      let skip = passes_by tries fl i j now w.0 || not battle in
      let s : Strike = if skip then (fleet, w) else meet_ship tries fl i j now (fleet, w) in
      let kept : Sound s.1.0 = elim (Bool-cases skip) [
        | inl e ↦ rw (e) h
        | inr e ↦ rw (e) (meet_ship-Sound i j now (fleet, w) h)
      ] in
      elim (Bool-cases (not skip && ltb_ℤ s.0 (pos 1))) [
        | inl over ↦ rw (over, meet_ships) kept
        | inr more ↦ rw (more, meet_ships) (meet_ships-Sound battle i now js s kept)
      ]

  pub battle_sector-Sound :
      (engage : Bool) (i sec : ℕ) (now : ℤ) (s : Strike)
      → Sound s.1.0
      → Sound (battle_sector tries fl engage i sec now s).1.0
  unfolding battle_sector
  battle_sector-Sound engage i sec now s h =
      let r = meet_force i sec now s in
      let kept = meet_force-Sound i sec now s h in
      let battle = engage && ltb_ℤ (pos 1) r.0 && ltb 10 sec in
      let over : Bool =
        ltb_ℤ r.0 (pos 1) && (elim (hostile i sec (s.1)) [ some _ ↦ true | none ↦ false ]) in
      elim (Bool-cases over) [
        | inl e ↦ rw (e) kept
        | inr e ↦
            rw (e)
              (meet_ships-Sound battle i now (ships_in tries fl sec 0 ((r.1).0).players) r kept)
      ]

  pub strike_all-Sound :
      (i : ℕ) (now : ℤ) (secs : List ℕ) (s : Strike)
      → Sound s.1.0
      → Sound (strike_all tries fl i now secs s).1.0
  unfolding strike_all
  strike_all-Sound i now [] s h = h
  strike_all-Sound i now (sec ∷ secs) s h =
      let r = battle_sector tries fl true i sec now s in
      let kept = battle_sector-Sound true i sec now s h in
      elim (Bool-cases (ltb_ℤ r.0 (pos 1))) [
        | inl over ↦ rw (over, strike_all) kept
        | inr more ↦ rw (more, strike_all) (strike_all-Sound i now secs r kept)
      ]

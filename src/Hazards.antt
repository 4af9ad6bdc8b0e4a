-- ===== src/Hazards.antt =====
-- What a ship meets on arrival: `mineBlast` of pkg/galwar/combat.go, `hostileBattlegroup` of
-- pkg/galwar/commands.go and `tryEmWarp` of pkg/galwar/specials.go.
use galwar.Base.{ℕ, ◌+◌, ◌&&◌, not, Option, none, some, List, [], ◌∷◌, ◌==◌, if◌then◌else◌}
use galwar.Base.Int.{ℤ, pos, ◌-ℤ◌, ltb_ℤ}
use galwar.Rng.{Rng, intn}
use galwar.Inventory.Goods.{fighters, holds}
use galwar.Player.{Player, has, adjust, damage_system}
use galwar.Universe.{Battlegroup}

-- The first battlegroup in the sector that is someone else's
unfoldable pub hostile_battlegroup : ℕ → ℕ → ℕ → List Battlegroup → Option ℕ
hostile_battlegroup id sector k [] = none
hostile_battlegroup id sector k (b ∷ bs) =
    let rest = hostile_battlegroup id sector (k + 1) bs in
    if (b.sector == sector) && not (b.owner == id) then some k else rest

abbrev pub at_most : ℤ → ℤ → ℤ
at_most have lost = if ltb_ℤ have lost then have else lost

-- One mine: the fighters and holds that it destroys, the ship, and the dice.
unfoldable pub mine_blast : Player → Rng → (ℤ × ℤ) × Player × Rng
mine_blast p rng =
    let (f, rng1) = intn 200 rng in
    let (h, rng2) = intn 6 rng1 in
    let (sys, rng3) = intn 6 rng2 in
    let (hurt, rng4) = intn 15 rng3 in
    let lost_fighters = at_most (has fighters p) (pos (f + 300)) in
    let lost_holds = at_most (has holds p) (pos (h + 7)) in
    (
      (lost_fighters, lost_holds),
      damage_system sys (pos (hurt + 5))
          (adjust holds (pos 0 -ℤ lost_holds) (adjust fighters (pos 0 -ℤ lost_fighters) p)),
      rng4,
    )

-- ===== src/Fleet/Homecoming.antt =====
-- The account of a strike fleet: pkg/galwar/combat.go, `LaunchBattleGroup`.
use galwar.Base.{ℕ, ◌<◌, ◌≡◌, ap, ◌∙◌, inl, inr, List, length, length-set, Bool-cases, arith}
use galwar.Base.Int.{ℤ, pos, ◌+ℤ◌, ◌-ℤ◌, ◌≤ℤ◌, ltb_ℤ, int_laws, ltb_ℤ→le}
use galwar.Float64.{Float64}
use galwar.Inventory.Goods.{fighters}
use galwar.Inventory.Laws.{adjusted_sum}
use galwar.Inventory.Invariant.{get_quantity_nonneg}
use galwar.Player.{has, adjust}
use galwar.Universe.{player_at, nobody}
use galwar.Universe.Sound.{Sound, ship-ShipStocked}
use galwar.Universe.Pointers.{get_or-set_self}
use galwar.World.{World, alter, has_in}
use galwar.World.Sound.{alter-Sound, adjust-ShipStocked}
use galwar.Fleet.{Strike, strike_all, come_home, send}
use galwar.Fleet.Sound.{strike_all-Sound}
use galwar.Fleet.Voyage.{strike_all-Returns}

account : (have ships left : ℤ) → (have +ℤ (pos 0 -ℤ ships)) +ℤ left ≡ have -ℤ (ships -ℤ left)
account have ships left = omega int_laws

no_return :
    (have ships left : ℤ)
    → pos 0 ≤ℤ left
    → left ≤ℤ pos 0
    → have +ℤ (pos 0 -ℤ ships) ≡ have -ℤ (ships -ℤ left)
no_return have ships left h k = omega int_laws

-- What a write to the fighters of a ship leaves aboard
refit :
    (i : ℕ) (amount : ℤ) (w : World)
    → i < length (w.0).players
    → pos 0 ≤ℤ has_in fighters w i +ℤ amount
    → has_in fighters (alter i (adjust fighters amount) w) i ≡ has_in fighters w i +ℤ amount
refit i amount (u, c) inside h =
    ap (has fighters)
      (get_or-set_self u.players i (adjust fighters amount (player_at u i)) nobody inside)
    ∙ adjusted_sum fighters amount (player_at u i).inventory h

-- The fleet that is left of `ships` ships when the way is over, with the world that it left behind
abbrev pub voyage : ℕ → Float64 → ℕ → List ℕ → ℤ → ℤ → World → Strike
voyage tries fl i secs ships now w =
    strike_all tries fl i now secs (ships, alter i (adjust fighters (pos 0 -ℤ ships)) w)

-- A fleet that was sent with at least one and at most all of the fighters aboard, in a universe
-- where no quantity is negative, is left with no more ships than it had and with none at the least;
-- all that are left come home. So the sender has, at the end, the fighters from before less the
-- ships that the fleet lost on its way; while it is away, nothing of the sender's record changes
-- but the fighters that are with it.
pub send-Returns :
    (tries : ℕ) (fl : Float64) (i : ℕ) (secs : List ℕ) (ships now : ℤ) (w : World)
    → i < length (w.0).players
    → pos 1 ≤ℤ ships
    → ships ≤ℤ has_in fighters w i
    → Sound w.0
    → (let left = voyage tries fl i secs ships now w in
        (pos 0 ≤ℤ left.0)
        × (left.0 ≤ℤ ships)
        × (player_at (left.1.0) i ≡ adjust fighters (pos 0 -ℤ ships) (player_at (w.0) i))
        × (has_in fighters (send tries fl i secs ships now w) i
            ≡ has_in fighters w i -ℤ (ships -ℤ left.0)))
unfolding send come_home
send-Returns tries fl i secs ships now w inside any enough sound =
    let off = adjust fighters (pos 0 -ℤ ships) in
    let gone = alter i off w in
    let sailed = alter-Sound i off w (adjust-ShipStocked fighters (pos 0 -ℤ ships)) sound in
    let aboard : has_in fighters gone i ≡ has_in fighters w i +ℤ (pos 0 -ℤ ships) =
      refit i (pos 0 -ℤ ships) w inside (omega (int_laws, enough)) in
    let there : i < length (gone.0).players =
      omega (arith, length-set (w.0).players i (off (player_at (w.0) i))) in
    let v =
      strike_all-Returns tries fl i now secs (ships, gone) there (omega (int_laws, any)) sailed in
    let r = strike_all tries fl i now secs (ships, gone) in
    let stocked =
      get_quantity_nonneg fighters (player_at (r.1.0) i).inventory
        (ship-ShipStocked i r.1.0 (strike_all-Sound tries fl i now secs (ships, gone) sailed)) in
    let same : has_in fighters r.1 i ≡ has_in fighters gone i =
      ap (has fighters) v.spared.same_ship in
    (
      v.some_left,
      v.no_more,
      v.spared.same_ship ∙ get_or-set_self (w.0).players i (off (player_at (w.0) i)) nobody inside,
      elim (Bool-cases (ltb_ℤ (pos 0) r.0)) [
        | inl e ↦ rw (e) (
            refit i r.0 r.1 (omega (arith, there, v.spared.no_fewer))
              (omega (int_laws, stocked, v.some_left))
            ∙ ap (λ (x : ℤ). x +ℤ r.0) (same ∙ aboard)
            ∙ account (has_in fighters w i) ships r.0)
        | inr e ↦ rw (e) (
            same
            ∙ aboard
            ∙ no_return (has_in fighters w i) ships r.0 v.some_left (ltb_ℤ→le (pos 0) r.0 e))
      ],
    )

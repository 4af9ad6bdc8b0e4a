-- ===== src/World/EmWarp.antt =====
-- What an Emergency Warp does: `tryEmWarp` of pkg/galwar/specials.go.
use galwar.Base.{
  ℕ, zero, suc, ◌+◌, ◌-◌, ◌%◌, ◌≤◌, ◌<◌, ◌≡◌, ◌≢◌, ◌⊎◌, refl, ◌∙◌, inl, inr, true, false, ◌&&◌,
  ◌==◌, ltb, length, Bool-cases, arith, Bool,
}
use native.Mathlib.Nat.{mod-lt}
use galwar.Base.Int.{ℤ, pos, negsuc, ◌≤ℤ◌, ltb_ℤ, int_laws, ltb_ℤ→lt, ltb_ℤ→le}
use galwar.Rng.{Rng, intn}
use galwar.Inventory.Goods.{emwarp}
use galwar.Player.{adjust, move_to}
use galwar.Universe.{Universe, player_at, set_player, emwarped, nobody}
use galwar.Universe.Pointers.{get_or-set_self}
use galwar.News.{add_news, unread}
use galwar.World.{World, has_in, reroll, destination, em_warp, try_em_warp}

-- The first `n` raw numbers after the draw do not all name the sector.
abbrev Differs : ℕ → ℕ → ℕ → Rng → Type 0
Differs n numsec sector rng = (k : ℕ) × (k < n) × (1 + rng k % numsec ≢ sector)

-- A draw is a sector of the universe.
reroll_range :
    (n numsec sector dest : ℕ) (rng : Rng)
    → 1 ≤ numsec
    → 1 ≤ dest
    → dest ≤ numsec
    → (1 ≤ (reroll n numsec sector (dest, rng)).0)
      × ((reroll n numsec sector (dest, rng)).0 ≤ numsec)
unfolding reroll intn
reroll_range zero numsec sector dest rng h a b = (a, b)
reroll_range (suc n) numsec sector dest rng h a b =
    elim (Bool-cases (ltb 1 numsec && (dest == sector))) [
      | inr stop ↦ rw (stop) (a, b)
      | inl again ↦ rw (again) (
          reroll_range n numsec sector (1 + rng 0 % numsec) (λ i. rng (suc i)) h (omega arith)
            (omega (arith, mod-lt (rng 0) h)))
    ]

first_or_later :
    (n numsec sector : ℕ) (rng : Rng)
    → Differs (suc n) numsec sector rng
    → (1 + rng 0 % numsec ≢ sector) ⊎ Differs n numsec sector (λ i. rng (suc i))
first_or_later n numsec sector rng (zero, lt, ne) = inl ne
first_or_later n numsec sector rng (suc k, lt, ne) = inr (k, omega (arith, lt), ne)

later :
    (n numsec sector dest : ℕ) (rng : Rng)
    → dest ≡ sector
    → (dest ≢ sector) ⊎ Differs (suc n) numsec sector rng
    → (1 + rng 0 % numsec ≢ sector) ⊎ Differs n numsec sector (λ i. rng (suc i))
later n numsec sector dest rng e (inl ne) = absurd (ne e)
later n numsec sector dest rng e (inr d) = first_or_later n numsec sector rng d

reroll_leaves :
    (n numsec sector dest : ℕ) (rng : Rng)
    → 2 ≤ numsec
    → (dest ≢ sector) ⊎ Differs n numsec sector rng
    → (reroll n numsec sector (dest, rng)).0 ≢ sector
unfolding reroll intn
reroll_leaves zero numsec sector dest rng h (inl ne) = ne
reroll_leaves zero numsec sector dest rng h (inr (k, lt, _)) = absurd (omega (arith, lt))
reroll_leaves (suc n) numsec sector dest rng h d =
    elim (Bool-cases (ltb 1 numsec && (dest == sector))) [
      | inr stop ↦ rw (stop) (ground (arith, stop, h))
      | inl again ↦
          let same : dest ≡ sector = ground (arith, again) in
          rw (again) (
            reroll_leaves n numsec sector (1 + rng 0 % numsec) (λ i. rng (suc i)) h
              (later n numsec sector dest rng same d))
    ]

two_or_more : (n : ℕ) → 1 < n → (n ≡ 2) ⊎ (2 < n)
two_or_more n h = ground (arith, h)

-- How `tryEmWarp` ended for a ship, by the flag that it returns
abbrev pub Warps : ℕ → World → Bool × World → Type 0
Warps i w (false, w') = (w' ≡ w) × ((has_in emwarp w i ≤ℤ pos 0) ⊎ (length (w.0).sectors ≤ 1))
Warps i w (true, w') =
    (pos 1 ≤ℤ has_in emwarp w i)
    × (d : ℕ) × (1 ≤ d)
    × (d < length (w.0).sectors)
    × ((d ≢ (player_at (w.0) i).sector) ⊎ (length (w.0).sectors ≡ 2))
    × (player_at (w'.0) i ≡ move_to d (adjust emwarp (negsuc 0) (player_at (w.0) i)))

add_news_players :
    (id : ℕ) (now : ℤ) (u : Universe) (i : ℕ)
    → player_at (add_news id now emwarped u) i ≡ player_at u i
unfolding add_news
add_news_players id now u i = elim (Bool-cases (unread id u)) [
  | inl e ↦ rw (e) refl
  | inr e ↦ rw (e) refl
]

module _ (tries : ℕ) (i : ℕ) (now : ℤ) (w : World) (inside : i < length (w.0).players) where
  em_warp-Warps :
      pos 1 ≤ℤ has_in emwarp w i
      → 1 < length (w.0).sectors
      → (2 < length (w.0).sectors
          → Differs (suc tries) (length (w.0).sectors - 1) (player_at (w.0) i).sector (w.1).dice)
      → Warps i w (true, em_warp tries i now w)
  unfolding em_warp destination intn
  em_warp-Warps armed large differs =
      let n = length (w.0).sectors - 1 in
      let p = adjust emwarp (negsuc 0) (player_at (w.0) i) in
      let rng = (w.1).dice in
      let d = destination tries n p.sector rng in
      let range : (1 ≤ d.0) × (d.0 ≤ n) =
        reroll_range tries n p.sector (1 + rng 0 % n) (λ k. rng (suc k)) (omega arith) (omega arith)
          (omega (arith, mod-lt (rng 0) {m = n} (omega arith))) in
      let away : (d.0 ≢ p.sector) ⊎ (length (w.0).sectors ≡ 2) =
        elim (two_or_more (length (w.0).sectors) large) [
          | inl two ↦ inr two
          | inr more ↦ inl (
              reroll_leaves tries n p.sector (1 + rng 0 % n) (λ k. rng (suc k))
                (omega (arith, more)) (first_or_later tries n p.sector rng (differs more)))
        ] in
      (
        armed,
        d.0,
        range.0,
        omega (arith, range.1),
        away,
        add_news_players p.id now (set_player i (move_to d.0 p) (w.0)) i
            ∙ get_or-set_self (w.0).players i (move_to d.0 p) nobody inside,
      )

-- `tryEmWarp` fires just for a ship that has the device, in a universe with a sector to go to: it uses
-- one up, takes the ship to another sector of the universe, or to the only one, and changes nothing
-- else of the ship. Where it does not fire it changes nothing, and the ship has no device or the
-- universe no sector. Where there are two sectors or more, one of the first `tries + 1` draws does not
-- name the ship's own.
pub try_em_warp-Warps :
    (tries : ℕ) (i : ℕ) (now : ℤ) (w : World)
    → i < length (w.0).players
    → (2 < length (w.0).sectors
        → Differs (suc tries) (length (w.0).sectors - 1) (player_at (w.0) i).sector (w.1).dice)
    → Warps i w (try_em_warp tries i now w)
unfolding try_em_warp
try_em_warp-Warps tries i now w inside differs =
    elim (Bool-cases (ltb_ℤ (has_in emwarp w i) (pos 1))) [
      | inl few ↦ rw (few) (refl, inl (omega (int_laws, ltb_ℤ→lt (has_in emwarp w i) (pos 1) few)))
      | inr some ↦ elim (Bool-cases (ltb (length (w.0).sectors - 1) 1)) [
        | inl small ↦ rw (some, small) (refl, inr (ground (arith, small)))
        | inr wide ↦
            rw (some, wide)
              (em_warp-Warps tries i now w inside (ltb_ℤ→le (has_in emwarp w i) (pos 1) some)
                (ground (arith, wide)) differs)
      ]
    ]

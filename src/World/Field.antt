-- ===== src/World/Field.antt =====
-- A mine that a ship survives in place touches nothing but the ship: pkg/galwar/combat.go.
use galwar.Base.{ℕ, suc, ◌≡◌, ◌∙◌, List, refl, arith, inl, inr, true, Bool-cases}
use galwar.Base.Int.{ℤ, pos, negsuc, ◌+ℤ◌, ◌≤ℤ◌}
use galwar.Inventory.{get_quantity, adjust_quantity}
use galwar.Inventory.Goods.{Commodity}
use galwar.Inventory.Laws.{adjusted_sum}
use galwar.Player.{absorb_mine}
use galwar.Universe.{Universe, player_at, set_player}
use galwar.Hazards.{mine_blast}
use galwar.World.{World, goes_on, unarmed, try_em_warp, blast, mine_hits}

less_one : (n : ℕ) → pos (suc n) +ℤ negsuc 0 ≡ pos n
unfolding ◌+ℤ◌
less_one n = ground arith

-- One of a good is taken from a stock that has some.
pub get_quantity-adjust_one :
    (good n : ℕ) (inv : List Commodity)
    → get_quantity good inv ≡ pos (suc n)
    → get_quantity good (adjust_quantity good (negsuc 0) inv) ≡ pos n
get_quantity-adjust_one good n inv e =
    let sum : get_quantity good inv +ℤ negsuc 0 ≡ pos n = rw (e) (less_one n) in
    let nonneg : pos 0 ≤ℤ get_quantity good inv +ℤ negsuc 0 = rw (sum) (omega arith) in
    adjusted_sum good (negsuc 0) inv nonneg ∙ sum

pub record Apart (u u' : Universe) : Type 0 where
  pub same_planets : u'.planets ≡ u.planets
  pub same_groups : u'.battlegroups ≡ u.battlegroups

module _ (tries : ℕ) where
  blast-Apart :
      (i : ℕ) (now : ℤ) (told : World → World) (w : World)
      → goes_on (blast tries i now told w).0 ≡ true
      → Apart w.0 (blast tries i now told w).1.0
  unfolding blast
  blast-Apart i now told (u, c) h =
      let m = mine_blast (player_at u i) c.dice in
      let hurt : World = (set_player i m.1 u, record c { dice = m.2 }) in
      elim (Bool-cases (unarmed hurt i)) [
        | inr armed ↦ rw (armed) (record { same_planets = refl; same_groups = refl })
        | inl lost ↦ elim (Bool-cases (try_em_warp tries i now hurt).0) [
          | inl saved ↦ absurd (cc (rw (lost, saved) at h))
          | inr doomed ↦ absurd (cc (rw (lost, doomed) at h))
        ]
      ]

  pub mine_hits-Apart :
      (i : ℕ) (now : ℤ) (told : World → World) (w : World)
      → goes_on (mine_hits tries i now told w).0 ≡ true
      → Apart w.0 (mine_hits tries i now told w).1.0
  unfolding mine_hits
  mine_hits-Apart i now told (u, c) h = elim (Bool-cases (absorb_mine (player_at u i)).0) [
    | inl stopped ↦ rw (stopped) (record { same_planets = refl; same_groups = refl })
    | inr hit ↦ rw (hit) (blast-Apart i now told (u, c) (rw (hit) at h))
  ]

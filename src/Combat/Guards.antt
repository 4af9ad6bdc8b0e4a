-- ===== src/Combat/Guards.antt =====
-- Which attacks are fought: the guards of `AttackPlayer`, pkg/galwar/combat.go.
use galwar.Base.{ℕ, ◌<◌, ◌≡◌, ◌≢◌, refl, ap, inl, inr, false, ◌&&◌, not, Option-cases, arith}
use galwar.Base.Int.{ℤ, pos, ◌≤ℤ◌}
use galwar.Float64.{Float64}
use galwar.GameError.{
  Result, Done, ok, err, ◌>>◌, modify, IsAtomic, bind_ok, bind_err, Result-cases,
}
use galwar.Inventory.Goods.{fighters}
use galwar.Player.{is_dead, has, is_cloaked, has_anti_cloak}
use galwar.Dormancy.{is_dormant}
use galwar.Universe.{Universe, player_at, index_from}
use galwar.Universe.Pointers.{index_from_finds}
use galwar.World.{World, pay}
use galwar.World.Pay.{pay-IsAtomic}
use galwar.Combat.{admit, target_of, assault, attack_player}

-- The conditions of an attack by ship `i` on ship `j`
pub record Admitted (fl : Float64) (i target j : ℕ) (commit at : ℤ) (u : Universe) : Type 0 where
  pub named : (player_at u j).id ≡ target
  pub alive : is_dead (player_at u i) ≡ false
  pub outside : 10 < (player_at u i).sector
  pub target_alive : is_dead (player_at u j) ≡ false
  pub same_sector : (player_at u j).sector ≡ (player_at u i).sector
  pub awake : is_dormant fl u.config (player_at u j) at ≡ false
  pub seen : (is_cloaked (player_at u j) && not (has_anti_cloak (player_at u i))) ≡ false
  pub other : j ≢ i
  pub some_committed : pos 1 ≤ℤ commit
  pub aboard : commit ≤ℤ has fighters (player_at u i)

record Passed (fl : Float64) (i j : ℕ) (commit at : ℤ) (u : Universe) : Type 0 where
  target_alive : is_dead (player_at u j) ≡ false
  same_sector : (player_at u j).sector ≡ (player_at u i).sector
  awake : is_dormant fl u.config (player_at u j) at ≡ false
  seen : (is_cloaked (player_at u j) && not (has_anti_cloak (player_at u i))) ≡ false
  other : j ≢ i
  some_committed : pos 1 ≤ℤ commit
  aboard : commit ≤ℤ has fighters (player_at u i)

admit-Passed :
    (fl : Float64) (i j k : ℕ) (commit at : ℤ) (u : Universe)
    → admit fl i j commit at u ≡ ok k
    → Passed fl i j commit at u × (k ≡ j)
unfolding admit
admit-Passed fl i j k commit at u h = (
  record {
    target_alive = ground (arith, h);
    same_sector = ground (arith, h);
    awake = ground (arith, h);
    seen = ground (arith, h);
    other = ground (arith, h);
    some_committed = ground (arith, h);
    aboard = ground (arith, h);
  },
  ground (arith, h),
)

target_of-Admitted :
    (fl : Float64) (i target j : ℕ) (commit at : ℤ) (u : Universe)
    → target_of fl i target commit at u ≡ ok j
    → Admitted fl i target j commit at u
unfolding target_of
target_of-Admitted fl i target j commit at u h =
    elim (Option-cases (index_from 0 target u.players)) [
      | inl e ↦ absurd (ground (arith, h, e))
      | inr (k, e) ↦
          let passes : admit fl i k commit at u ≡ ok j = ground (arith, h, e) in
          let (p, same) = admit-Passed fl i k j commit at u passes in
          rw same (record {
            named = index_from_finds target u k e;
            alive = ground (arith, h);
            outside = ground (arith, h);
            target_alive = p.target_alive;
            same_sector = p.same_sector;
            awake = p.awake;
            seen = p.seen;
            other = p.other;
            some_committed = p.some_committed;
            aboard = p.aboard;
          })
    ]

-- How an attack ended: it was fought on a target that the guards let pass, and with a turn to spend; or
-- it was refused, and the world is as it was.
abbrev pub Fights : Float64 → ℕ → ℕ → ℤ → ℤ → World → Result Done × World → Type 0
Fights fl i target commit at w (ok _, w') =
    (j : ℕ) × Admitted fl i target j commit at w.0 × ((pay i w).0 ≡ ok tt)
Fights fl i target commit at w (err e, w') = w' ≡ w

paid_for :
    (fl : Float64) (i target j : ℕ) (commit at : ℤ) (w v : World) (f : World → World)
    (r : Result Done)
    → Admitted fl i target j commit at w.0
    → pay i w ≡ (r, v)
    → (let paid : Result Done × World = (r, v) in IsAtomic w paid)
    → Fights fl i target commit at w ((pay i >> modify f) w)
paid_for fl i target j commit at w v f (ok done) a e atomic =
    rw (bind_ok (pay i) (λ _. modify f) w v done e) (j, a, ap (λ (x : Result Done × World). x.0) e)
paid_for fl i target j commit at w v f (err x) a e atomic =
    rw (bind_err (pay i) (λ _. modify f) w v x e) atomic

-- An attack is fought only by a living player outside Federation space, on a player of the given id
-- who is alive, in the same sector, awake and visible to the attacker, and not the attacker, with
-- at least one fighter committed and no more than are aboard, and with a turn to spend; any other
-- attack is refused and changes nothing.
pub attack_player-Fights :
    (tries : ℕ) (fl : Float64) (i target : ℕ) (commit at now : ℤ) (w : World)
    → Fights fl i target commit at w (attack_player tries fl i target commit at now w)
unfolding attack_player
attack_player-Fights tries fl i target commit at now w =
    elim (Result-cases (target_of fl i target commit at w.0)) [
      | inl (j, e) ↦
          rw (e, attack_player)
            (paid_for fl i target j commit at w (pay i w).1 (assault tries i j commit now)
              (pay i w).0 (target_of-Admitted fl i target j commit at w.0 e) refl
              (pay-IsAtomic i w))
      | inr (x, e) ↦ rw (e, attack_player) refl
    ]

-- ===== src/Docking/Repair.antt =====
-- What a repair at Sol does: pkg/galwar/commands.go, `SolRepair`.
use galwar.Base.{ℕ, ◌≡◌, ◌≢◌, false, ap, refl, inl, inr, ◌⊎◌, true, Bool-cases, arith}
use galwar.Base.Int.{
  ℤ, pos, negsuc, pos_part, neg_part, ◌+ℤ◌, ◌-ℤ◌, ◌*ℤ◌, ◌≤ℤ◌, ltb_ℤ, eqb_ℤ, ltb_ℤ→le, ltb_ℤ→lt,
}
use galwar.GameError.{Result, Done, ok, err, ◌>>◌, modify}
use galwar.Inventory.{at_least_zero, adjust_money}
use galwar.Config.{config_int}
use galwar.Player.{Player, total_system_damage, intact}
use galwar.Universe.{Universe, on_player, player_at, set_player, mark_dirty}
use galwar.Universe.Pointers.{set-get_or}
use galwar.Docking.{repair, sol_repair}

-- The player with every system intact and `cost` credits less.
abbrev pub repaired : ℤ → Player → Player
repaired cost p = record p { systems = intact; inv = record (p.inv) { money = p.money -ℤ cost } }

pub record Repaired {S : Type 0} (p : Player) (cost : ℤ) (want new : S) : Type 0 where
  pub damaged : total_system_damage p ≢ pos 0
  pub affordable : cost ≤ℤ p.money
  pub state : new ≡ want

-- What a repair at a cost has done to a state: it was `old`, and should become `want`.
abbrev pub Repairs : {S : Type 0} → Player → ℤ → S → S → Result Done × S → Type 0
Repairs p cost old want (ok _, new) = Repaired p cost want new
Repairs p cost old want (err e, new) =
    (new ≡ old) × ((total_system_damage p ≡ pos 0) ⊎ (p.money +ℤ pos 1 ≤ℤ cost))

eqb_ℤ→eq : (a b : ℤ) → eqb_ℤ a b ≡ true → a ≡ b
eqb_ℤ→eq (pos m) (pos n) h = ap pos (ground (arith, h))
eqb_ℤ→eq (pos m) (negsuc n) h = absurd (ground (arith, h))
eqb_ℤ→eq (negsuc m) (pos n) h = absurd (ground (arith, h))
eqb_ℤ→eq (negsuc m) (negsuc n) h = ap negsuc (ground (arith, h))

eqb_ℤ→ne : (a b : ℤ) → eqb_ℤ a b ≡ false → a ≢ b
eqb_ℤ→ne a b h e = ground (arith, h, ap pos_part e, ap neg_part e)

paid : (a b : ℤ) → b ≤ℤ a → at_least_zero (a +ℤ (pos 0 -ℤ b)) ≡ a -ℤ b
unfolding ◌-ℤ◌ ◌+ℤ◌
paid a b h = ground arith

repair-Repairs :
    (p : Player) (price : ℤ)
    → Repairs p
        (total_system_damage p *ℤ price)
        p
        (repaired (total_system_damage p *ℤ price) p)
        (repair price p)
unfolding repair adjust_money
repair-Repairs p price = elim (Bool-cases (eqb_ℤ (total_system_damage p) (pos 0))) [
  | inl whole ↦ rw (whole) (refl, inl (eqb_ℤ→eq (total_system_damage p) (pos 0) whole))
  | inr hurt ↦ elim (Bool-cases (ltb_ℤ p.money (total_system_damage p *ℤ price))) [
    | inl poor ↦
        rw (hurt, poor) (refl, inr (ltb_ℤ→lt p.money (total_system_damage p *ℤ price) poor))
    | inr enough ↦
        let h = ltb_ℤ→le p.money (total_system_damage p *ℤ price) enough in
        rw (hurt, enough)
          (record {
            damaged = eqb_ℤ→ne (total_system_damage p) (pos 0) hurt;
            affordable = h;
            state = rw (paid p.money (total_system_damage p *ℤ price) h);
          })
  ]
]

lift-Repairs :
    (i : ℕ) (u : Universe) (cost : ℤ) (want : Player) (r : Result Done × Player)
    → Repairs (player_at u i) cost (player_at u i) want r
    → Repairs
        (player_at u i)
        cost
        u
        (mark_dirty (set_player i want u))
        ((on_player i (λ _. r) >> modify mark_dirty) u)
unfolding on_player
lift-Repairs i u cost want (ok _, p') h = record {
  damaged = h.damaged;
  affordable = h.affordable;
  state = rw (h.state);
}
lift-Repairs i u cost want (err e, p') h = (rw (h.0, set-get_or u.players i _), h.1)

-- `SolRepair` at the configured price per point of damage, where there is damage and the ship can pay
-- for all of it, leaves every system intact, takes exactly the cost and changes nothing else.
-- Otherwise it is refused and changes nothing.
pub sol_repair-Repairs :
    (i : ℕ) (u : Universe)
    → Repairs
        (player_at u i)
        (total_system_damage (player_at u i) *ℤ config_int u.config "cost_of_repair" (pos 250))
        u
        (mark_dirty (
          set_player i
            (repaired
              (total_system_damage (player_at u i)
                *ℤ config_int u.config "cost_of_repair" (pos 250))
              (player_at u i))
            u))
        (sol_repair i u)
unfolding sol_repair on_player
sol_repair-Repairs i u =
    let price = config_int u.config "cost_of_repair" (pos 250) in
    lift-Repairs i u _ _ (repair price (player_at u i)) (repair-Repairs (player_at u i) price)

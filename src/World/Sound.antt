-- ===== src/World/Sound.antt =====
-- What every step of a fight keeps: pkg/galwar/combat.go and pkg/galwar/specials.go.
use galwar.Base.{ℕ, ◌==◌, ◌-◌, inl, inr, ltb, length, Bool-cases}
use galwar.Base.Int.{ℤ, pos, negsuc, ltb_ℤ}
use galwar.Inventory.{adjust_quantity}
use galwar.Inventory.Goods.{turns, emwarp}
use galwar.Inventory.Invariant.{adjust_quantity-IsStocked}
use galwar.Player.{
  Player, has, adjust, move_to, ensure_systems, spend_turn, heal_systems, num_systems,
}
use galwar.Universe.{Notice, player_at, set_player, on_player}
use galwar.Universe.Sound.{
  ShipStocked, Sound, ship-ShipStocked, set_player-Sound, set_force-Sound, add_news-Sound,
  drop_if_empty-Sound, Every-get_or, ForceStocked,
}
use galwar.Battlegroup.{force, no_group, drop_if_empty}
use galwar.World.{
  World, with_universe, alter, report_to, pay, has_in, adjust_force, destination, em_warp,
  try_em_warp,
}

pub adjust-ShipStocked :
    (good : ℕ) (amount : ℤ) (p : Player) → ShipStocked p → ShipStocked (adjust good amount p)
adjust-ShipStocked good amount p h = adjust_quantity-IsStocked good amount p.inv.inventory h

pub alter-Sound :
    (i : ℕ) (f : Player → Player) (w : World)
    → ((p : Player) → ShipStocked p → ShipStocked (f p))
    → Sound w.0
    → Sound (alter i f w).0
alter-Sound i f (u, c) keeps s =
    set_player-Sound i (f (player_at u i)) u (keeps (player_at u i) (ship-ShipStocked i u s)) s

pub report_to-Sound :
    (id : ℕ) (now : ℤ) (msg : Notice) (w : World) → Sound w.0 → Sound (report_to id now msg w).0
report_to-Sound id now msg (u, c) s = add_news-Sound id now msg u s

pub adjust_force-Sound :
    (k good : ℕ) (amount : ℤ) (w : World) → Sound w.0 → Sound (adjust_force k good amount w).0
adjust_force-Sound k good amount (u, c) s =
    set_force-Sound k (adjust_quantity good amount (force u k)) u
      (adjust_quantity-IsStocked good amount (force u k)
        (Every-get_or ForceStocked u.battlegroups k no_group tt s.forces))
      s

pub drop-Sound : (k : ℕ) (w : World) → Sound w.0 → Sound (with_universe (drop_if_empty k) w).0
drop-Sound k (u, c) s = drop_if_empty-Sound k u s

pub ensure_systems-ShipStocked : (p : Player) → ShipStocked p → ShipStocked (ensure_systems p)
unfolding ensure_systems
ensure_systems-ShipStocked p h = elim (Bool-cases (length p.systems == num_systems)) [
  | inl e ↦ rw (e) h
  | inr e ↦ rw (e) h
]

module _ (tries : ℕ) where
  em_warp-Sound : (i : ℕ) (now : ℤ) (w : World) → Sound w.0 → Sound (em_warp tries i now w).0
  unfolding em_warp move_to
  em_warp-Sound i now (u, c) s =
      let p = adjust emwarp (negsuc 0) (player_at u i) in
      let d = destination tries (length u.sectors - 1) p.sector c.dice in
      let kept = adjust-ShipStocked emwarp (negsuc 0) (player_at u i) (ship-ShipStocked i u s) in
      add_news-Sound p.id now _ (set_player i (move_to d.0 p) u)
        (set_player-Sound i (move_to d.0 p) u kept s)

  pub try_em_warp-Sound :
      (i : ℕ) (now : ℤ) (w : World) → Sound w.0 → Sound (try_em_warp tries i now w).1.0
  unfolding try_em_warp
  try_em_warp-Sound i now w s = elim (Bool-cases (ltb_ℤ (has_in emwarp w i) (pos 1))) [
    | inl e ↦ rw (e) s
    | inr e ↦ elim (Bool-cases (ltb (length (w.0).sectors - 1) 1)) [
      | inl f ↦ rw (e, f) s
      | inr f ↦ rw (e, f) (em_warp-Sound i now w s)
    ]
  ]

spend_turn-ShipStocked : (p : Player) → ShipStocked p → ShipStocked (spend_turn p).1
unfolding spend_turn heal_systems
spend_turn-ShipStocked p h = elim (Bool-cases (ltb_ℤ (has turns p) (pos 1))) [
  | inl e ↦ elim (Bool-cases (ltb_ℤ (pos 0) p.banked_turns)) [
    | inl f ↦ rw (e, f) h
    | inr f ↦ rw (e, f) h
  ]
  | inr e ↦ rw (e) (adjust-ShipStocked turns (negsuc 0) p h)
]

pub pay-Sound : (i : ℕ) (w : World) → Sound w.0 → Sound (pay i w).1.0
unfolding pay on_player
pay-Sound i (u, c) s =
    set_player-Sound i _ u (spend_turn-ShipStocked (player_at u i) (ship-ShipStocked i u s)) s

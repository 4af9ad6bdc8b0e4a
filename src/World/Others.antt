-- ===== src/World/Others.antt =====
-- What a step against one ship leaves of another: pkg/galwar/combat.go.
use galwar.Base.{ℕ, ◌-◌, ◌≢◌, refl, inl, inr, length, ltb, Bool-cases, arith}
use galwar.Base.Int.{ℤ, pos, negsuc, ltb_ℤ}
use galwar.Inventory.{has_inventory}
use galwar.Inventory.Goods.{emwarp}
use galwar.Player.{Player, adjust, move_to}
use galwar.Universe.{Notice, player_at, set_player, emwarped}
use galwar.News.{add_news, unread}
use galwar.Battlegroup.{force, drop_if_empty}
use galwar.Death.Spares.{Spares, Spares-refl, Spares-trans, set_player-Spares}
use galwar.World.{World, with_universe, alter, report_to, has_in, destination, em_warp, try_em_warp}

pub report_to-Spares :
    (i id : ℕ) (now : ℤ) (msg : Notice) (w : World) → Spares i w.0 (report_to id now msg w).0
unfolding add_news
report_to-Spares i id now msg (u, c) = elim (Bool-cases (unread id u)) [
  | inl e ↦ rw (e) (Spares-refl i u)
  | inr e ↦ rw (e) (record { same_ship = refl; no_fewer = omega arith })
]

pub drop-Spares : (i k : ℕ) (w : World) → Spares i w.0 (with_universe (drop_if_empty k) w).0
drop-Spares i k (u, c) = elim (Bool-cases (has_inventory (force u k))) [
  | inl e ↦ rw (e) (Spares-refl i u)
  | inr e ↦ rw (e) (record { same_ship = refl; no_fewer = omega arith })
]

pub alter-Spares :
    (i j : ℕ) (f : Player → Player) (w : World) → j ≢ i → Spares i w.0 (alter j f w).0
alter-Spares i j f (u, c) ne = set_player-Spares i j (f (player_at u j)) u ne

em_warp-Spares :
    (tries i j : ℕ) (now : ℤ) (w : World) → j ≢ i → Spares i w.0 (em_warp tries j now w).0
unfolding em_warp
em_warp-Spares tries i j now (u, c) ne =
    let p = adjust emwarp (negsuc 0) (player_at u j) in
    let d = destination tries (length u.sectors - 1) p.sector c.dice in
    let v = set_player j (move_to d.0 p) u in
    Spares-trans i u v (add_news p.id now emwarped v) (set_player-Spares i j (move_to d.0 p) u ne)
      (report_to-Spares i p.id now emwarped (v, c))

pub try_em_warp-Spares :
    (tries i j : ℕ) (now : ℤ) (w : World) → j ≢ i → Spares i w.0 (try_em_warp tries j now w).1.0
unfolding try_em_warp
try_em_warp-Spares tries i j now w ne = elim (Bool-cases (ltb_ℤ (has_in emwarp w j) (pos 1))) [
  | inl e ↦ rw (e) (Spares-refl i w.0)
  | inr e ↦ elim (Bool-cases (ltb (length (w.0).sectors - 1) 1)) [
    | inl f ↦ rw (e, f) (Spares-refl i w.0)
    | inr f ↦ rw (e, f) (em_warp-Spares tries i j now w ne)
  ]
]

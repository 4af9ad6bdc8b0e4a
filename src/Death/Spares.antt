-- ===== src/Death/Spares.antt =====
-- A death changes no other player's record: pkg/galwar/death.go, `KillPlayer`.
use galwar.Base.{ℕ, ◌≤◌, ◌<◌, ◌≡◌, ◌≢◌, refl, ◌∙◌, inl, inr, length, length-set, Bool-cases, arith}
use galwar.Base.Int.{ℤ, pos, ◌+ℤ◌}
use galwar.Player.{Player, is_dead, move_to}
use galwar.Universe.{Universe, player_at, set_player, nobody}
use galwar.Universe.Pointers.{get_or-set_ne}
use galwar.Death.{Chance, renegades, ensure_npc, hand_over, forfeit_assets, kill_player}
use galwar.Death.Kill.{ensure_npc-Keeps, revolts-Keeps}

-- A pointer shows the record that it showed, and the players are no fewer.
pub record Spares (i : ℕ) (u u' : Universe) : Type 0 where
  pub same_ship : player_at u' i ≡ player_at u i
  pub no_fewer : length u.players ≤ length u'.players

pub Spares-refl : (i : ℕ) (u : Universe) → Spares i u u
Spares-refl i u = record { same_ship = refl; no_fewer = omega arith }

pub Spares-trans : (i : ℕ) (u v w : Universe) → Spares i u v → Spares i v w → Spares i u w
Spares-trans i u v w k l = record {
  same_ship = l.same_ship ∙ k.same_ship;
  no_fewer = omega (arith, k.no_fewer, l.no_fewer);
}

pub set_player-Spares :
    (i j : ℕ) (p : Player) (u : Universe) → j ≢ i → Spares i u (set_player j p u)
set_player-Spares i j p u ne = record {
  same_ship = get_or-set_ne u.players j i p nobody ne;
  no_fewer = omega (arith, length-set u.players j p);
}

forfeit_assets-Spares :
    (i j : ℕ) (now : ℤ) (u : Universe) (c : Chance)
    → i < length u.players
    → Spares i u (forfeit_assets j now (u, c)).0
unfolding forfeit_assets
forfeit_assets-Spares i j now u c h =
    let id = (player_at u j).id in
    let r = ensure_npc renegades (u, c.ids) in
    let grown = ensure_npc-Keeps renegades i u c.ids h in
    let heir = (player_at r.1 r.0).id in
    let w : Universe = record (r.1) { battlegroups = hand_over id heir (r.1).battlegroups } in
    let k =
      revolts-Keeps (length u.planets) id 0 now i w (record c { ids = r.2 })
        (omega (arith, grown.no_fewer)) in
    record {
      same_ship = k.same_player ∙ grown.same_player;
      no_fewer = omega (arith, k.no_fewer, grown.no_fewer);
    }

pub kill_player-Spares :
    (i j : ℕ) (now : ℤ) (w : Universe × Chance)
    → j ≢ i
    → i < length (w.0).players
    → Spares i w.0 (kill_player j now w).0
unfolding kill_player
kill_player-Spares i j now (u, c) ne h = elim (Bool-cases (is_dead (player_at u j))) [
  | inl dead ↦ rw (dead) (Spares-refl i u)
  | inr alive ↦
      let p = player_at u j in
      let q = record p { times_died = p.times_died +ℤ pos 1; died_at = now } in
      let v = set_player j q u in
      let marked = set_player-Spares i j q u ne in
      let f = forfeit_assets j now (v, c) in
      let lost = forfeit_assets-Spares i j now v c (omega (arith, marked.no_fewer)) in
      let moved = set_player-Spares i j (move_to 0 (player_at f.0 j)) f.0 ne in
      let all = Spares-trans i u v f.0 marked lost in
      let done = Spares-trans i u f.0 _ all moved in
      rw (alive) (record { same_ship = done.same_ship; no_fewer = done.no_fewer })
]

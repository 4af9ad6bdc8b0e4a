-- ===== src/Death/Sound.antt =====
-- Deaths and forfeitures keep every quantity: pkg/galwar/death.go.
use galwar.Base.{
  ℕ, zero, suc, ◌+◌, inl, inr, List, [], ◌∷◌, ◌==◌, length, if◌then◌else◌, Bool-cases, Option-cases,
}
use galwar.Base.Int.{ℤ, pos, ◌+ℤ◌}
use galwar.Rng.{Rng, intn}
use galwar.Player.{is_dead, move_to}
use galwar.Universe.{Universe, Battlegroup, player_at, set_player, planet_revolted}
use galwar.Universe.Sound.{
  Every, Every-snoc, Every-get_or, ShipStocked, ForceStocked, StoreStocked, Sound, ship-ShipStocked,
  set_player-Sound, set_planet-Sound, add_news-Sound,
}
use galwar.Planet.{no_planet, planet_at}
use galwar.Death.{
  Chance, Faction, renegades, cabal, federation, give_planet, ensure_npc, npc_record, hand_over,
  revolt, revolts, forfeit_assets, kill_player, index_of_sub, sub_of,
}

ensure_npc-Sound :
    (kind : Faction) (u : Universe) (ids : Rng) → Sound u → Sound (ensure_npc kind (u, ids)).1
unfolding ensure_npc npc_record
ensure_npc-Sound kind u ids s = elim (Option-cases (index_of_sub 0 (sub_of kind) u.players)) [
  | inl e ↦
      rw (e, ensure_npc)
        (record {
          ships = Every-snoc ShipStocked u.players (npc_record kind (ids 0)) tt s.ships;
          forces = s.forces;
          stores = s.stores;
        })
  | inr (j, e) ↦ rw (e, ensure_npc) s
]

hand_over-ForceStocked :
    (old new : ℕ) (bs : List Battlegroup)
    → Every ForceStocked bs
    → Every ForceStocked (hand_over old new bs)
unfolding hand_over
hand_over-ForceStocked old new [] all = tt
hand_over-ForceStocked old new (b ∷ bs) all = elim (Bool-cases (b.owner == old)) [
  | inl e ↦ rw (e) (all.0, hand_over-ForceStocked old new bs all.1)
  | inr e ↦ rw (e) (all.0, hand_over-ForceStocked old new bs all.1)
]

revolt-Sound :
    (id j : ℕ) (now : ℤ) (u : Universe) (c : Chance) → Sound u → Sound (revolt id j now (u, c)).0
unfolding revolt
revolt-Sound id j now u c s = elim (Bool-cases ((planet_at u j).owner == id)) [
  | inr other ↦ rw (other) s
  | inl mine ↦
      let kind : Faction = if (intn 2 c.dice).0 == 0 then cabal else federation in
      let grown = ensure_npc-Sound kind u c.ids s in
      let v : Universe = (ensure_npc kind (u, c.ids)).1 in
      let heir = (player_at v (ensure_npc kind (u, c.ids)).0).id in
      let kept = Every-get_or StoreStocked v.planets j no_planet tt grown.stores in
      rw (mine) (
        add_news-Sound id now planet_revolted (give_planet j heir v)
          (set_planet-Sound j (record (planet_at v j) { owner = heir }) v kept grown))
]

revolts-Sound :
    (n id j : ℕ) (now : ℤ) (u : Universe) (c : Chance)
    → Sound u
    → Sound (revolts n id j now (u, c)).0
unfolding revolts
revolts-Sound zero id j now u c s = s
revolts-Sound (suc n) id j now u c s =
    let r = revolt id j now (u, c) in
    revolts-Sound n id (j + 1) now r.0 r.1 (revolt-Sound id j now u c s)

forfeit_assets-Sound :
    (i : ℕ) (now : ℤ) (u : Universe) (c : Chance) → Sound u → Sound (forfeit_assets i now (u, c)).0
unfolding forfeit_assets
forfeit_assets-Sound i now u c s =
    let id = (player_at u i).id in
    let r = ensure_npc renegades (u, c.ids) in
    let grown = ensure_npc-Sound renegades u c.ids s in
    let heir = (player_at r.1 r.0).id in
    let v : Universe = record (r.1) { battlegroups = hand_over id heir (r.1).battlegroups } in
    revolts-Sound (length u.planets) id 0 now v (record c { ids = r.2 })
      (record {
        ships = grown.ships;
        forces = hand_over-ForceStocked id heir (r.1).battlegroups grown.forces;
        stores = grown.stores;
      })

-- A death leaves every quantity as it was.
pub kill_player-Sound :
    (i : ℕ) (now : ℤ) (w : Universe × Chance) → Sound w.0 → Sound (kill_player i now w).0
unfolding kill_player move_to
kill_player-Sound i now (u, c) s = elim (Bool-cases (is_dead (player_at u i))) [
  | inl dead ↦ rw (dead) s
  | inr alive ↦
      let p = player_at u i in
      let q = record p { times_died = p.times_died +ℤ pos 1; died_at = now } in
      let mine = ship-ShipStocked i u s in
      let v = set_player i q u in
      let f = forfeit_assets i now (v, c) in
      let lost = forfeit_assets-Sound i now v c (set_player-Sound i q u mine s) in
      let there = ship-ShipStocked i f.0 lost in
      let moved = set_player-Sound i (move_to 0 (player_at f.0 i)) f.0 there lost in
      rw (alive) (record { ships = moved.ships; forces = moved.forces; stores = moved.stores })
]

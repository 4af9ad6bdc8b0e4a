-- ===== src/Death/Kill.antt =====
-- What a death does: pkg/galwar/death.go, `KillPlayer` and `forfeitAssets`.
use galwar.Base.{
  ◌⊎◌, ℕ, zero, suc, ◌+◌, ◌<◌, ◌≤◌, ◌≡◌, ◌≢◌, refl, ap, sym, inl, inr, ◌∙◌, Bool, true, false, ◌||◌,
  Bool-cases, Option-cases, none, some, List, [], ◌∷◌, ◌++◌, ◌==◌, length, length-append,
  length-set, get_or, set, if◌then◌else◌, arith,
}
use galwar.Base.Int.{ℤ, pos, ◌+ℤ◌}
use Prim.Native.String.{String}
use galwar.Rng.{Rng, intn}
use galwar.Player.{Player, is_dead, move_to}
use galwar.Universe.{
  Universe, Battlegroup, Notice, player_at, planet_revolted, set_player, mark_dirty, nobody,
}
use galwar.Universe.Pointers.{get_or-set_self}
use galwar.News.{add_news, unread}
use galwar.Planet.{planet_at}
use galwar.Death.{
  Chance, Faction, renegades, cabal, federation, give_planet, sub_of, index_of_sub, npc_record,
  ensure_npc, hand_over, revolt, revolts, forfeit_assets, kill_player,
}

get_or-append {ℓ} :
    {A : Type ℓ} (xs ys : List A) (i : ℕ) (d : A)
    → i < length xs
    → get_or (xs ++ ys) i d ≡ get_or xs i d
get_or-append [] ys i d h = absurd (omega arith)
get_or-append (x ∷ xs) ys zero d h = refl
get_or-append (x ∷ xs) ys (suc i) d h = get_or-append xs ys i d (omega arith)

-- What a step of forfeiture keeps: the record that a pointer shows, and the battlegroups.
pub record Keeps (i : ℕ) (u u' : Universe) : Type 0 where
  pub same_player : player_at u' i ≡ player_at u i
  pub no_fewer : length u.players ≤ length u'.players
  pub same_groups : u'.battlegroups ≡ u.battlegroups

Keeps-refl : (i : ℕ) (u : Universe) → Keeps i u u
Keeps-refl i u = record { same_player = refl; no_fewer = omega arith; same_groups = refl }

Keeps-trans : (i : ℕ) (u v w : Universe) → Keeps i u v → Keeps i v w → Keeps i u w
Keeps-trans i u v w k l = record {
  same_player = l.same_player ∙ k.same_player;
  no_fewer = omega (arith, k.no_fewer, l.no_fewer);
  same_groups = l.same_groups ∙ k.same_groups;
}

pub ensure_npc-Keeps :
    (kind : Faction) (i : ℕ) (u : Universe) (ids : Rng)
    → i < length u.players
    → Keeps i u (ensure_npc kind (u, ids)).1
unfolding ensure_npc
ensure_npc-Keeps kind i u ids h = elim (Option-cases (index_of_sub 0 (sub_of kind) u.players)) [
  | inl e ↦
      rw (e, ensure_npc)
        (record {
          same_player = get_or-append u.players _ i nobody h;
          no_fewer = omega (arith, length-append u.players (npc_record kind (ids 0) ∷ []));
          same_groups = refl;
        })
  | inr (j, e) ↦ rw (e, ensure_npc) (Keeps-refl i u)
]

add_news-Keeps :
    (id : ℕ) (now : ℤ) (msg : Notice) (i : ℕ) (u : Universe) → Keeps i u (add_news id now msg u)
unfolding add_news
add_news-Keeps id now msg i u = elim (Bool-cases (unread id u)) [
  | inl e ↦ rw (e) (Keeps-refl i u)
  | inr e ↦ rw (e) (record { same_player = refl; no_fewer = omega arith; same_groups = refl })
]

revolt-Keeps :
    (id j : ℕ) (now : ℤ) (i : ℕ) (u : Universe) (c : Chance)
    → i < length u.players
    → Keeps i u (revolt id j now (u, c)).0
unfolding revolt
revolt-Keeps id j now i u c h = elim (Bool-cases ((planet_at u j).owner == id)) [
  | inr other ↦ rw (other) (Keeps-refl i u)
  | inl mine ↦
      let kind : Faction = if (intn 2 c.dice).0 == 0 then cabal else federation in
      let grown = ensure_npc-Keeps kind i u c.ids h in
      let given : Keeps i u (
          give_planet j (player_at (ensure_npc kind (u, c.ids)).1 (ensure_npc kind (u, c.ids)).0).id
            (ensure_npc kind (u, c.ids)).1) =
        record {
          same_player = grown.same_player;
          no_fewer = grown.no_fewer;
          same_groups = grown.same_groups;
        } in
      rw (mine) (Keeps-trans i u _ _ given (add_news-Keeps id now planet_revolted i _))
]

pub revolts-Keeps :
    (n id j : ℕ) (now : ℤ) (i : ℕ) (u : Universe) (c : Chance)
    → i < length u.players
    → Keeps i u (revolts n id j now (u, c)).0
unfolding revolts
revolts-Keeps zero id j now i u c h = Keeps-refl i u
revolts-Keeps (suc n) id j now i u c h =
    let step = revolt-Keeps id j now i u c h in
    let (v, c') = revolt id j now (u, c) in
    Keeps-trans i u (revolt id j now (u, c)).0 _ step (
      revolts-Keeps n id (j + 1) now i (revolt id j now (u, c)).0 (revolt id j now (u, c)).1
        (omega (arith, step.no_fewer)))

-- Some group of the list has the owner.
pub defended_by : ℕ → List Battlegroup → Bool
defended_by id [] = false
defended_by id (b ∷ bs) = (b.owner == id) || defended_by id bs

defended_by-hand_over :
    (old new : ℕ) (bs : List Battlegroup)
    → new ≢ old
    → defended_by old (hand_over old new bs) ≡ false
unfolding defended_by hand_over
defended_by-hand_over old new [] h = refl
defended_by-hand_over old new (b ∷ bs) h = ground (arith, h, defended_by-hand_over old new bs h)

-- The id of the Renegades, once they are there.
pub renegades_id : Universe → Rng → ℕ
unfolding ensure_npc
renegades_id u ids =
    (player_at (ensure_npc renegades (u, ids)).1 (ensure_npc renegades (u, ids)).0).id

-- What a forfeiture has done.
pub record Forfeited (i : ℕ) (u u' : Universe) : Type 0 where
  pub same_player : player_at u' i ≡ player_at u i
  pub still_there : length u.players ≤ length u'.players
  pub none_defended : defended_by (player_at u i).id u'.battlegroups ≡ false

forfeit_assets-Forfeited :
    (i : ℕ) (now : ℤ) (u : Universe) (c : Chance)
    → i < length u.players
    → renegades_id u c.ids ≢ (player_at u i).id
    → Forfeited i u (forfeit_assets i now (u, c)).0
unfolding forfeit_assets renegades_id
forfeit_assets-Forfeited i now u c h ne =
    let id = (player_at u i).id in
    let grown = ensure_npc-Keeps renegades i u c.ids h in
    let v : Universe = (ensure_npc renegades (u, c.ids)).1 in
    let heir = (player_at v (ensure_npc renegades (u, c.ids)).0).id in
    let w : Universe = record v { battlegroups = hand_over id heir v.battlegroups } in
    let r =
      revolts-Keeps (length u.planets) id 0 now i w
        (record c { ids = (ensure_npc renegades (u, c.ids)).2 }) (omega (arith, grown.no_fewer)) in
    record {
      same_player = r.same_player ∙ grown.same_player;
      still_there = omega (arith, r.no_fewer, grown.no_fewer);
      none_defended =
          ap (defended_by id) r.same_groups ∙ defended_by-hand_over id heir v.battlegroups ne;
    }

-- The record of a player at the moment of death
abbrev dying : ℤ → Player → Player
dying now p = record p { times_died = p.times_died +ℤ pos 1; died_at = now }

index_of_sub-set :
    (k : ℕ) (sub : String) (ps : List Player) (i : ℕ) (now : ℤ)
    → index_of_sub k sub (set ps i (dying now (get_or ps i nobody))) ≡ index_of_sub k sub ps
unfolding index_of_sub
index_of_sub-set k sub [] i now = refl
index_of_sub-set k sub (p ∷ ps) zero now = refl
index_of_sub-set k sub (p ∷ ps) (suc i) now = rw (index_of_sub-set (k + 1) sub ps i now) refl

id-set :
    (ps : List Player) (i j : ℕ) (now : ℤ)
    → (get_or (set ps i (dying now (get_or ps i nobody))) j nobody).id ≡ (get_or ps j nobody).id
id-set [] i j now = refl
id-set (p ∷ ps) zero zero now = refl
id-set (p ∷ ps) zero (suc j) now = refl
id-set (p ∷ ps) (suc i) zero now = refl
id-set (p ∷ ps) (suc i) (suc j) now = id-set ps i j now

get_or-last {ℓ} : {A : Type ℓ} (xs : List A) (v d : A) → get_or (xs ++ (v ∷ [])) (length xs) d ≡ v
get_or-last [] v d = refl
get_or-last (x ∷ xs) v d = get_or-last xs v d

abbrev dying_in : ℕ → ℤ → Universe → Universe
dying_in i now u = set_player i (dying now (player_at u i)) u

renegades_found :
    (u : Universe) (ids : Rng) (j : ℕ)
    → index_of_sub 0 (sub_of renegades) u.players ≡ some j
    → renegades_id u ids ≡ (player_at u j).id
unfolding renegades_id ensure_npc
renegades_found u ids j e = rw (e, renegades_id, ensure_npc) refl

pub renegades_new :
    (u : Universe) (ids : Rng)
    → index_of_sub 0 (sub_of renegades) u.players ≡ none
    → renegades_id u ids ≡ ids 0
unfolding renegades_id ensure_npc npc_record
renegades_new u ids e =
    rw (e, renegades_id, ensure_npc)
      (ap (λ (p : Player). p.id) (get_or-last u.players (npc_record renegades (ids 0)) nobody))

renegades_id-dying :
    (i : ℕ) (now : ℤ) (u : Universe) (ids : Rng)
    → renegades_id (dying_in i now u) ids ≡ renegades_id u ids
renegades_id-dying i now u ids =
    let same = index_of_sub-set 0 (sub_of renegades) u.players i now in
    elim (Option-cases (index_of_sub 0 (sub_of renegades) u.players)) [
      | inr (j, e) ↦
          renegades_found (dying_in i now u) ids j (same ∙ e)
          ∙ id-set u.players i j now
          ∙ sym (renegades_found u ids j e)
      | inl e ↦ renegades_new (dying_in i now u) ids (same ∙ e) ∙ sym (renegades_new u ids e)
    ]

-- A universe after a player's death.
pub record Killed (i : ℕ) (now : ℤ) (u u' : Universe) : Type 0 where
  pub state : player_at u' i ≡ record (player_at u i) {
    times_died = (player_at u i).times_died +ℤ pos 1;
    died_at = now;
    sector = 0;
  }
  pub none_defended : defended_by (player_at u i).id u'.battlegroups ≡ false
  pub changed : u'.dirty ≡ true

-- What `KillPlayer` has done: nothing to a player who was dead.
abbrev pub Kills : ℕ → ℤ → Universe × Chance → Universe × Chance → Type 0
Kills i now (u, c) (u', c') =
    ((is_dead (player_at u i) ≡ true) × (u' ≡ u))
    ⊎ ((is_dead (player_at u i) ≡ false) × Killed i now u u')

killed :
    (i : ℕ) (now : ℤ) (u : Universe) (c : Chance)
    → i < length u.players
    → renegades_id u c.ids ≢ (player_at u i).id
    → Killed i now u (
        mark_dirty (
          set_player i
            (move_to 0 (player_at (forfeit_assets i now (dying_in i now u, c)).0 i))
            (forfeit_assets i now (dying_in i now u, c)).0))
unfolding move_to
killed i now u c h ne =
    let at_death = get_or-set_self u.players i (dying now (player_at u i)) nobody h in
    let f =
      forfeit_assets-Forfeited i now (dying_in i now u) c
        (omega (arith, length-set u.players i (dying now (player_at u i))))
        (λ e.
          ne (sym (renegades_id-dying i now u c.ids) ∙ e ∙ ap (λ (p : Player). p.id) at_death)) in
    let v : Universe = (forfeit_assets i now (dying_in i now u, c)).0 in
    record {
      state =
          get_or-set_self v.players i _ nobody
            (omega (arith, f.still_there, length-set u.players i (dying now (player_at u i))))
          ∙ ap (λ (p : Player). record p { sector = 0 }) (f.same_player ∙ at_death);
      none_defended =
          ap (λ (p : Player). defended_by p.id v.battlegroups) (sym at_death) ∙ f.none_defended;
      changed = refl;
    }

-- The death of a living player, who is not the Renegades themselves, is recorded with its time, counts
-- as one more, and moves the ship to sector 0; nothing else of the player's record changes, and no
-- battlegroup is the player's any more. A player who is dead already is left alone.
pub kill_player-Kills :
    (i : ℕ) (now : ℤ) (u : Universe) (c : Chance)
    → i < length u.players
    → renegades_id u c.ids ≢ (player_at u i).id
    → Kills i now (u, c) (kill_player i now (u, c))
unfolding kill_player
kill_player-Kills i now u c h ne = elim (Bool-cases (is_dead (player_at u i))) [
  | inl dead ↦ rw (dead) (inl (refl, refl))
  | inr alive ↦ rw (alive) (inr (refl, killed i now u c h ne))
]

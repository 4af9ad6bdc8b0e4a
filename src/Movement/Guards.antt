-- ===== src/Movement/Guards.antt =====
-- Which moves are made: the guards of `MovePlayer`, pkg/galwar/commands.go.
use galwar.Base.{
  Bool, if◌then◌else◌, ap, ◌∙◌, ℕ, ◌<◌, ◌≤◌, ◌≡◌, refl, ◌⊎◌, inl, inr, true, false, none, some,
  Option-cases, length-set, length, sym, arith,
}
use mathlib.Core.Path.{subst}
use galwar.Base.Int.{ℤ}
use galwar.GameError.{Result, Done, ok, err, ◌>>◌, modify, Result-cases}
use galwar.Player.{Player, is_dead, sys_engines, move_to, ensure_systems}
use galwar.Universe.{Universe, player_at, nobody, mark_dirty}
use galwar.Sector.{has_warp, sector_at}
use galwar.Universe.Pointers.{get_or-set_self}
use galwar.Hazards.{hostile_battlegroup}
use galwar.World.{World, check, pay, alter, hostile, with_universe}
use galwar.World.Orders.{checked, Intact, after_check, paid_order, then_assoc, pay_players}
use galwar.Movement.{may_move, travel, enter, arrive, move_player}

-- What a move to `dest` asks of the ship, whatever its engines
pub record Allowed (i dest : ℕ) (u : Universe) : Type 0 where
  pub alive : is_dead (player_at u i) ≡ false
  pub from_in_range : (1 ≤ (player_at u i).sector) × ((player_at u i).sector < length u.sectors)
  pub to_in_range : (1 ≤ dest) × (dest < length u.sectors)
  pub warp : has_warp dest (sector_at u (player_at u i).sector) ≡ true

may_move-Allowed : (i dest : ℕ) (u : Universe) → may_move i dest u ≡ ok tt → Allowed i dest u
unfolding may_move
may_move-Allowed i dest u h = record {
  alive = ground (arith, h);
  from_in_range = (ground (arith, h), ground (arith, h));
  to_in_range = (ground (arith, h), ground (arith, h));
  warp = ground (arith, h);
}

-- How a move ended: it was made, by a ship that may and for a turn; or it was refused.
pub record Made (i dest : ℕ) (w : World) : Type 0 where
  pub allowed : Allowed i dest w.0
  pub engines : Intact i sys_engines w
  pub turn_spent : (pay i (checked i w)).0 ≡ ok tt

-- Where no hostile force is in the way, the ship is at `dest`, and nothing else of it changes but
-- that it has moved.
abbrev pub Arrives : ℕ → ℕ → World → World → Type 0
Arrives i dest w w' =
    ((hostile i dest w ≡ none)
      × (player_at (w'.0) i ≡ move_to dest (record (player_at (w.0) i) { ever_moved = true })))
    ⊎ ((k : ℕ) × (hostile i dest w ≡ some k))

enter-free :
    (tries i dest : ℕ) (now : ℤ) (w : World)
    → hostile i dest w ≡ none
    → enter tries i dest now w ≡ (true, w)
unfolding enter
enter-free tries i dest now w e = rw (e, enter) refl

arrive-free :
    (tries i dest : ℕ) (now : ℤ) (w : World)
    → hostile i dest (alter i (move_to dest) w) ≡ none
    → arrive tries i dest now w ≡ alter i (move_to dest) w
unfolding arrive
arrive-free tries i dest now w e = rw (e, arrive) refl

module _ (i dest : ℕ) (w : World) (inside : i < length (w.0).players) where
  abbrev underway : World
  underway = alter i (λ p. record p { ever_moved = true }) w

  abbrev arrived : World
  arrived = alter i (move_to dest) underway

  ship_underway : player_at (underway.0) i ≡ record (player_at (w.0) i) { ever_moved = true }
  ship_underway = get_or-set_self (w.0).players i _ nobody inside

  ship_arrived : player_at (arrived.0) i ≡ move_to dest (player_at (underway.0) i)
  ship_arrived = get_or-set_self (underway.0).players i _ nobody (
      omega (
        arith,
        length-set (w.0).players i (record (player_at (w.0) i) { ever_moved = true }),
        inside,
      ))

  travel-clear :
      (tries : ℕ) (now : ℤ)
      → hostile i dest underway ≡ none
      → hostile i dest arrived ≡ none
      → travel tries i dest now w ≡ with_universe mark_dirty arrived
  unfolding travel
  travel-clear tries now free clear =
      ap
        (λ (r : Bool × World).
          with_universe mark_dirty (if r.0 then arrive tries i dest now r.1 else r.1))
        (enter-free tries i dest now underway free)
      ∙ ap (with_universe mark_dirty) (arrive-free tries i dest now underway clear)

  travel-Arrives : (tries : ℕ) (now : ℤ) → Arrives i dest w (travel tries i dest now w)
  unfolding move_to
  travel-Arrives tries now = elim (Option-cases (hostile i dest w)) [
    | inr (k, e) ↦ inr (k, e)
    | inl e ↦
        let free : hostile i dest underway ≡ none =
          ap (λ (p : Player). hostile_battlegroup p.id dest 0 (w.0).battlegroups) ship_underway
          ∙ e in
        let clear : hostile i dest arrived ≡ none =
          ap (λ (p : Player). hostile_battlegroup p.id dest 0 (w.0).battlegroups)
            (ship_arrived ∙ ap (move_to dest) ship_underway)
          ∙ e in
        let at_dest : player_at (arrived.0) i
            ≡ move_to dest (record (player_at (w.0) i) { ever_moved = true }) =
          ship_arrived ∙ ap (move_to dest) ship_underway in
        inl (e, ap (λ (v : World). player_at (v.0) i) (travel-clear tries now free clear) ∙ at_dest)
  ]

abbrev pub Moves : ℕ → ℕ → World → Result Done × World → Type 0
Moves i dest w (ok _, w') =
    Made i dest w × (w'.0.dirty ≡ true) × Arrives i dest (pay i (checked i w)).1 w'
Moves i dest w (err e, w') = (w' ≡ w) ⊎ (w' ≡ checked i w)

there :
    (i : ℕ) (w : World) → i < length (w.0).players → i < length ((pay i (checked i w)).1.0).players
there i w inside = omega (
  arith,
  pay_players i (checked i w),
  length-set (w.0).players i (ensure_systems (player_at (w.0) i)),
  inside,
)

-- A move is made only by a living player with undamaged engines, from a sector of the universe to
-- another that a warp of his own sector leads to, and for a turn, and the universe is marked as
-- changed. Where no hostile force is there, the ship is in that sector afterwards, and only what
-- the turn and the check did to it, its place and the mark that it has moved have changed. Any
-- other move is refused and writes nothing, but that the check of the engines may fill in the
-- ship's list of systems.
pub move_player-Moves :
    (tries i dest : ℕ) (now : ℤ) (w : World)
    → i < length (w.0).players
    → Moves i dest w (move_player tries i dest now w)
unfolding move_player
move_player-Moves tries i dest now w inside = elim (Result-cases (may_move i dest w.0)) [
  | inr (x, e) ↦ rw (e, move_player) (inl refl)
  | inl (d, e) ↦
      rw (e, move_player)
        (subst (Moves i dest w)
          (sym (then_assoc (check i sys_engines) (pay i) (modify (travel tries i dest now)) w))
          (after_check i sys_engines w (pay i >> modify (travel tries i dest now)) (Moves i dest w)
            (λ intact.
              paid_order i (checked i w) (ok tt) (λ _. travel tries i dest now) (Moves i dest w)
                (λ _ _ turn. (
                  record {
                    allowed = may_move-Allowed i dest w.0 e;
                    engines = intact;
                    turn_spent = turn;
                  },
                  refl,
                  travel-Arrives i dest (pay i (checked i w)).1 (there i w inside) tries now,
                ))
                (λ x. inr refl))
            (λ x. inr refl)))
]

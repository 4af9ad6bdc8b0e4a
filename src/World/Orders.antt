-- ===== src/World/Orders.antt =====
-- How a captain's order starts: the check of a ship system, the choice of what to do, and the turn
-- that it costs, as in `MovePlayer`, `InvadePlanet` and `LaunchBattleGroup` of pkg/galwar.
use galwar.Base.{
  ℕ, ◌≡◌, refl, sym, ap, ◌⊎◌, inl, inr, Bool-cases, get_or, ◌∙◌, length-set, arith, ◌<◌, length,
}
use mathlib.Core.Path.{subst}
use galwar.Base.Int.{pos, negsuc, ◌≤ℤ◌, ltb_ℤ, ltb_ℤ→le}
use galwar.GameError.{
  Command, Result, Done, ok, err, GameErrorCode, err_unknown, ◌>>◌, modify, IsAtomic, bind_ok,
  bind_err,
}
use galwar.Player.{Player, ensure_systems, check_system, spend_turn, heal_systems, has}
use galwar.Inventory.Goods.{fighters, turns}
use galwar.Inventory.Laws.{get_quantity-adjust_quantity_ne}
use galwar.Universe.Pointers.{get_or-set_self}
use galwar.Universe.{player_at, on_player, nobody}
use galwar.World.{World, alter, check, pay, when_ok, has_in}
use galwar.World.Pay.{pay-IsAtomic}

-- The world after a check of the ship: its list of systems is filled in.
abbrev pub checked : ℕ → World → World
checked i w = alter i ensure_systems w

-- The system of the ship has no damage.
abbrev pub Intact : ℕ → ℕ → World → Type 0
Intact i sys w = get_or (ensure_systems (player_at (w.0) i)).systems sys (pos 0) ≤ℤ pos 0

check-cases :
    (i sys : ℕ) (w : World)
    → (Intact i sys w × (check i sys w ≡ (ok tt, checked i w)))
      ⊎ ((e : GameErrorCode) × (check i sys w ≡ (err e, checked i w)))
unfolding check on_player check_system
check-cases i sys w =
    let damage = get_or (ensure_systems (player_at (w.0) i)).systems sys (pos 0) in
    elim (Bool-cases (ltb_ℤ (pos 0) damage)) [
      | inl hurt ↦ inr (err_unknown, rw (hurt) refl)
      | inr fine ↦ inl (ltb_ℤ→le (pos 0) damage fine, rw (fine) refl)
    ]

-- What holds of a command after the check holds of the command with it.
pub after_check :
    (i sys : ℕ) (w : World) (k : Command World Done) (P : Result Done × World → Type 0)
    → (Intact i sys w → P (k (checked i w)))
    → ((e : GameErrorCode) → P (err e, checked i w))
    → P ((check i sys >> k) w)
after_check i sys w k P passes stops = elim (check-cases i sys w) [
  | inl (intact, e) ↦
      subst P (sym (bind_ok (check i sys) (λ _. k) w (checked i w) tt e)) (passes intact)
  | inr (x, e) ↦ subst P (sym (bind_err (check i sys) (λ _. k) w (checked i w) x e)) (stops x)
]

-- A turn is paid for what was chosen, and it is done; or nothing is written.
pub paid_order :
    {A : Type 0} (i : ℕ) (w : World) (r : Result A) (act : A → World → World)
    (P : Result Done × World → Type 0)
    → ((a : A) → r ≡ ok a → (pay i w).0 ≡ ok tt → P (ok tt, act a (pay i w).1))
    → ((e : GameErrorCode) → P (err e, w))
    → P (when_ok r (λ a. pay i >> modify (act a)) w)
paid_order i w (err x) act P done stops = stops x
paid_order i w (ok a) act P done stops = paid (pay i w).0 (pay i w).1 refl (pay-IsAtomic i w)
  where
    paid :
        (s : Result Done) (v : World)
        → pay i w ≡ (s, v)
        → (let out : Result Done × World = (s, v) in IsAtomic w out)
        → P ((pay i >> modify (act a)) w)
    paid (ok d) v e h = subst P (sym (bind_ok (pay i) (λ _. modify (act a)) w v d e)) (
        subst (λ (z : World). P (ok tt, act a z)) (ap (λ (z : Result Done × World). z.1) e)
          (done a refl (ap (λ (z : Result Done × World). z.0) e)))
    paid (err x) v e h =
        subst P (sym (bind_err (pay i) (λ _. modify (act a)) w v x e))
          (subst (λ (z : World). P (err x, z)) (sym h) (stops x))

-- A chain of commands in two ways
then_of :
    (r : Result Done) (v : World) (m k l : Command World Done) (w : World)
    → m w ≡ (r, v)
    → ((m >> k) >> l) w ≡ (m >> (k >> l)) w
then_of (ok d) v m k l w e =
    ap (λ (r : Result Done × World). elim r.0 [ ok b ↦ l r.1 | err x ↦ (err x, r.1) ])
      (bind_ok m (λ _. k) w v d e)
    ∙ sym (bind_ok m (λ _. k >> l) w v d e)
then_of (err x) v m k l w e =
    bind_err (m >> k) (λ _. l) w v x (bind_err m (λ _. k) w v x e)
    ∙ sym (bind_err m (λ _. k >> l) w v x e)

pub then_assoc : (m k l : Command World Done) (w : World) → ((m >> k) >> l) w ≡ (m >> (k >> l)) w
then_assoc m k l w = then_of (m w).0 (m w).1 m k l w refl

-- A turn costs no fighters, whether there was one or not.
spend_turn_fighters : (p : Player) → has fighters (spend_turn p).1 ≡ has fighters p
unfolding spend_turn heal_systems
spend_turn_fighters p = elim (Bool-cases (ltb_ℤ (has turns p) (pos 1))) [
  | inl none_left ↦ elim (Bool-cases (ltb_ℤ (pos 0) p.banked_turns)) [
    | inl reserve ↦ rw (none_left, reserve) refl
    | inr empty ↦ rw (none_left, empty) refl
  ]
  | inr allowance ↦
      rw (allowance)
        (get_quantity-adjust_quantity_ne turns fighters (negsuc 0) p.inventory (omega arith))
]

pub pay_fighters :
    (i : ℕ) (w : World)
    → i < length (w.0).players
    → has_in fighters (pay i w).1 i ≡ has_in fighters w i
unfolding pay on_player
pay_fighters i (u, c) inside =
    ap (has fighters) (get_or-set_self u.players i _ nobody inside)
    ∙ spend_turn_fighters (player_at u i)

pub pay_players : (i : ℕ) (w : World) → length ((pay i w).1.0).players ≡ length (w.0).players
unfolding pay on_player
pay_players i (u, c) = length-set u.players i _

pub pay_planets : (i : ℕ) (w : World) → ((pay i w).1.0).planets ≡ (w.0).planets
unfolding pay on_player
pay_planets i (u, c) = refl

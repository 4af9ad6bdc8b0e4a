-- ===== src/Universe/Pointers.antt =====
-- Reads and writes through a pointer to a player's record: pkg/galwar/universe.go.
use galwar.Base.{
  ℕ, zero, suc, ◌+◌, ◌<◌, ◌≡◌, ◌≢◌, refl, ap, inl, inr, some, List, [], ◌∷◌, ◌==◌, length, get_or,
  set, Bool-cases, arith,
}
use galwar.GameError.{Command}
use galwar.Player.{Player}
use galwar.Universe.{Universe, player_at, on_player, nobody, index_from}

pub get_or-set_self {ℓ} :
    {A : Type ℓ} (xs : List A) (i : ℕ) (v d : A) → i < length xs → get_or (set xs i v) i d ≡ v
get_or-set_self [] i v d h = absurd (omega arith)
get_or-set_self (x ∷ xs) zero v d h = refl
get_or-set_self (x ∷ xs) (suc i) v d h = get_or-set_self xs i v d (omega arith)

pub get_or-set_ne {ℓ} :
    {A : Type ℓ} (xs : List A) (i j : ℕ) (v d : A) → i ≢ j → get_or (set xs i v) j d ≡ get_or xs j d
get_or-set_ne [] i j v d h = refl
get_or-set_ne (x ∷ xs) zero zero v d h = absurd (h refl)
get_or-set_ne (x ∷ xs) zero (suc j) v d h = refl
get_or-set_ne (x ∷ xs) (suc i) zero v d h = refl
get_or-set_ne (x ∷ xs) (suc i) (suc j) v d h = get_or-set_ne xs i j v d (λ e. h (ap suc e))

-- Writing back what was read changes nothing.
pub set-get_or {ℓ} : {A : Type ℓ} (xs : List A) (i : ℕ) (d : A) → set xs i (get_or xs i d) ≡ xs
set-get_or [] i d = refl
set-get_or (x ∷ xs) zero d = refl
set-get_or (x ∷ xs) (suc i) d = ap (◌∷◌ x) (set-get_or xs i d)

-- A command on a record is refused on the universe as on the record, and writes that record alone.
pub on_player_self :
    {A : Type 0} (i : ℕ) (m : Command Player A) (u : Universe)
    → i < length u.players
    → player_at (on_player i m u).1 i ≡ (m (player_at u i)).1
unfolding on_player
on_player_self i m u h = get_or-set_self u.players i _ nobody h

pub on_player_other :
    {A : Type 0} (i j : ℕ) (m : Command Player A) (u : Universe)
    → i ≢ j
    → player_at (on_player i m u).1 j ≡ player_at u j
unfolding on_player
on_player_other i j m u h = get_or-set_ne u.players i j _ nobody h

-- The last of two writes through a pointer stands.
pub set-set {ℓ} : {A : Type ℓ} (xs : List A) (i : ℕ) (v w : A) → set (set xs i v) i w ≡ set xs i w
set-set [] i v w = refl
set-set (x ∷ xs) zero v w = refl
set-set (x ∷ xs) (suc i) v w = ap (◌∷◌ x) (set-set xs i v w)

-- `GetById` finds a record that has the id.
index_from_offset :
    (k id : ℕ) (ps : List Player) (j : ℕ)
    → index_from k id ps ≡ some j
    → (m : ℕ) × (j ≡ k + m) × ((get_or ps m nobody).id ≡ id)
unfolding index_from
index_from_offset k id [] j h = cc
index_from_offset k id (p ∷ ps) j h = elim (Bool-cases (p.id == id)) [
  | inl e ↦ (0, ground (arith, h, e), ground (arith, e))
  | inr e ↦
      let rest : index_from (k + 1) id ps ≡ some j = rw (e, index_from) at h in
      let (m, at, named) = index_from_offset (k + 1) id ps j rest in
      (suc m, omega (arith, at), named)
]

pub index_from_finds :
    (id : ℕ) (u : Universe) (j : ℕ) → index_from 0 id u.players ≡ some j → (player_at u j).id ≡ id
index_from_finds id u j h =
    let (m, at, named) = index_from_offset 0 id u.players j h in
    let same : j ≡ m = omega (arith, at) in rw same named

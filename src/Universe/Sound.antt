-- ===== src/Universe/Sound.antt =====
-- An invariant of the universe: no ship, defense force or planet has a negative quantity, and each
-- names a commodity once. For pkg/galwar/universe.go.
use galwar.Base.{ℕ, zero, suc, inl, inr, List, [], ◌∷◌, ◌++◌, get_or, set, Bool-cases}
use galwar.Base.Int.{ℤ}
use galwar.Inventory.{has_inventory}
use galwar.Inventory.Goods.{Commodity}
use galwar.Inventory.Invariant.{IsStocked}
use galwar.Player.{Player}
use galwar.Universe.{Universe, Planet, Battlegroup, Notice, nobody, player_at, set_player}
use galwar.News.{add_news, unread}
use galwar.Planet.{set_planet}
use galwar.Battlegroup.{force, set_force, drop_if_empty, remove_at}

abbrev pub Every {ℓ κ} : {A : Type ℓ} → (A → Type κ) → List A → Type κ
Every P [] = Unit
Every P (x ∷ xs) = P x × Every P xs

module _ {ℓ κ} {A : Type ℓ} (P : A → Type κ) where
  pub Every-set : (xs : List A) (i : ℕ) (v : A) → P v → Every P xs → Every P (set xs i v)
  Every-set [] i v h all = tt
  Every-set (x ∷ xs) zero v h all = (h, all.1)
  Every-set (x ∷ xs) (suc i) v h all = (all.0, Every-set xs i v h all.1)

  pub Every-get_or : (xs : List A) (i : ℕ) (d : A) → P d → Every P xs → P (get_or xs i d)
  Every-get_or [] i d h all = h
  Every-get_or (x ∷ xs) zero d h all = all.0
  Every-get_or (x ∷ xs) (suc i) d h all = Every-get_or xs i d h all.1

  pub Every-snoc : (xs : List A) (v : A) → P v → Every P xs → Every P (xs ++ (v ∷ []))
  Every-snoc [] v h all = (h, tt)
  Every-snoc (x ∷ xs) v h all = (all.0, Every-snoc xs v h all.1)

  pub Every-remove_at : (k : ℕ) (xs : List A) → Every P xs → Every P (remove_at k xs)
  unfolding remove_at
  Every-remove_at k [] all = tt
  Every-remove_at zero (x ∷ xs) all = all.1
  Every-remove_at (suc k) (x ∷ xs) all = (all.0, Every-remove_at k xs all.1)

abbrev pub ShipStocked : Player → Type 0
ShipStocked p = IsStocked p.inv.inventory

abbrev pub ForceStocked : Battlegroup → Type 0
ForceStocked b = IsStocked b.inv.inventory

abbrev pub StoreStocked : Planet → Type 0
StoreStocked p = IsStocked p.inv.inventory

pub record Sound (u : Universe) : Type 0 where
  pub ships : Every ShipStocked u.players
  pub forces : Every ForceStocked u.battlegroups
  pub stores : Every StoreStocked u.planets

pub ship-ShipStocked : (i : ℕ) (u : Universe) → Sound u → ShipStocked (player_at u i)
ship-ShipStocked i u s = Every-get_or ShipStocked u.players i nobody tt s.ships

pub set_player-Sound :
    (i : ℕ) (p : Player) (u : Universe) → ShipStocked p → Sound u → Sound (set_player i p u)
set_player-Sound i p u h s = record {
  ships = Every-set ShipStocked u.players i p h s.ships;
  forces = s.forces;
  stores = s.stores;
}

pub set_force-Sound :
    (k : ℕ) (inv : List Commodity) (u : Universe)
    → IsStocked inv
    → Sound u
    → Sound (set_force k inv u)
set_force-Sound k inv u h s = record {
  ships = s.ships;
  forces = Every-set ForceStocked u.battlegroups k _ h s.forces;
  stores = s.stores;
}

pub set_planet-Sound :
    (j : ℕ) (p : Planet) (u : Universe) → StoreStocked p → Sound u → Sound (set_planet j p u)
set_planet-Sound j p u h s = record {
  ships = s.ships;
  forces = s.forces;
  stores = Every-set StoreStocked u.planets j p h s.stores;
}

pub drop_if_empty-Sound : (k : ℕ) (u : Universe) → Sound u → Sound (drop_if_empty k u)
drop_if_empty-Sound k u s = elim (Bool-cases (has_inventory (force u k))) [
  | inl e ↦ rw (e) s
  | inr e ↦ rw (e) (record {
    ships = s.ships;
    forces = Every-remove_at ForceStocked k u.battlegroups s.forces;
    stores = s.stores;
  })
]

pub add_news-Sound :
    (id : ℕ) (now : ℤ) (msg : Notice) (u : Universe) → Sound u → Sound (add_news id now msg u)
unfolding add_news
add_news-Sound id now msg u s = elim (Bool-cases (unread id u)) [
  | inl e ↦ rw (e) s
  | inr e ↦ rw (e) (record { ships = s.ships; forces = s.forces; stores = s.stores })
]

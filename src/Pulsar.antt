-- ===== src/Pulsar.antt =====
-- pkg/galwar/specials.go: pulsar bombs, dropped on the player's own planet or launched from orbit; and
-- `RemovePlanet` of pkg/galwar/planet.go. The report is left out.
pub mod Bombing
mod Tests
use galwar.Base.{
  ℕ, zero, suc, ◌+◌, Bool, true, false, ◌||◌, ◌&&◌, not, Option, none, some, List, [], ◌∷◌, ◌==◌,
  if◌then◌else◌,
}
use galwar.Base.Int.{ℤ, pos, ◌-ℤ◌, ◌*ℤ◌, ltb_ℤ}
use galwar.GameError.{
  Command, Done, ok, err, ◌>>=◌, ◌>>◌, refuse_if, get, modify, err_dead, err_negative_quantity,
  err_not_enough_quantity, err_not_found,
}
use galwar.Inventory.{get_commodity, update}
use galwar.Inventory.Goods.{Commodity, ore, organics, equipment, pulsar, pulsartube}
use galwar.Player.{Player, is_dead, has, adjust, spend_turn}
use galwar.Universe.{Universe, Planet, on_player, player_at, mark_dirty, planet_bombed}
use galwar.News.{add_news}
use galwar.Planet.{own_planet, planet_at, on_store, store}
use galwar.Battlegroup.{remove_at}

abbrev production : List ℕ
production = ore ∷ organics ∷ equipment ∷ []

-- What one bombardment does to a commodity: its production falls by at most `per_bomb`, and its stock
-- to at most ten times the rest.
pub bomb_one : ℤ → Commodity → Commodity
bomb_one per_bomb c =
    let left = c.prod -ℤ (if ltb_ℤ per_bomb c.prod then per_bomb else c.prod) in
    record c {
      prod = left;
      quantity = if ltb_ℤ (left *ℤ pos 10) c.quantity then left *ℤ pos 10 else c.quantity;
    }

pub bomb_each : ℤ → List ℕ → List Commodity → List Commodity
unfolding bomb_one
bomb_each per_bomb [] inv = inv
bomb_each per_bomb (name ∷ names) inv =
    bomb_each per_bomb names (update name (bomb_one per_bomb) inv)

-- `c != nil && c.Prod > 0`
pub produces : List Commodity → ℕ → Bool
produces inv name = elim (get_commodity name inv) [ some c ↦ ltb_ℤ (pos 0) c.prod | none ↦ false ]

pub collapsed : List Commodity → Bool
unfolding produces
collapsed inv = not (produces inv ore || produces inv organics || produces inv equipment)

-- `bombPlanet`
pub bomb_planet : ℕ → ℤ → Universe → Universe
unfolding bomb_each collapsed
bomb_planet j per_bomb u =
    let u' = on_store j (bomb_each per_bomb production) u in
    if collapsed (store u' j) then record u' { planets = remove_at j u'.planets } else u'

abbrev use_bombs : ℕ → ℤ → Universe → Universe
use_bombs i bombs u = (on_player i (modify (adjust pulsar (pos 0 -ℤ bombs))) u).1

unfoldable pub use_pulsar : ℕ → ℤ → Command Universe Done
unfolding bomb_planet
use_pulsar i bombs = do
  p ← get (λ (u : Universe). player_at u i)
  refuse_if (is_dead p) err_dead
  refuse_if (ltb_ℤ bombs (pos 1)) err_negative_quantity
  j ← own_planet i p.sector
  refuse_if (ltb_ℤ (has pulsar p) bombs) err_not_enough_quantity
  on_player i spend_turn
  modify (use_bombs i bombs)
  modify (bomb_planet j (pos 1000 *ℤ bombs))
  modify mark_dirty

-- The first planet of the sector
unfoldable pub first_planet : ℕ → ℕ → List Planet → Option ℕ
first_planet sector j [] = none
first_planet sector j (p ∷ ps) =
    let rest = first_planet sector (j + 1) ps in if p.sector == sector then some j else rest

pub planet_here : ℕ → Command Universe ℕ
unfolding first_planet
planet_here sector u = elim (first_planet sector 0 u.planets) [
  | some j ↦ (ok j, u)
  | none ↦ (err err_not_found, u)
]

-- Word to the owner, where that is someone else
abbrev tell_owner : ℕ → ℕ → ℤ → Universe → Universe
tell_owner owner id now u = if owner == id then u else add_news owner now planet_bombed u

unfoldable pub use_pulsar_tube : ℕ → ℤ → ℤ → Command Universe Done
unfolding bomb_planet planet_here
use_pulsar_tube i bombs now = do
  p ← get (λ (u : Universe). player_at u i)
  refuse_if (is_dead p) err_dead
  refuse_if (ltb_ℤ (has pulsartube p) (pos 1)) err_not_enough_quantity
  refuse_if (ltb_ℤ bombs (pos 1)) err_negative_quantity
  j ← planet_here p.sector
  refuse_if (ltb_ℤ (has pulsar p) bombs) err_not_enough_quantity
  on_player i spend_turn
  owner ← get (λ (u : Universe). (planet_at u j).owner)
  modify (use_bombs i bombs)
  modify (bomb_planet j (pos 500 *ℤ bombs))
  modify (tell_owner owner p.id now)
  modify mark_dirty

-- ===== src/Planet.antt =====
-- pkg/galwar/planet.go: planets, who may use them, and the transfers between a planet and a ship.
-- A pointer to a planet is an index into the list.
pub mod Lookup
pub mod Transfers
mod Tests
use Prim.Native.String.{String}
use galwar.Base.{
  ℕ, zero, suc, ◌+◌, Bool, true, false, ◌&&◌, not, Option, none, some, List, [], ◌∷◌, ◌++◌, ◌==◌,
  get_or, set, if◌then◌else◌,
}
use galwar.Base.Int.{ℤ, pos, ◌+ℤ◌, ◌-ℤ◌, ltb_ℤ}
use galwar.GameError.{
  Command, Result, Done, ok, err, ◌>>=◌, ◌>>◌, refuse_if, get, modify, err_already_exists,
  err_not_owner, err_not_found, err_unknown, err_negative_quantity, err_not_enough_quantity,
  err_not_enough_holds,
}
use galwar.Inventory.{InventoryBase, get_quantity, set_quantity, adjust_quantity, get_free_holds}
use galwar.Inventory.Goods.{
  Commodity, CommodityDefinition, zero_commodity, trade_goods, find_commodity_def,
}
use galwar.Transfer.{total}
use galwar.Universe.{Universe, Planet, empty_inventory, mark_dirty, player_at, set_player}

-- The stock of a new planet.
pub planet_stock : List CommodityDefinition → List Commodity
planet_stock [] = []
planet_stock (tg ∷ tgs) =
    let rest = planet_stock tgs in
    if tg.on_planet
    then record zero_commodity {
      name = tg.name;
      quantity = tg.planet_starting;
      prod = tg.planet_prod_starting;
    }
      ∷ rest
    else rest

-- `NewPlanet`
unfoldable pub new_planet : ℕ → ℕ → String → Universe → Universe
unfolding planet_stock
new_planet owner sector name u = record u {
  planets =
      u.planets
      ++ (record {
        owner = owner;
        name = name;
        sector = sector;
        inv = record { inventory = planet_stock trade_goods; money = pos 0 };
      }
          ∷ []);
}

-- The loop of `GetPlanet`: the last planet of the player's, and the first of anyone else's.
pub scan : ℕ → ℕ → ℕ → Option ℕ × Option ℕ → List Planet → Option ℕ × Option ℕ
scan id sector j found [] = found
scan id sector j (mine, foreign) (p ∷ ps) =
    let found =
      if not (p.sector == sector)
      then (mine, foreign)
      else if p.owner == id
      then (some j, foreign)
      else (mine, elim foreign [ none ↦ some j | some k ↦ some k ]) in
    scan id sector (j + 1) found ps

-- The two flags, and the decision on what the loop found.
pub decide_planet : Bool → Bool → Option ℕ × Option ℕ → Result (Option ℕ)
decide_planet must_exist true (some j, foreign) = err err_already_exists
decide_planet must_exist true (none, some j) = err err_already_exists
decide_planet must_exist true (none, none) = ok none
decide_planet must_exist false (some j, foreign) = ok (some j)
decide_planet must_exist false (none, some j) = err err_not_owner
decide_planet must_exist false (none, none) = if must_exist then err err_not_found else ok none

unfoldable pub get_planet : Bool → Bool → ℕ → ℕ → List Planet → Result (Option ℕ)
unfolding scan decide_planet
get_planet must_exist must_not_exist id sector ps =
    decide_planet must_exist must_not_exist (scan id sector 0 (none, none) ps)

-- With MUST_EXIST there is no nil planet without an error.
abbrev pub not_nil : Result (Option ℕ) → Result ℕ
not_nil (ok (some j)) = ok j
not_nil (ok none) = err err_unknown
not_nil (err e) = err e

-- `planet, err := u.Planets.GetPlanet(player, sector, MUST_EXIST)`
abbrev pub own_planet : ℕ → ℕ → Command Universe ℕ
own_planet i sector u = (not_nil (get_planet true false (player_at u i).id sector u.planets), u)

abbrev pub no_planet : Planet
no_planet = record { owner = 0; name = ""; sector = 0; inv = empty_inventory }

abbrev pub planet_at : Universe → ℕ → Planet
planet_at u j = get_or u.planets j no_planet

abbrev pub set_planet : ℕ → Planet → Universe → Universe
set_planet j p u = record u { planets = set u.planets j p }

-- The inventories of a player and of a planet.
abbrev pub ship : Universe → ℕ → List Commodity
ship u i = (player_at u i).inv.inventory

abbrev pub store : Universe → ℕ → List Commodity
store u j = (planet_at u j).inv.inventory

abbrev pub on_ship : ℕ → (List Commodity → List Commodity) → Universe → Universe
on_ship i f u =
    let p = player_at u i in
    set_player i (record p { inv = record (p.inv) { inventory = f p.inv.inventory } }) u

abbrev pub on_store : ℕ → (List Commodity → List Commodity) → Universe → Universe
on_store j f u =
    let p = planet_at u j in
    set_planet j (record p { inv = record (p.inv) { inventory = f p.inv.inventory } }) u

-- The rest of `TransferSet` once the planet is found.
pub leave : ℕ → ℕ → ℤ → ℕ → Command Universe Done
leave i good amount j = do
  all ← get (λ (u : Universe). total good (store u j) (ship u i))
  refuse_if (ltb_ℤ all amount) err_not_enough_quantity
  modify (on_store j (set_quantity good amount))
  modify (on_ship i (set_quantity good (all -ℤ amount)))
  modify mark_dirty

unfoldable pub transfer_set : ℕ → ℕ → ℕ → ℤ → Command Universe Done
unfolding leave
transfer_set i sector good amount = do
  refuse_if (ltb_ℤ amount (pos 0)) err_negative_quantity
  j ← own_planet i sector
  leave i good amount j

pub take : ℕ → ℕ → ℤ → ℕ → Command Universe Done
take i good amount j = do
  u ← get (λ (u : Universe). u)
  refuse_if (ltb_ℤ (get_quantity good (store u j)) amount) err_not_enough_quantity
  refuse_if (ltb_ℤ (get_free_holds (ship u i)) amount) err_not_enough_holds
  modify (on_store j (adjust_quantity good (pos 0 -ℤ amount)))
  modify (on_ship i (adjust_quantity good amount))
  modify mark_dirty

unfoldable pub transfer_out : ℕ → ℕ → ℕ → ℤ → Command Universe Done
unfolding take
transfer_out i sector good amount = do
  refuse_if (ltb_ℤ amount (pos 0)) err_negative_quantity
  j ← own_planet i sector
  take i good amount j

-- `!tg.OnPlanet || !tg.SellAtPorts`, and no stock. A name without a definition, on which the code
-- panics, is skipped.
pub stays_aboard : Commodity → Bool
stays_aboard c = elim (find_commodity_def c.name) [
  | some tg ↦ not (tg.on_planet && tg.sell_at_ports && ltb_ℤ (pos 0) c.quantity)
  | none ↦ true
]

-- The loop of `TransferIn`, over the goods of the ship, of which each name stands once
pub unload : ℕ → ℕ → List Commodity → Universe → Universe
unfolding stays_aboard
unload i j [] u = u
unload i j (c ∷ cs) u = unload i j cs (
    if stays_aboard c
    then u
    else on_ship i (set_quantity c.name (pos 0)) (on_store j (adjust_quantity c.name c.quantity) u))

unfoldable pub transfer_in : ℕ → ℕ → Command Universe Done
unfolding unload
transfer_in i sector = do
  j ← own_planet i sector
  modify (λ (u : Universe). unload i j (ship u i) u)
  modify mark_dirty

-- `RemovePlanet`, at the index that the pointer is
unfoldable pub remove_planet : ℕ → List Planet → List Planet
remove_planet k [] = []
remove_planet zero (p ∷ ps) = ps
remove_planet (suc k) (p ∷ ps) = p ∷ remove_planet k ps

-- ===== src/Value.antt =====
-- pkg/galwar/value.go: a player's net worth, and the rankings. `sort.SliceStable` on a list is an
-- insertion sort that leaves equal rows in their order.
pub mod Ranked
pub mod Worth
mod Tests
use Prim.Native.String.{String}
use galwar.Base.{ℕ, Bool, true, false, ◌||◌, some, none, List, [], ◌∷◌, ◌==◌, if◌then◌else◌}
use galwar.Base.Int.{ℤ, pos, ◌+ℤ◌, ◌*ℤ◌, ltb_ℤ}
use galwar.Float64.{Float64}
use galwar.Inventory.{get_quantity}
use galwar.Inventory.Goods.{
  Commodity, ore, organics, equipment, fighters, holds, mines, genesis, plasma, pulsar, emwarp,
  cloak, anticloak, pulsartube, fusioncell, planetscanner, minedeflector, find_commodity_def,
}
use galwar.Config.{Config, config_int}
use galwar.Player.{Player, is_dead, is_npc}
use galwar.Dormancy.{is_dormant}
use galwar.Universe.{Universe, Planet, Battlegroup}

-- A commodity with the setting of its price, and what it costs by default
pub record Priced : Type 0 where
  pub name : ℕ
  pub cost : String
  pub def : ℤ

abbrev priced : ℕ → String → ℤ → Priced
priced name cost def = record { name = name; cost = cost; def = def }

abbrev pub devices : List Priced
devices =
    priced fighters "cost_of_fighter" (pos 98)
    ∷ priced holds "cost_of_hold" (pos 500)
    ∷ priced mines "cost_of_mine" (pos 15000)
    ∷ priced genesis "cost_of_genesis" (pos 10000)
    ∷ priced plasma "cost_of_plasma" (pos 56000)
    ∷ priced pulsar "cost_of_pulsar" (pos 215000)
    ∷ priced emwarp "cost_of_escape" (pos 27000)
    ∷ priced cloak "cost_of_cloak" (pos 18000)
    ∷ priced anticloak "cost_of_anticloak" (pos 22000)
    ∷ priced pulsartube "cost_of_pulsartube" (pos 350000)
    ∷ priced fusioncell "cost_of_fusioncell" (pos 45000)
    ∷ priced planetscanner "cost_of_scanner" (pos 40000)
    ∷ priced minedeflector "cost_of_minedeflector" (pos 6000)
    ∷ []

abbrev pub arms : List Priced
arms = priced fighters "cost_of_fighter" (pos 98) ∷ priced mines "cost_of_mine" (pos 15000) ∷ []

-- `value += GetQuantity(name) * ConfigInt(cost, def)`, for each
pub add_priced : Config → List Commodity → List Priced → ℤ → ℤ
add_priced config inv [] value = value
add_priced config inv (d ∷ ds) value =
    add_priced config inv ds (value +ℤ get_quantity d.name inv *ℤ config_int config d.cost d.def)

pub record Ranking : Type 0 where
  pub id : ℕ
  pub name : String
  pub value : ℤ
  pub dormant : Bool

pub place : Ranking → List Ranking → List Ranking
place r [] = r ∷ []
place r (x ∷ xs) = let rest = place r xs in if ltb_ℤ r.value x.value then x ∷ rest else r ∷ x ∷ xs

-- `sort.SliceStable`
pub sort_stable : List Ranking → List Ranking
unfolding place
sort_stable [] = []
sort_stable (r ∷ rs) = place r (sort_stable rs)

module _ (fl : Float64) where
  pub cargo_from : List Commodity → List ℕ → ℤ → ℤ
  cargo_from inv [] total = total
  cargo_from inv (name ∷ names) total = elim (find_commodity_def name) [
    | some def ↦ cargo_from inv names (total +ℤ get_quantity name inv *ℤ fl.to_int def.sell_price)
    | none ↦ cargo_from inv names total
  ]

  pub cargo_value : List Commodity → ℤ
  unfolding cargo_from
  cargo_value inv = cargo_from inv (ore ∷ organics ∷ equipment ∷ []) (pos 0)

  pub add_groups : Config → ℕ → List Battlegroup → ℤ → ℤ
  unfolding add_priced
  add_groups config id [] value = value
  add_groups config id (bg ∷ bgs) value =
      let more = add_priced config bg.inv.inventory arms value in
      add_groups config id bgs (if bg.owner == id then more else value)

  pub add_planets : Config → ℕ → List Planet → ℤ → ℤ
  unfolding add_priced cargo_value
  add_planets config id [] value = value
  add_planets config id (planet ∷ planets) value =
      let inv = planet.inv.inventory in
      let more = add_priced config inv arms value +ℤ cargo_value inv +ℤ pos 50000 in
      add_planets config id planets (if planet.owner == id then more else value)

  -- What a player owns besides credits
  pub add_assets : Universe → ℕ → List Commodity → ℤ → ℤ
  unfolding add_priced cargo_value add_groups add_planets
  add_assets u id inv value = add_planets u.config id u.planets (
      add_groups u.config id u.battlegroups
        (add_priced u.config inv devices value +ℤ cargo_value inv))

  unfoldable pub player_value : Universe → Player → ℤ
  unfolding add_assets
  player_value u p = add_assets u p.id p.inventory (p.money +ℤ p.bank_balance)

  pub ranking : Universe → ℤ → Player → Ranking
  ranking u now p = record {
    id = p.id;
    name = p.name;
    value = player_value u p;
    dormant = is_dormant fl u.config p now;
  }

  pub rows : Universe → ℤ → List Player → List Ranking
  unfolding ranking
  rows u now [] = []
  rows u now (p ∷ ps) =
      let rest = rows u now ps in if is_npc p || is_dead p then rest else ranking u now p ∷ rest

  pub ranked_players : Universe → ℤ → List Ranking
  unfolding rows sort_stable
  ranked_players u now = sort_stable (rows u now u.players)

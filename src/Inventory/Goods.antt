-- ===== src/Inventory/Goods.antt =====
-- pkg/galwar/commodity.go: the commodity records, the names, and the table of all goods.
use Prim.Native.String.{String}
use galwar.Base.{ℕ, Bool, true, false, Option, none, some, List, [], ◌∷◌, ◌==◌, if◌then◌else◌}
use galwar.Base.Int.{ℤ, pos, ◌*ℤ◌, ltb_ℤ}

pub record Commodity : Type 0 where
  pub name : ℕ
  pub prod : ℤ
  pub quantity : ℤ
  pub buy_price : ℕ
  pub sell_price : ℕ
  pub sell : Bool
  pub last_restock : ℤ

pub record CommodityDefinition : Type 0 where
  pub commodity : Commodity
  pub open commodity use *
  pub short_name : String
  pub holds_each : ℤ
  pub starting : ℤ
  pub sell_at_ports : Bool
  pub sell_at_sol : Bool
  pub sell_at_devices : Bool
  pub on_planet : Bool
  pub planet_starting : ℤ
  pub planet_prod_starting : ℤ

abbrev pub ore : ℕ
ore = 0

abbrev pub organics : ℕ
organics = 1

abbrev pub equipment : ℕ
equipment = 2

abbrev pub holds : ℕ
holds = 3

abbrev pub fighters : ℕ
fighters = 4

abbrev pub mines : ℕ
mines = 5

abbrev pub genesis : ℕ
genesis = 6

abbrev pub turns : ℕ
turns = 7

abbrev pub plasma : ℕ
plasma = 8

abbrev pub pulsar : ℕ
pulsar = 9

abbrev pub emwarp : ℕ
emwarp = 10

abbrev pub cloak : ℕ
cloak = 11

abbrev pub anticloak : ℕ
anticloak = 12

abbrev pub pulsartube : ℕ
pulsartube = 13

abbrev pub fusioncell : ℕ
fusioncell = 14

abbrev pub planetscanner : ℕ
planetscanner = 15

abbrev pub minedeflector : ℕ
minedeflector = 16

-- What a composite literal leaves out is zero.
abbrev pub zero_commodity : Commodity
zero_commodity = record {
  name = 0;
  prod = pos 0;
  quantity = pos 0;
  buy_price = 0;
  sell_price = 0;
  sell = false;
  last_restock = pos 0;
}

-- `Commodity{Name: name, BuyPrice: buy, SellPrice: price, Sell: sells}`
abbrev priced : ℕ → ℕ → ℕ → Bool → Commodity
priced name buy price sells = record zero_commodity {
  name = name;
  buy_price = buy;
  sell_price = price;
  sell = sells;
}

abbrev plain_def : Commodity → String → CommodityDefinition
plain_def c short = record {
  commodity = c;
  short_name = short;
  holds_each = pos 0;
  starting = pos 0;
  sell_at_ports = false;
  sell_at_sol = false;
  sell_at_devices = false;
  on_planet = false;
  planet_starting = pos 0;
  planet_prod_starting = pos 0;
}

abbrev pub trade_goods : List CommodityDefinition
trade_goods =
    record (plain_def (priced ore 0x4020000000000000 0x4014000000000000 false) "Ore") {
      holds_each = pos 1;
      sell_at_ports = true;
      on_planet = true;
      planet_starting = pos 10;
      planet_prod_starting = pos 1;
    }
    ∷ record (plain_def (priced organics 0x402c000000000000 0x4024000000000000 false) "Org") {
      holds_each = pos 1;
      sell_at_ports = true;
      on_planet = true;
      planet_starting = pos 10;
      planet_prod_starting = pos 1;
    }
    ∷ record (plain_def (priced equipment 0x4039000000000000 0x4034000000000000 false) "Equ") {
      holds_each = pos 1;
      sell_at_ports = true;
      on_planet = true;
      planet_starting = pos 10;
      planet_prod_starting = pos 1;
    }
    ∷ record (plain_def (priced holds 0 0x407f400000000000 true) "Holds") {
      starting = pos 25;
      sell_at_sol = true;
    }
    ∷ record (plain_def (priced fighters 0 0x4058800000000000 true) "Fighters") {
      starting = pos 200;
      sell_at_sol = true;
      on_planet = true;
    }
    ∷ record (plain_def (priced mines 0 0x40cd4c0000000000 true) "Mines") {
      sell_at_sol = true;
      on_planet = true;
    }
    ∷ record (plain_def (priced genesis 0 0x40c3880000000000 true) "Genesis") { sell_at_sol = true }
    ∷ record (plain_def (priced plasma 0 0x40eb580000000000 true) "Plasma") { sell_at_sol = true }
    ∷ record (plain_def (priced pulsar 0 0x410a3ec000000000 true) "Pulsar") { sell_at_sol = true }
    ∷ record (plain_def (priced emwarp 0 0x40da5e0000000000 true) "EmWarp") { sell_at_sol = true }
    ∷ record (plain_def (priced turns 0 0x4097700000000000 true) "Turns") {
      starting = pos 250;
      sell_at_sol = true;
    }
    ∷ record (plain_def (priced cloak 0 0x40d1940000000000 true) "Cloak") { sell_at_devices = true }
    ∷ record (plain_def (priced anticloak 0 0x40d57c0000000000 true) "Anticloak") {
      sell_at_devices = true;
    }
    ∷ record (plain_def (priced pulsartube 0 0x41155cc000000000 true) "PulsarTube") {
      sell_at_devices = true;
    }
    ∷ record (plain_def (priced fusioncell 0 0x40e5f90000000000 true) "Fusion") {
      sell_at_devices = true;
    }
    ∷ record (plain_def (priced planetscanner 0 0x40e3880000000000 true) "Scanner") {
      sell_at_devices = true;
    }
    ∷ record (plain_def (priced minedeflector 0 0x40b7700000000000 true) "Deflector") {
      sell_at_devices = true;
    }
    ∷ []

pub find_in : ℕ → List CommodityDefinition → Option CommodityDefinition
find_in name [] = none
find_in name (def ∷ defs) = if name == def.name then some def else find_in name defs

unfoldable pub find_commodity_def : ℕ → Option CommodityDefinition
unfolding find_in
find_commodity_def name = find_in name trade_goods

-- `GetDef().Holds`. `GetDef` panics on an unknown name, which `Load` rules out; here it has no
-- holds.
unfoldable pub def_holds : ℕ → ℤ
unfolding find_commodity_def
def_holds name = elim (find_commodity_def name) [ some def ↦ def.holds_each | none ↦ pos 0 ]

unfoldable pub get_holds_used : Commodity → ℤ
get_holds_used c = def_holds c.name *ℤ c.quantity

-- `c.GetDef().Holds > 0`
unfoldable pub is_cargo : ℕ → Bool
is_cargo name = ltb_ℤ (pos 0) (def_holds name)

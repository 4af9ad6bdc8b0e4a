-- ===== src/Services.antt =====
-- pkg/galwar/port.go: the service ports that every universe has; with the lists of what is in a sector,
-- of port.go, planet.go, battlegroup.go and player.go, and the ships that a viewer sees, of
-- pkg/galwar/dormancy.go.
use Prim.Native.String.{String}
use galwar.Base.{
  ℕ, zero, suc, ◌+◌, ◌-◌, Bool, true, false, not, ◌&&◌, ◌||◌, Option, none, some, List, [], ◌∷◌,
  ◌++◌, ◌==◌, length, if◌then◌else◌,
}
use galwar.Base.Int.{ℤ}
use galwar.Float64.{Float64}
use galwar.Inventory.{get_commodity}
use galwar.Inventory.Goods.{Commodity, CommodityDefinition, trade_goods}
use galwar.Config.{Config}
use galwar.Player.{Player, is_cloaked, has_anti_cloak}
use galwar.Dormancy.{is_dormant}
use galwar.Universe.{
  Universe, Port, PortType, Planet, Battlegroup, amazing_devices, interstel, trading_port, sol,
  empty_inventory,
}

-- `GetObjectsInSector` of each list
pub ports_in : ℕ → List Port → List Port
ports_in sector [] = []
ports_in sector (p ∷ ps) =
    let rest = ports_in sector ps in if p.sector == sector then p ∷ rest else rest

unfoldable pub planets_in : ℕ → List Planet → List Planet
planets_in sector [] = []
planets_in sector (p ∷ ps) =
    let rest = planets_in sector ps in if p.sector == sector then p ∷ rest else rest

unfoldable pub battlegroups_in : ℕ → List Battlegroup → List Battlegroup
battlegroups_in sector [] = []
battlegroups_in sector (b ∷ bs) =
    let rest = battlegroups_in sector bs in if b.sector == sector then b ∷ rest else rest

-- The first sector from `s` on without a port, before `limit` and among `n` at most; 0 if none is
pub free_from : ℕ → ℕ → List Port → ℕ
free_from zero s ports = 0
free_from (suc n) s ports =
    let rest = free_from n (s + 1) ports in if length (ports_in s ports) == 0 then s else rest

-- `for s := 2; s < limit; s++`
abbrev free_below : ℕ → List Port → ℕ
free_below limit ports = free_from (limit - 2) 2 ports

abbrev at_most : ℕ → ℕ → ℕ
at_most limit n = n - (n - limit)

unfoldable pub free_port_sector : Universe → ℕ
unfolding ports_in free_from
free_port_sector u =
    let low = free_below (at_most 11 (length u.sectors)) u.ports in
    if low == 0 then free_below (length u.sectors) u.ports else low

abbrev same_type : PortType → PortType → Bool
same_type trading_port trading_port = true
same_type sol sol = true
same_type amazing_devices amazing_devices = true
same_type interstel interstel = true
same_type _ _ = false

pub has_type : PortType → List Port → Bool
has_type t [] = false
has_type t (p ∷ ps) = let rest = has_type t ps in if same_type p.goods t then true else rest

abbrev new_port : PortType → String → ℕ → Universe → Universe
new_port t name sector u = record u {
  ports =
      u.ports ++ (record { goods = t; name = name; sector = sector; inv = empty_inventory } ∷ []);
}

unfoldable pub ensure_interstel : Universe → Universe
unfolding has_type
ensure_interstel u =
    let sector = free_port_sector u in
    if has_type interstel u.ports
    then u
    else if sector == 0
    then u
    else new_port interstel "Interstel" sector u

-- The devices that a shop lacks are added.
pub stock_devices : List CommodityDefinition → List Commodity → List Commodity
stock_devices [] inv = inv
stock_devices (tg ∷ tgs) inv =
    let skip =
      not tg.sell_at_devices || elim (get_commodity tg.name inv) [ some _ ↦ true | none ↦ false ] in
    stock_devices tgs (if skip then inv else inv ++ (record (tg.commodity) { sell = true } ∷ []))

-- In the first shop of the list
pub stock_first : List Port → List Port
unfolding stock_devices
stock_first [] = []
stock_first (p ∷ ps) =
    let rest = stock_first ps in
    if same_type p.goods amazing_devices
    then record p { inv = record (p.inv) { inventory = stock_devices trade_goods p.inv.inventory } }
      ∷ ps
    else p ∷ rest

unfoldable pub ensure_amazing_devices : Universe → Universe
unfolding has_type stock_first
ensure_amazing_devices u =
    let sector = free_port_sector u in
    let opened = new_port amazing_devices "Amazing Devices, Inc." sector u in
    if has_type amazing_devices u.ports
    then record u { ports = stock_first u.ports }
    else if sector == 0
    then u
    else record opened { ports = stock_first opened.ports }

module _ (fl : Float64) where
  -- Whether a viewer sees a ship; the viewer is known by the id.
  pub is_visible : Config → Option Player → ℤ → Player → Bool
  is_visible config viewer now p =
      let sees : Bool = elim viewer [ some v ↦ has_anti_cloak v | none ↦ false ] in
      let self : Bool = elim viewer [ some v ↦ v.id == p.id | none ↦ false ] in
      self || (p.ever_moved && not (is_dormant fl config p now) && not (is_cloaked p && not sees))

  unfoldable pub visible_players : Config → Option Player → ℤ → ℕ → List Player → List Player
  unfolding is_visible
  visible_players config viewer now sector [] = []
  visible_players config viewer now sector (p ∷ ps) =
      let rest = visible_players config viewer now sector ps in
      if (p.sector == sector) && is_visible config viewer now p then p ∷ rest else rest

-- ===== src/Computer.antt =====
-- pkg/galwar/computer.go: the reports of the ship's computer, and the search for the nearest port.
-- A `nil` predicate is `none`. The map of visited sectors is a list of flags by the sector's index.
pub mod Flags
pub mod Scan
pub mod Frontier
pub mod Nearest
mod Tests
use Prim.Native.String.{String}
use galwar.Base.{
  ℕ, zero, suc, ◌+◌, ◌-◌, Bool, true, false, not, ◌&&◌, ◌||◌, Option, none, some, List, [], ◌∷◌,
  ◌++◌, ◌==◌, ltb, leb, length, get_or, set, drop, replicate, if◌then◌else◌,
}
use galwar.Base.Int.{ℤ, pos, ltb_ℤ}
use galwar.Float64.{Float64}
use galwar.Inventory.{get_commodity, get_quantity}
use galwar.Inventory.Goods.{Commodity, fighters, mines}
use galwar.Config.{config_int}
use galwar.Player.{Player, is_dead, is_npc}
use galwar.Dormancy.{is_dormant}
use galwar.Universe.{Universe, Port, Planet, Battlegroup, Sector, Notice, NewsItem}
use galwar.Sector.{sector_at}

pub data ForceKind : Type 0 where
  planet_force defense_force : ForceKind

pub record Force : Type 0 where
  pub kind : ForceKind
  pub name : String
  pub sector : ℕ
  pub fighters : ℤ
  pub mines : ℤ

pub planet_forces : ℕ → List Planet → List Force
planet_forces id [] = []
planet_forces id (pl ∷ pls) =
    let rest = planet_forces id pls in
    if pl.owner == id
    then record {
      kind = planet_force;
      name = pl.name;
      sector = pl.sector;
      fighters = get_quantity fighters pl.inv.inventory;
      mines = get_quantity mines pl.inv.inventory;
    }
      ∷ rest
    else rest

pub defense_forces : ℕ → List Battlegroup → List Force
defense_forces id [] = []
defense_forces id (bg ∷ bgs) =
    let rest = defense_forces id bgs in
    if bg.owner == id
    then record {
      kind = defense_force;
      name = "";
      sector = bg.sector;
      fighters = get_quantity fighters bg.inv.inventory;
      mines = get_quantity mines bg.inv.inventory;
    }
      ∷ rest
    else rest

pub player_forces : ℕ → Universe → List Force
unfolding planet_forces defense_forces
player_forces id u = planet_forces id u.planets ++ defense_forces id u.battlegroups

pub owned : ℕ → List Planet → List Planet
owned id [] = []
owned id (pl ∷ pls) = let rest = owned id pls in if pl.owner == id then pl ∷ rest else rest

abbrev pub Want : Type 0
Want = Option (Port → Bool)

abbrev pub wanted : Want → Port → Bool
wanted none p = true
wanted (some want) p = want p

-- `portHere`
pub port_here : Want → ℕ → List Port → Option Port
port_here want sec [] = none
port_here want sec (p ∷ ps) =
    let rest = port_here want sec ps in if (p.sector == sec) && wanted want p then some p else rest

-- `node`
pub record Node : Type 0 where
  pub sec : ℕ
  pub dist : ℕ

pub record Search : Type 0 where
  pub seen : List Bool
  pub queue : List Node

abbrev pub marked : Search → ℕ → Bool
marked s v = get_or s.seen v false

-- The body of the loop over the warps of a node at distance `d`, with `n` sectors
pub visit : ℕ → ℕ → Search → ℕ → Search
visit n d s w =
    if (leb 1 w && ltb w n) && not (marked s w)
    then record {
      seen = set s.seen w true;
      queue = s.queue ++ (record { sec = w; dist = d + 1 } ∷ []);
    }
    else s

pub scan : ℕ → ℕ → Search → List ℕ → Search
unfolding visit
scan n d s [] = s
scan n d s (w ∷ ws) = scan n d (visit n d s w) ws

pub data Hit : Type 0 where
  found : ℕ → ℕ → String → Hit
  not_found out_of_fuel : Hit

module _ (u : Universe) (want : Want) where
  -- What a node leaves behind when its sector has no port that is wanted
  pub expand : List Bool → Node → List Node → Search
  unfolding scan
  expand seen cur rest =
      scan (length u.sectors) cur.dist (record { seen = seen; queue = rest })
        (sector_at u cur.sec).warps

  -- `for len(queue) > 0`
  pub search : ℕ → Search → Hit
  unfolding expand port_here
  search zero s = elim s.queue [ [] ↦ not_found | _ ∷ _ ↦ out_of_fuel ]
  search (suc fuel) s = elim s.queue [
    | [] ↦ not_found
    | cur ∷ rest ↦ elim (port_here want cur.sec u.ports) [
      | some p ↦ found cur.sec cur.dist p.name
      | none ↦ search fuel (expand s.seen cur rest)
    ]
  ]

  pub start : ℕ → Search
  start from = record {
    seen = set (replicate (length u.sectors) false) from true;
    queue = record { sec = from; dist = 0 } ∷ [];
  }

  pub nearest_port : ℕ → Hit
  unfolding search start
  nearest_port from =
      if ltb from 1 || leb (length u.sectors) from
      then not_found
      else search (length u.sectors) (start from)

pub trades : Bool → ℕ → Port → Bool
trades sell name p = elim (get_commodity name p.inv.inventory) [
  | some c ↦ (if sell then c.sell else not c.sell) && ltb_ℤ (pos 0) c.quantity
  | none ↦ false
]

abbrev pub port_buys : ℕ → Port → Bool
port_buys = trades false

abbrev pub port_sells : ℕ → Port → Bool
port_sells = trades true

pub record UniverseStats : Type 0 where
  pub sectors : ℕ
  pub ports : ℕ
  pub planets : ℕ
  pub active_traders : ℕ
  pub turns_per_day : ℤ

module _ (fl : Float64) (u : Universe) where
  pub active_traders : ℤ → List Player → ℕ
  active_traders now [] = 0
  active_traders now (p ∷ ps) =
      let rest = active_traders now ps in
      if is_npc p || is_dead p || is_dormant fl u.config p now then rest else suc rest

  pub stats : ℤ → UniverseStats
  unfolding active_traders
  stats now = record {
    sectors = length u.sectors - 1;
    ports = length u.ports;
    planets = length u.planets;
    active_traders = active_traders now u.players;
    turns_per_day = config_int u.config "turns_per_day" (pos 250);
  }

pub news_for : ℕ → List NewsItem → List Notice
news_for id [] = []
news_for id (n ∷ ns) = let rest = news_for id ns in if n.player == id then n.msg ∷ rest else rest

pub recent_news : ℕ → ℕ → Universe → List Notice
unfolding news_for
recent_news id max u =
    let all = news_for id u.news in
    if ltb max (length all) then drop (length all - max) all else all

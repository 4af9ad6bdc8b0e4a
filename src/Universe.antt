-- ===== src/Universe.antt =====
-- pkg/galwar/universe.go: the universe that the engine's commands change, with the records of
-- sector.go, port.go, planet.go, battlegroup.go, news.go and admin.go that it holds. A pointer to a
-- player is an index into `players`, which only grows. `MarkDirty` sets a flag.
pub mod Pointers
pub mod Sound
use Prim.Native.String.{String}
use galwar.Base.{
  ℕ, ◌+◌, Bool, true, false, Option, none, some, List, [], ◌∷◌, ◌==◌, get_or, set, if◌then◌else◌,
}
use galwar.Base.Int.{ℤ, pos}
use galwar.GameError.{Command, Result, Done, ok}
use galwar.Inventory.{InventoryBase}
use galwar.Inventory.Goods.{Commodity}
use galwar.Config.{Config, insert}
use galwar.Player.{Player}

pub record Sector : Type 0 where
  pub number : ℕ
  pub warps : List ℕ

pub data PortType : Type 0 where
  trading_port sol amazing_devices interstel : PortType

pub record Port : Type 0 where
  pub goods : PortType
  pub name : String
  pub sector : ℕ
  pub inv : InventoryBase

pub record Planet : Type 0 where
  pub owner : ℕ
  pub name : String
  pub sector : ℕ
  pub inv : InventoryBase

pub record Battlegroup : Type 0 where
  pub owner : ℕ
  pub sector : ℕ
  pub inv : InventoryBase

-- What a news line tells; the wording with its names and numbers is left out.
pub data Notice : Type 0 where
  drove_off destroyed_intruder fought_through : Notice
  mines_drove_off mines_destroyed mines_hit : Notice
  died_in_counter attacked killed salvaged : Notice
  planet_repelled_and_destroyed planet_repelled planet_mines_destroyed planet_captured : Notice
  planet_revolted planet_bombed : Notice
  group_hit_force group_hit_mines group_saved group_killed group_attacked : Notice
  fleet_saved fleet_destroyed fleet_raided : Notice
  emwarped repossessed : Notice

pub record NewsItem : Type 0 where
  pub player : ℕ
  pub at : ℤ
  pub msg : Notice
  pub delivered : Bool

pub record Universe : Type 0 where
  pub ports : List Port
  pub players : List Player
  pub battlegroups : List Battlegroup
  pub planets : List Planet
  pub sectors : List Sector
  pub config : Config
  pub news : List NewsItem
  pub dirty : Bool

abbrev pub mark_dirty : Universe → Universe
mark_dirty u = record u { dirty = true }

-- A record with no field set, which a pointer out of range reads as.
abbrev pub empty_inventory : InventoryBase
empty_inventory = record { inventory = []; money = pos 0 }

abbrev pub nobody : Player
nobody = record {
  id = 0;
  email = "";
  google_sub = "";
  pass_hash = "";
  last_seen = pos 0;
  times_died = pos 0;
  died_at = pos 0;
  systems = [];
  banned = false;
  expired = false;
  ever_moved = false;
  bank_balance = pos 0;
  banked_turns = pos 0;
  name = "";
  sector = 0;
  inv = empty_inventory;
}

abbrev pub player_at : Universe → ℕ → Player
player_at u i = get_or u.players i nobody

abbrev pub set_player : ℕ → Player → Universe → Universe
set_player i p u = record u { players = set u.players i p }

-- A command on one player's record, run on the record that pointer `i` shows.
unfoldable pub on_player : {A : Type 0} → ℕ → Command Player A → Command Universe A
on_player i m u = let (r, p) = m (player_at u i) in (r, set_player i p u)

-- `PlayerList.GetById`: the index of the first record with the id.
unfoldable pub index_from : ℕ → ℕ → List Player → Option ℕ
index_from i id [] = none
index_from i id (p ∷ ps) = if p.id == id then some i else index_from (i + 1) id ps

unfoldable pub get_by_id : ℕ → List Player → Option Player
get_by_id id [] = none
get_by_id id (p ∷ ps) = if p.id == id then some p else get_by_id id ps

-- `SetConfig`
unfoldable pub set_config : String → String → Universe → Universe
set_config key value u = record u { config = insert key value u.config; dirty = true }

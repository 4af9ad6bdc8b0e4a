-- ===== src/Player.antt =====
-- pkg/galwar/player.go: the player record, its ship systems; and the turn economy of
-- pkg/galwar/commands.go. Ids are only compared, so they are numbers. Sector numbers are numbers too:
-- the code treats a negative one as it treats 0 wherever it tests one.
pub mod Systems
pub mod Turns
mod Tests
use Prim.Native.String.{String}
use text.Mathlib.Text.{starts_with}
use galwar.Base.{
  ℕ, zero, suc, Bool, true, false, not, List, [], ◌∷◌, ◌==◌, length, get_or, set, replicate,
  if◌then◌else◌,
}
use galwar.Base.Int.{ℤ, pos, negsuc, ◌+ℤ◌, ◌-ℤ◌, ltb_ℤ, eqb_ℤ}
use galwar.GameError.{
  Command, ok, err, Done, ◌>>=◌, ◌>>◌, refuse_if, get, modify, fail, err_no_turns, err_unknown,
}
use galwar.Inventory.{InventoryBase, get_quantity, adjust_quantity}
use galwar.Inventory.Goods.{
  Commodity, turns, cloak, anticloak, fusioncell, planetscanner, minedeflector,
}

pub record Player : Type 0 where
  pub id : ℕ
  pub email : String
  pub google_sub : String
  pub pass_hash : String
  pub last_seen : ℤ
  pub times_died : ℤ
  pub died_at : ℤ
  pub systems : List ℤ
  pub banned : Bool
  pub expired : Bool
  pub ever_moved : Bool
  pub bank_balance : ℤ
  pub banked_turns : ℤ
  pub name : String
  pub sector : ℕ
  pub inv : InventoryBase
  pub open inv use *

-- The ship systems, by number.
abbrev pub sys_engines : ℕ
sys_engines = 0

abbrev pub sys_bg_computer : ℕ
sys_bg_computer = 3

abbrev pub sys_cargo_bay : ℕ
sys_cargo_bay = 4

abbrev pub sys_thrusters : ℕ
sys_thrusters = 5

abbrev pub num_systems : ℕ
num_systems = 6

abbrev pub max_ship_damage : ℤ
max_ship_damage = pos 150

unfoldable pub is_dead : Player → Bool
is_dead p = not (eqb_ℤ p.died_at (pos 0))

unfoldable pub is_npc : Player → Bool
is_npc p = starts_with p.google_sub "npc:"

-- Six systems with no damage.
abbrev pub intact : List ℤ
intact = replicate num_systems (pos 0)

unfoldable pub ensure_systems : Player → Player
ensure_systems p = if length p.systems == num_systems then p else record p { systems = intact }

abbrev capped_damage : ℤ → ℤ
capped_damage d = if ltb_ℤ max_ship_damage d then max_ship_damage else d

damage_at : ℕ → ℤ → Player → Player
damage_at sys amount p = record p {
  systems = set p.systems sys (capped_damage (get_or p.systems sys (pos 0) +ℤ amount));
}

unfoldable pub damage_system : ℕ → ℤ → Player → Player
unfolding ensure_systems damage_at
damage_system sys amount p = damage_at sys amount (ensure_systems p)

-- `if p.Systems[i] > 0 { p.Systems[i]-- }`
pub heal : ℤ → ℤ
heal d = if ltb_ℤ (pos 0) d then d -ℤ pos 1 else d

pub heal_all : List ℤ → List ℤ
heal_all [] = []
heal_all (d ∷ ds) = heal d ∷ heal_all ds

unfoldable pub heal_systems : Player → Player
heal_systems p = record p { systems = heal_all p.systems }

damage_from : ℤ → List ℤ → ℤ
damage_from total [] = total
damage_from total (d ∷ ds) = damage_from (total +ℤ d) ds

unfoldable pub total_system_damage : Player → ℤ
unfolding damage_from
total_system_damage p = damage_from (pos 0) p.systems

-- `p.AdjustQuantity(name, amount)` on a player.
abbrev pub adjust : ℕ → ℤ → Player → Player
adjust good amount p = record p {
  inv = record (p.inv) { inventory = adjust_quantity good amount p.inv.inventory };
}

abbrev pub has : ℕ → Player → ℤ
has good p = get_quantity good p.inv.inventory

-- pkg/galwar/specials.go: the devices that are checked for.
unfoldable pub is_cloaked : Player → Bool
is_cloaked p = ltb_ℤ (pos 0) (has cloak p)

unfoldable pub has_anti_cloak : Player → Bool
has_anti_cloak p = ltb_ℤ (pos 0) (has anticloak p)

unfoldable pub has_fusion_cell : Player → Bool
has_fusion_cell p = ltb_ℤ (pos 0) (has fusioncell p)

unfoldable pub move_to : ℕ → Player → Player
move_to sector p = record p { sector = sector }

-- The turn is taken from the day's allowance, else from the Fusion Cell reserve.
draw_reserve : Command Player Done
draw_reserve = do
  p ← get (λ (p : Player). p)
  refuse_if (not (ltb_ℤ (pos 0) p.banked_turns)) err_no_turns
  modify (λ (p : Player). record p { banked_turns = p.banked_turns -ℤ pos 1 })
  modify heal_systems

draw_allowance : Command Player Done
draw_allowance = do modify (adjust turns (negsuc 0)); modify heal_systems

unfoldable pub spend_turn : Command Player Done
unfolding draw_reserve draw_allowance
spend_turn p = if ltb_ℤ (has turns p) (pos 1) then draw_reserve p else draw_allowance p

unfoldable pub check_system : ℕ → Command Player Done
check_system sys = do
  modify ensure_systems
  p ← get (λ (p : Player). p)
  refuse_if (ltb_ℤ (pos 0) (get_or p.systems sys (pos 0))) err_unknown

-- pkg/galwar/specials.go, `absorbMine`
unfoldable pub absorb_mine : Player → Bool × Player
absorb_mine p =
    if ltb_ℤ (has minedeflector p) (pos 1)
    then (false, p)
    else (true, adjust minedeflector (negsuc 0) p)

-- `TouchLastSeen`, on the record
unfoldable pub touch_last_seen : ℤ → Player → Player
touch_last_seen now p = record p { last_seen = now; expired = false }

-- pkg/galwar/specials.go
unfoldable pub has_planet_scanner : Player → Bool
has_planet_scanner p = ltb_ℤ (pos 0) (has planetscanner p)

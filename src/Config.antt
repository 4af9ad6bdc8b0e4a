-- ===== src/Config.antt =====
-- pkg/galwar/config.go: the settings. The map is an association list; a missing key and a nil map
-- read as the caller's default.
pub mod Laws
mod Tests
use Prim.Native.String.{String}
use text.Mathlib.Text.{◌==◌}
use galwar.Base.{Bool, true, false, Option, none, some, List, [], ◌∷◌, if◌then◌else◌}
use galwar.Base.Int.{ℤ}
use galwar.Text.{atoi}

-- Go's `==` on strings
unfoldable pub same_string : String → String → Bool
same_string a b = a == b

abbrev pub Config : Type 0
Config = List (String × String)

unfoldable pub lookup : String → Config → Option String
lookup key [] = none
lookup key ((k, v) ∷ config) = if k == key then some v else lookup key config

unfoldable pub insert : String → String → Config → Config
insert key value [] = (key, value) ∷ []
insert key value ((k, v) ∷ config) =
    if k == key then (k, value) ∷ config else (k, v) ∷ insert key value config

unfoldable pub config_string : Config → String → String → String
unfolding lookup
config_string config key def = elim (lookup key config) [ some v ↦ v | none ↦ def ]

parsed_or : ℤ → Option ℤ → ℤ
parsed_or def (some n) = n
parsed_or def none = def

unfoldable pub config_int : Config → String → ℤ → ℤ
unfolding lookup parsed_or
config_int config key def = elim (lookup key config) [
  | some v ↦ parsed_or def (atoi v)
  | none ↦ def
]

abbrev pub defaults : Config
defaults =
    ("numsec", "2000")
    ∷ ("starting_credits", "35000")
    ∷ ("starting_holds", "25")
    ∷ ("starting_fighters", "200")
    ∷ ("turns_per_day", "250")
    ∷ ("planet_max_mines", "1000")
    ∷ ("cost_of_repair", "250")
    ∷ ("max_holds", "16384")
    ∷ ("cost_of_fighter", "98")
    ∷ ("cost_of_hold", "500")
    ∷ ("cost_of_mine", "15000")
    ∷ ("cost_of_genesis", "10000")
    ∷ ("cost_of_plasma", "56000")
    ∷ ("cost_of_pulsar", "215000")
    ∷ ("cost_of_escape", "27000")
    ∷ ("cost_of_cloak", "18000")
    ∷ ("cost_of_anticloak", "22000")
    ∷ ("cost_of_pulsartube", "350000")
    ∷ ("cost_of_fusioncell", "45000")
    ∷ ("cost_of_scanner", "40000")
    ∷ ("cost_of_minedeflector", "6000")
    ∷ ("max_warps", "8")
    ∷ ("dormant_days", "5")
    ∷ ("expire_days", "30")
    ∷ ("admins", "")
    ∷ ("bank_interest_pct", "1")
    ∷ ("bank_interest_cap", "1000000")
    ∷ ("schema_ever_moved", "1")
    ∷ ("profanity_extra", "")
    ∷ ("safelist_extra", "")
    ∷ ("cabal_min_players", "3")
    ∷ ("cabal_wake_value", "536000")
    ∷ ("cabal_sleep_value", "268000")
    ∷ ("cabal_scale_pct", "35")
    ∷ ("cabal_max_planet_fighters", "15000")
    ∷ ("ren_min_players", "2")
    ∷ ("ren_target_value", "134000")
    ∷ ("faction_quiet_days", "3")
    ∷ ("faction_target_floor", "200000")
    ∷ ("cabal_active", "0")
    ∷ ("ren_active", "0")
    ∷ []

-- One entry of the loop over the defaults: a key that is there keeps its value.
seed_one : String × String → Config → Config
seed_one (k, v) config = elim (lookup k config) [ some _ ↦ config | none ↦ insert k v config ]

-- The loop, in the order of the list. (Go's order is not fixed; the keys are distinct, so it does not
-- matter to any lookup.)
pub seed_all : Config → Config → Config
unfolding seed_one
seed_all [] config = config
seed_all (d ∷ ds) config = seed_all ds (seed_one d config)

unfoldable pub seed_default_config : Config → Config
unfolding seed_all
seed_default_config config = seed_all defaults config

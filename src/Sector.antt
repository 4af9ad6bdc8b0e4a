-- ===== src/Sector.antt =====
-- pkg/galwar/sector.go: the warps of a sector; and pkg/galwar/specials.go, `UsePlasma`, which rewires
-- them. `sort.Ints` on a list is an insertion sort here. The lines of the report are left out.
pub mod Warps
pub mod Plasma
mod Tests
use galwar.Base.{
  ℕ, suc, ◌+◌, Bool, true, false, ◌||◌, not, List, [], ◌∷◌, ◌++◌, ◌==◌, ltb, leb, length, get_or,
  set, if◌then◌else◌,
}
use galwar.Base.Int.{ℤ, pos, negsuc, ltb_ℤ, leb_ℤ}
use galwar.GameError.{
  Command, Done, ◌>>=◌, ◌>>◌, refuse_if, get, modify, err_dead, err_not_enough_quantity,
  err_fed_restricted, err_not_found, err_unknown, err_already_exists,
}
use galwar.Inventory.Goods.{plasma}
use galwar.Config.{config_int}
use galwar.Player.{Player, is_dead, has, adjust, spend_turn}
use galwar.Universe.{Universe, Sector, on_player, player_at, mark_dirty}

-- `HasWarp`
pub contains : ℕ → List ℕ → Bool
contains w [] = false
contains w (v ∷ vs) = if v == w then true else contains w vs

pub insert_sorted : ℕ → List ℕ → List ℕ
insert_sorted w [] = w ∷ []
insert_sorted w (v ∷ vs) = let rest = insert_sorted w vs in if leb w v then w ∷ v ∷ vs else v ∷ rest

-- `sort.Ints`
pub sort : List ℕ → List ℕ
unfolding insert_sorted
sort [] = []
sort (v ∷ vs) = insert_sorted v (sort vs)

pub add_to : ℕ → List ℕ → List ℕ
unfolding contains sort
add_to w vs = if contains w vs then vs else sort (vs ++ (w ∷ []))

-- The first occurrence goes.
pub remove_from : ℕ → List ℕ → List ℕ
remove_from w [] = []
remove_from w (v ∷ vs) = let rest = remove_from w vs in if v == w then vs else v ∷ rest

pub has_warp : ℕ → Sector → Bool
unfolding contains
has_warp w s = contains w s.warps

pub add_warp : ℕ → Sector → Sector
unfolding add_to
add_warp w s = record s { warps = add_to w s.warps }

pub remove_warp : ℕ → Sector → Sector
unfolding remove_from
remove_warp w s = record s { warps = remove_from w s.warps }

abbrev pub no_sector : Sector
no_sector = record { number = 0; warps = [] }

abbrev pub sector_at : Universe → ℕ → Sector
sector_at u n = get_or u.sectors n no_sector

abbrev pub on_sector : ℕ → (Sector → Sector) → Universe → Universe
on_sector n f u = record u { sectors = set u.sectors n (f (sector_at u n)) }

pub data PlasmaAction : Type 0 where
  plasma_add plasma_remove : PlasmaAction

-- The lines that both actions end with.
pub fire : ℕ → (ℕ → Sector → Sector) → ℕ → ℕ → Command Universe Done
fire i rewire src target = do
  on_player i spend_turn
  modify (on_sector src (rewire target))
  modify (on_sector target (rewire src))
  modify (λ (u : Universe). (on_player i (modify (adjust plasma (negsuc 0))) u).1)
  modify mark_dirty

pub link : ℕ → ℕ → ℕ → Command Universe Done
unfolding has_warp add_warp fire
link i src target = do
  u ← get (λ (u : Universe). u)
  refuse_if (has_warp target (sector_at u src)) err_already_exists
  max_warps ← get (λ (u : Universe). config_int u.config "max_warps" (pos 8))
  refuse_if (leb_ℤ max_warps (pos (length (sector_at u src).warps))) err_not_enough_quantity
  refuse_if (leb_ℤ max_warps (pos (length (sector_at u target).warps))) err_not_enough_quantity
  fire i add_warp src target

pub sever : ℕ → ℕ → ℕ → Command Universe Done
unfolding has_warp remove_warp fire
sever i src target = do
  u ← get (λ (u : Universe). u)
  refuse_if (not (has_warp target (sector_at u src))) err_not_found
  fire i remove_warp src target

pub rewire : PlasmaAction → ℕ → ℕ → ℕ → Command Universe Done
unfolding link sever
rewire plasma_add = link
rewire plasma_remove = sever

unfoldable pub use_plasma : ℕ → PlasmaAction → ℕ → Command Universe Done
unfolding rewire
use_plasma i action target = do
  u ← get (λ (u : Universe). u)
  refuse_if (is_dead (player_at u i)) err_dead
  refuse_if (ltb_ℤ (has plasma (player_at u i)) (pos 1)) err_not_enough_quantity
  refuse_if (leb (player_at u i).sector 10) err_fed_restricted
  refuse_if (ltb target 1 || leb (length u.sectors) target) err_not_found
  refuse_if (leb target 10) err_fed_restricted
  refuse_if (target == (player_at u i).sector) err_unknown
  rewire action i (player_at u i).sector target

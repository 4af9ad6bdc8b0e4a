-- ===== src/Battlegroup.antt =====
-- pkg/galwar/battlegroup.go: the defense force of a sector. A pointer to a battlegroup is an index
-- into the list.
pub mod Armed
pub mod Group
pub mod Adjust
mod Tests
use galwar.Base.{
  ℕ, zero, suc, ◌+◌, Bool, true, false, not, Option, none, some, List, [], ◌∷◌, ◌++◌, ◌==◌, leb,
  length, get_or, set, if◌then◌else◌,
}
use galwar.Base.Int.{ℤ, pos, ◌+ℤ◌, ◌-ℤ◌, ltb_ℤ}
use galwar.GameError.{
  Command, Result, Done, ok, err, ◌>>=◌, ◌>>◌, refuse_if, get, modify, fail, pure, err_not_owner,
  err_negative_quantity, err_fed_restricted, err_not_enough_quantity,
}
use galwar.Inventory.{InventoryBase, get_quantity, set_quantity, has_inventory}
use galwar.Inventory.Goods.{Commodity}
use galwar.Transfer.{total}
use galwar.Universe.{Universe, Battlegroup, empty_inventory, mark_dirty, player_at, set_player}

-- `NewBattlegroup`, with the pointer that it returns
pub new_battlegroup : ℕ → ℕ → Universe → ℕ × Universe
new_battlegroup owner sector u = (
  length u.battlegroups,
  record u {
    battlegroups =
        u.battlegroups ++ (record { owner = owner; sector = sector; inv = empty_inventory } ∷ []);
  },
)

-- `RemoveBattlegroup`
unfoldable pub remove_at {ℓ} : {A : Type ℓ} → ℕ → List A → List A
remove_at k [] = []
remove_at zero (x ∷ xs) = xs
remove_at (suc k) (x ∷ xs) = x ∷ remove_at k xs

abbrev pub remove_battlegroup : ℕ → Universe → Universe
remove_battlegroup k u = record u { battlegroups = remove_at k u.battlegroups }

-- The loop of `GetBattlegroup`: the first group of the player's, and whether there is another's.
pub find : ℕ → ℕ → ℕ → Bool → List Battlegroup → Option ℕ × Bool
find id sector k foreign [] = (none, foreign)
find id sector k foreign (b ∷ bs) =
    let rest = find id sector (k + 1) foreign bs in
    let rest_foreign = find id sector (k + 1) true bs in
    if not (b.sector == sector)
    then rest
    else if b.owner == id
    then (some k, foreign)
    else rest_foreign

-- `GetBattlegroup`, on what the loop found
pub decide_group : Bool → ℕ → ℕ → Option ℕ × Bool → Command Universe (Option ℕ)
decide_group create id sector (some k, foreign) u = (ok (some k), u)
decide_group create id sector (none, true) u = (err err_not_owner, u)
decide_group true id sector (none, false) u =
    let (k, u') = new_battlegroup id sector u in (ok (some k), u')
decide_group false id sector (none, false) u = (ok none, u)

pub get_battlegroup : Bool → ℕ → ℕ → Command Universe (Option ℕ)
unfolding find decide_group new_battlegroup
get_battlegroup create id sector u =
    decide_group create id sector (find id sector 0 false u.battlegroups) u

abbrev pub no_group : Battlegroup
no_group = record { owner = 0; sector = 0; inv = empty_inventory }

abbrev pub group_at : Universe → ℕ → Battlegroup
group_at u k = get_or u.battlegroups k no_group

abbrev pub force : Universe → ℕ → List Commodity
force u k = (group_at u k).inv.inventory

abbrev pub crew : Universe → ℕ → List Commodity
crew u i = (player_at u i).inv.inventory

abbrev pub set_force : ℕ → List Commodity → Universe → Universe
set_force k inv u =
    let b = group_at u k in
    record u {
      battlegroups = set u.battlegroups k (record b { inv = record (b.inv) { inventory = inv } });
    }

abbrev pub set_crew : ℕ → List Commodity → Universe → Universe
set_crew i inv u =
    let p = player_at u i in set_player i (record p { inv = record (p.inv) { inventory = inv } }) u

-- `if !bg.HasInventory() { u.Battlegroups.RemoveBattlegroup(bg) }`
abbrev pub drop_if_empty : ℕ → Universe → Universe
drop_if_empty k u = if has_inventory (force u k) then u else remove_battlegroup k u

-- The rest of `AdjustBattlegroup` on the group that was found or made.
pub adjust_group : ℕ → ℕ → ℤ → ℕ → Command Universe Done
adjust_group i kind amount k u =
    let all = total kind (force u k) (crew u i) in
    if ltb_ℤ all amount then (err err_not_enough_quantity, drop_if_empty k u) else (
      ok tt,
      mark_dirty (
          drop_if_empty k (
            set_crew i (set_quantity kind (all -ℤ amount) (crew u i))
              (set_force k (set_quantity kind amount (force u k)) u))),
    )

-- With `create` there is no nil group without an error.
abbrev pub made : Option ℕ → Command Universe ℕ
made (some k) = pure k
made none = fail err_not_owner

unfoldable pub adjust_battlegroup : ℕ → ℕ → ℕ → ℤ → Command Universe Done
unfolding adjust_group get_battlegroup
adjust_battlegroup i sector kind amount = do
  refuse_if (ltb_ℤ amount (pos 0)) err_negative_quantity
  refuse_if (leb sector 10) err_fed_restricted
  id ← get (λ (u : Universe). (player_at u i).id)
  found ← get_battlegroup true id sector
  k ← made found
  adjust_group i kind amount k

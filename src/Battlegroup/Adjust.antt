-- ===== src/Battlegroup/Adjust.antt =====
-- What setting a sector's defense force does: pkg/galwar/battlegroup.go, `AdjustBattlegroup`.
use galwar.Base.{
  ℕ, ◌+◌, ◌<◌, ◌≤◌, ◌≡◌, ◌⊎◌, Option, none, some, List, [], ◌∷◌, ◌++◌, length, get_or,
}
use galwar.Base.Int.{ℤ, pos, ◌≤ℤ◌}
use galwar.GameError.{Result, Done, ok, err}
use galwar.Universe.{Universe, Battlegroup, player_at, empty_inventory}
use galwar.Battlegroup.{group_at, no_group}
use galwar.Battlegroup.Armed.{AllArmed}
use galwar.Battlegroup.Group.{Adjusted}

-- The index that the loop returns is one of a group of the player's in the sector.
abbrev Found : ℕ → ℕ → ℕ → List Battlegroup → Option ℕ → Type 0
Found id sector k bs none = Unit
Found id sector k bs (some m) =
    (j : ℕ) × (m ≡ k + j)
    × (j < length bs)
    × ((get_or bs j no_group).owner ≡ id)
    × ((get_or bs j no_group).sector ≡ sector)

-- The group that is set: the player's own in the sector, or a new one at the end of the list.
pub Whose : ℕ → ℕ → Universe → ℕ → Type 0
Whose i sector u k =
    ((k < length u.battlegroups)
      × ((group_at u k).owner ≡ (player_at u i).id)
      × ((group_at u k).sector ≡ sector))
    ⊎ (k ≡ length u.battlegroups)

-- What `AdjustBattlegroup` has done.
abbrev pub Defends : ℕ → ℕ → ℕ → ℤ → Universe → Result Done × Universe → Type 0
Defends i sector kind amount u (ok _, u') =
    (pos 0 ≤ℤ amount)
    × (11 ≤ sector)
    × ((k : ℕ) × Whose i sector u k × Adjusted i sector kind amount u k u')
Defends i sector kind amount u (err e, u') = u' ≡ u

module _ (i sector kind : ℕ) (amount : ℤ) (u : Universe) (inside : i < length u.players)
    (low : pos 0 ≤ℤ amount) (far : 11 ≤ sector) (all : AllArmed u.battlegroups) where
  abbrev fresh : Battlegroup
  fresh = record { owner = (player_at u i).id; sector = sector; inv = empty_inventory }

  abbrev grown : Universe
  grown = record u { battlegroups = u.battlegroups ++ (fresh ∷ []) }

  abbrev last : ℕ
  last = length u.battlegroups

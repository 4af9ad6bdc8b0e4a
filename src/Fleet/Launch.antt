-- ===== src/Fleet/Launch.antt =====
-- Which strike fleets are sent, and what they cost: pkg/galwar/combat.go, `LaunchBattleGroup`.
use galwar.Base.{ℕ, ◌<◌, ◌≤◌, ◌≡◌, ◌≢◌, ◌⊎◌, false, List, ◌∷◌, length}
use galwar.Base.Int.{ℤ, pos, ◌-ℤ◌, ◌≤ℤ◌}
use galwar.Float64.{Float64}
use galwar.GameError.{Result, Done, ok, err}
use galwar.Inventory.Goods.{fighters}
use galwar.Player.{is_dead, has, sys_bg_computer}
use galwar.Universe.{Universe, player_at}
use galwar.Universe.Sound.{Sound}
use galwar.World.{World, pay, has_in}
use galwar.World.Orders.{checked, Intact}
use galwar.Route.{way, shortest_path_to}
use galwar.Fleet.Homecoming.{voyage}

-- What `LaunchBattleGroup` asks of a ship, its target and its fleet; `secs` are the sectors of the way.
pub record Planned (i target : ℕ) (ships : ℤ) (u : Universe) (secs : List ℕ) : Type 0 where
  pub in_range : (1 ≤ target) × (target < length u.sectors)
  pub elsewhere : target ≢ (player_at u i).sector
  pub some_sent : pos 1 ≤ℤ ships
  pub aboard : ships ≤ℤ has fighters (player_at u i)
  pub route : (sec : ℕ) × (shortest_path_to u (player_at u i).sector target ≡ way (sec ∷ secs))

-- A fleet that was sent: the ship's conditions, the turn, and the account of its fighters
pub record Launched (tries : ℕ) (fl : Float64) (i target : ℕ) (ships now : ℤ) (w w' : World)
    (secs : List ℕ) : Type 0 where
  pub alive : is_dead (player_at (w.0) i) ≡ false
  pub computer : Intact i sys_bg_computer w
  pub planned : Planned i target ships ((checked i w).0) secs
  pub turn_spent : (pay i (checked i w)).0 ≡ ok tt
  pub left_le : (voyage tries fl i secs ships now (pay i (checked i w)).1).0 ≤ℤ ships
  pub left_nonneg : pos 0 ≤ℤ (voyage tries fl i secs ships now (pay i (checked i w)).1).0
  pub account :
      has_in fighters w' i
      ≡ has_in fighters (checked i w) i
        -ℤ (ships -ℤ (voyage tries fl i secs ships now (pay i (checked i w)).1).0)

abbrev pub Launches : ℕ → Float64 → ℕ → ℕ → ℤ → ℤ → World → Result Done × World → Type 0
Launches tries fl i target ships now w (ok _, w') =
    (secs : List ℕ) × Launched tries fl i target ships now w w' secs
Launches tries fl i target ships now w (err e, w') = (w' ≡ w) ⊎ (w' ≡ checked i w)

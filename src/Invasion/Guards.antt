-- ===== src/Invasion/Guards.antt =====
-- Which invasions are fought: the guards of `InvadePlanet`, pkg/galwar/combat.go.
use galwar.Base.{ℕ, ◌<◌, ◌≡◌, ◌≢◌, ◌⊎◌, false, length}
use galwar.Base.Int.{ℤ, pos, ◌≤ℤ◌}
use galwar.GameError.{Result, Done, ok, err}
use galwar.Inventory.Goods.{fighters}
use galwar.Player.{is_dead, has, sys_thrusters}
use galwar.Universe.{Universe, Planet, player_at}
use galwar.Planet.{planet_at}
use galwar.World.{World, pay}
use galwar.World.Orders.{checked, Intact}
use galwar.Invasion.Open.{Claims}

-- What an invasion asks of the ship, of planet `j` and of the fighters committed
pub record Besieges (i : ℕ) (commit : ℤ) (u : Universe) (j : ℕ) : Type 0 where
  pub known : j < length u.planets
  pub here : (planet_at u j).sector ≡ (player_at u i).sector
  pub first : (n : ℕ) → n < j → (planet_at u n).sector ≢ (player_at u i).sector
  pub foreign : (planet_at u j).owner ≢ (player_at u i).id
  pub some_committed : pos 1 ≤ℤ commit
  pub aboard : commit ≤ℤ has fighters (player_at u i)

-- How an invasion ended: it was fought over the planet, by a ship that may and for a turn; or it
-- was refused.
pub record Fought (i : ℕ) (commit : ℤ) (w : World) (j : ℕ) : Type 0 where
  pub alive : is_dead (player_at (w.0) i) ≡ false
  pub thrusters : Intact i sys_thrusters w
  pub besieges : Besieges i commit ((checked i w).0) j
  pub turn_spent : (pay i (checked i w)).0 ≡ ok tt

abbrev pub Invades : ℕ → ℤ → World → Result Done × World → Type 0
Invades i commit w (ok _, w') =
    (j : ℕ) × Fought i commit w j × Claims i j (pay i (checked i w)).1 w'
Invades i commit w (err e, w') = (w' ≡ w) ⊎ (w' ≡ checked i w)

-- ===== src/Death/Kit.antt =====
-- What a new ship carries: pkg/galwar/death.go, `resetToStartingShip` and `ReconstructIfDue`.
use galwar.Base.{ℕ, ◌≡◌, refl, Bool, true, false, Bool-cases, ◌⊎◌, inl, inr, ◌<◌, length}
use galwar.Base.Int.{ℤ, pos, ◌-ℤ◌, ◌*ℤ◌, ◌/ℤ◌, eqb_ℤ}
use galwar.Float64.{Float64}
use galwar.Inventory.{get_quantity, get_commodity}
use galwar.Inventory.Goods.{holds, fighters, turns}
use galwar.Config.{Config, config_int}
use galwar.Player.{Player, is_dead, move_to, intact}
use galwar.Universe.{Universe, player_at, nobody}
use galwar.Universe.Pointers.{get_or-set_self}
use galwar.Death.{kit, issued, reset_to_starting_ship, day, penalty, reconstruct_if_due}

-- A starting ship at `mult` percent.
pub record IsNewShip (config : Config) (mult : ℤ) (p : Player) : Type 0 where
  pub credits : p.money ≡ config_int config "starting_credits" (pos 35000) *ℤ mult /ℤ pos 100
  pub cargo_holds :
      get_quantity holds p.inventory
      ≡ config_int config "starting_holds" (pos 25) *ℤ mult /ℤ pos 100
  pub fleet :
      get_quantity fighters p.inventory
      ≡ config_int config "starting_fighters" (pos 200) *ℤ mult /ℤ pos 100
  pub day_turns : get_quantity turns p.inventory ≡ config_int config "turns_per_day" (pos 250)
  pub repaired : p.systems ≡ intact
  pub no_reserve : p.banked_turns ≡ pos 0

reset-IsNewShip :
    (config : Config) (mult : ℤ) (p : Player)
    → IsNewShip config mult (reset_to_starting_ship config mult p)
unfolding reset_to_starting_ship kit issued get_quantity get_commodity
reset-IsNewShip config mult p = record {
  credits = refl;
  cargo_holds = refl;
  fleet = refl;
  day_turns = refl;
  repaired = refl;
  no_reserve = refl;
}

pub same_day : Player → ℤ → Bool
unfolding day
same_day p now = eqb_ℤ (day p.died_at) (day now)

-- A player before and after a rebuild.
pub record IsRebuilt (fl : Float64) (u u' : Universe) (i : ℕ) : Type 0 where
  pub was_dead : is_dead (player_at u i) ≡ true
  pub lives : is_dead (player_at u' i) ≡ false
  pub at_sol : (player_at u' i).sector ≡ 1
  pub new_ship :
      IsNewShip u.config (pos 100 -ℤ penalty fl (player_at u i).times_died) (player_at u' i)
  pub account_kept : (player_at u' i).bank_balance ≡ (player_at u i).bank_balance
  pub deaths_kept : (player_at u' i).times_died ≡ (player_at u i).times_died

-- What the check at login has done: a rebuild of a ship that was lost on an earlier day, or nothing.
abbrev pub Rebuilds : Float64 → ℕ → ℤ → Universe → Bool × Universe → Type 0
Rebuilds fl i now u (true, u') = IsRebuilt fl u u' i × (same_day (player_at u i) now ≡ false)
Rebuilds fl i now u (false, u') =
    (u' ≡ u) × ((is_dead (player_at u i) ≡ false) ⊎ (same_day (player_at u i) now ≡ true))

module _ (fl : Float64) (u : Universe) (i : ℕ) where
  abbrev rebuilt : Player
  rebuilt =
      let p = player_at u i in
      move_to 1 (record (reset_to_starting_ship u.config (pos 100 -ℤ penalty fl p.times_died) p) {
        died_at = pos 0;
      })

  rebuilt_alive : is_dead rebuilt ≡ false
  unfolding is_dead move_to reset_to_starting_ship
  rebuilt_alive = refl

  rebuilt-IsNewShip : IsNewShip u.config (pos 100 -ℤ penalty fl (player_at u i).times_died) rebuilt
  unfolding move_to reset_to_starting_ship
  rebuilt-IsNewShip =
      let new =
        reset-IsNewShip u.config (pos 100 -ℤ penalty fl (player_at u i).times_died)
          (player_at u i) in
      record {
        credits = new.credits;
        cargo_holds = new.cargo_holds;
        fleet = new.fleet;
        day_turns = new.day_turns;
        repaired = new.repaired;
        no_reserve = new.no_reserve;
      }

  rebuilt-IsRebuilt :
      (p : Player)
      → p ≡ rebuilt
      → is_dead (player_at u i) ≡ true
      → (is_dead p ≡ false)
        × (p.sector ≡ 1)
        × IsNewShip u.config (pos 100 -ℤ penalty fl (player_at u i).times_died) p
        × (p.bank_balance ≡ (player_at u i).bank_balance)
        × (p.times_died ≡ (player_at u i).times_died)
  unfolding move_to reset_to_starting_ship
  rebuilt-IsRebuilt p e dead = rw (e) (rebuilt_alive, refl, rebuilt-IsNewShip, refl, refl)

-- The check at login leaves a living player alone, and one who died today. Anyone else has a new ship
-- in sector 1, with credits, holds and fighters cut by the penalty for the number of deaths and a full
-- day of turns; the bank account and the number of deaths stay.
pub reconstruct_if_due-Rebuilds :
    (fl : Float64) (i : ℕ) (now : ℤ) (u : Universe)
    → i < length u.players
    → Rebuilds fl i now u (reconstruct_if_due fl i now u)
unfolding reconstruct_if_due same_day
reconstruct_if_due-Rebuilds fl i now u inside = elim (Bool-cases (is_dead (player_at u i))) [
  | inr alive ↦ rw (alive) (refl, inl alive)
  | inl dead ↦ elim (Bool-cases (eqb_ℤ (day (player_at u i).died_at) (day now))) [
    | inl today ↦ rw (dead, today) (refl, inr today)
    | inr due ↦
        let (lives, at_sol, new_ship, account, deaths) =
          rebuilt-IsRebuilt fl u i _ (get_or-set_self u.players i (rebuilt fl u i) nobody inside)
            dead in
        rw (dead, due)
          (
            record {
              was_dead = dead;
              lives = lives;
              at_sol = at_sol;
              new_ship = new_ship;
              account_kept = account;
              deaths_kept = deaths;
            },
            due,
          )
  ]
]

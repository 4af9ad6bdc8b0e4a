-- ===== src/Dormancy.antt =====
-- pkg/galwar/dormancy.go: players who stay away. A time.Time is its nanoseconds since the epoch, and
-- a Duration saturates as time.Sub does.
use galwar.Base.{ℕ, Bool, false, ◌||◌, if◌then◌else◌}
use galwar.Base.Int.{ℤ, pos, ◌-ℤ◌, ◌*ℤ◌, ◌/ℤ◌, ltb_ℤ, eqb_ℤ}
use galwar.Config.{Config, config_int}
use galwar.Float64.{Float64, float_zero}
use galwar.Player.{Player, is_npc, is_dead}

abbrev pub nanoseconds : ℤ
nanoseconds = pos 1_000_000_000

abbrev hour_nanoseconds : ℤ
hour_nanoseconds = pos 3_600_000_000_000

abbrev max_duration : ℤ
max_duration = pos 9_223_372_036_854_775_807

abbrev min_duration : ℤ
min_duration = pos 0 -ℤ pos 9_223_372_036_854_775_808

-- `t.Sub(u)`
pub duration : ℤ → ℤ → ℤ
duration t u =
    if ltb_ℤ max_duration (t -ℤ u)
    then max_duration
    else if ltb_ℤ (t -ℤ u) min_duration
    then min_duration
    else t -ℤ u

module _ (fl : Float64) where
  open fl use {of_int, add, div, le}

  -- `d.Hours()`
  pub hours : ℤ → ℕ
  hours d =
      let whole = d /ℤ hour_nanoseconds in
      add (of_int whole) (div (of_int (d -ℤ whole *ℤ hour_nanoseconds)) (of_int hour_nanoseconds))

  pub days_absent : Player → ℤ → ℕ
  unfolding duration hours
  days_absent p now =
      if eqb_ℤ p.last_seen (pos 0)
      then float_zero
      else div (hours (duration now (p.last_seen *ℤ nanoseconds))) (of_int (pos 24))

  unfoldable pub is_dormant : Config → Player → ℤ → Bool
  unfolding days_absent
  is_dormant config p now =
      if is_npc p || is_dead p
      then false
      else le (of_int (config_int config "dormant_days" (pos 5))) (days_absent p now)

  unfoldable pub is_expired : Config → Player → ℤ → Bool
  unfolding days_absent
  is_expired config p now =
      if is_npc p || is_dead p || p.expired
      then false
      else le (of_int (config_int config "expire_days" (pos 30))) (days_absent p now)

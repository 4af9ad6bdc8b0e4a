-- ===== src/Config/Tests.antt =====
-- The settings at concrete keys.
use galwar.Base.{◌≡◌, refl, some, none, [], ◌∷◌}
use galwar.Base.Int.{pos, negsuc, ◌-ℤ◌}
use galwar.Text.{atoi}
use galwar.Config.{Config, config_int}

parsed : atoi "-40" ≡ some (negsuc 39)
unfolding atoi ◌-ℤ◌
parsed = refl

not_parsed : atoi "4O" ≡ none
unfolding atoi
not_parsed = refl

abbrev tuned : Config
tuned = ("max_warps", "6") ∷ ("dormant_days", "soon") ∷ []

tuned_warps : config_int tuned "max_warps" (pos 8) ≡ pos 6
unfolding config_int atoi
tuned_warps = refl

bad_number : config_int tuned "dormant_days" (pos 5) ≡ pos 5
unfolding config_int atoi
bad_number = refl

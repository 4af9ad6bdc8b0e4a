-- ===== src/Computer/Flags.antt =====
-- The flags of the visited sectors: pkg/galwar/computer.go, `NearestPort`.
use galwar.Base.{
  ℕ, zero, suc, ◌+◌, ◌<◌, ◌≡◌, refl, ◌⊎◌, inl, inr, Bool, true, false, List, [], ◌∷◌, length,
  get_or, set, if◌then◌else◌, arith,
}

-- How many sectors have no flag yet
abbrev pub unflagged : List Bool → ℕ
unflagged [] = 0
unflagged (flag ∷ flags) = let rest = unflagged flags in if flag then rest else rest + 1

abbrev pub flagged : List Bool → ℕ → Bool
flagged flags sector = get_or flags sector false

pub flagged-set_self :
    (flags : List Bool) (sector : ℕ)
    → sector < length flags
    → flagged (set flags sector true) sector ≡ true
flagged-set_self [] sector inside = absurd (omega (arith, inside))
flagged-set_self (flag ∷ flags) zero inside = refl
flagged-set_self (flag ∷ flags) (suc sector) inside = flagged-set_self flags sector (omega arith)

pub flagged-set_stays :
    (flags : List Bool) (sector other : ℕ)
    → flagged flags other ≡ true
    → flagged (set flags sector true) other ≡ true
flagged-set_stays [] sector other old = old
flagged-set_stays (flag ∷ flags) zero zero old = refl
flagged-set_stays (flag ∷ flags) zero (suc other) old = old
flagged-set_stays (flag ∷ flags) (suc sector) zero old = old
flagged-set_stays (flag ∷ flags) (suc sector) (suc other) old =
    flagged-set_stays flags sector other old

pub flagged-set_inv :
    (flags : List Bool) (sector other : ℕ)
    → flagged (set flags sector true) other ≡ true
    → (other ≡ sector) ⊎ (flagged flags other ≡ true)
flagged-set_inv [] sector other now = inr now
flagged-set_inv (flag ∷ flags) zero zero now = inl refl
flagged-set_inv (flag ∷ flags) zero (suc other) now = inr now
flagged-set_inv (flag ∷ flags) (suc sector) zero now = inr now
flagged-set_inv (flag ∷ flags) (suc sector) (suc other) now =
    ground (arith, flagged-set_inv flags sector other now)

-- A new flag leaves one sector fewer without one.
pub unflagged-set :
    (flags : List Bool) (sector : ℕ)
    → sector < length flags
    → flagged flags sector ≡ false
    → unflagged (set flags sector true) + 1 ≡ unflagged flags
unflagged-set [] sector inside fresh = absurd (omega (arith, inside))
unflagged-set (flag ∷ flags) zero inside fresh = ground (arith, fresh)
unflagged-set (flag ∷ flags) (suc sector) inside fresh =
    ground (arith, unflagged-set flags sector (omega arith) fresh)

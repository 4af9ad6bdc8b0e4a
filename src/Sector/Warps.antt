-- ===== src/Sector/Warps.antt =====
-- A sector's warps as a strictly sorted list: pkg/galwar/sector.go.
use galwar.Base.{
  ℕ, ◌<◌, ◌≡◌, ◌≢◌, refl, inl, inr, ◌∙◌, true, false, ◌&&◌, ◌||◌, not, List, [], ◌∷◌, ◌++◌, ◌==◌,
  ==_iff, leb, Bool-cases, arith, leb→gt,
}
use galwar.Sector.{contains, insert_sorted, sort, add_to, remove_from}

-- Every warp of the list is above a number; and the list is strictly increasing.
abbrev pub Above : ℕ → List ℕ → Type 0
Above w [] = Unit
Above w (v ∷ vs) = (w < v) × Above w vs

abbrev pub Increasing : List ℕ → Type 0
Increasing [] = Unit
Increasing (v ∷ vs) = Above v vs × Increasing vs

contains-insert_sorted :
    (x w : ℕ) (vs : List ℕ) → contains x (insert_sorted w vs) ≡ (w == x) || contains x vs
unfolding contains insert_sorted
contains-insert_sorted x w [] = ground arith
contains-insert_sorted x w (v ∷ vs) = ground (arith, contains-insert_sorted x w vs)

contains-append : (x w : ℕ) (vs : List ℕ) → contains x (vs ++ (w ∷ [])) ≡ (w == x) || contains x vs
unfolding contains
contains-append x w [] = ground arith
contains-append x w (v ∷ vs) = ground (arith, contains-append x w vs)

contains-sort : (x : ℕ) (vs : List ℕ) → contains x (sort vs) ≡ contains x vs
unfolding sort contains
contains-sort x [] = refl
contains-sort x (v ∷ vs) = ground (arith, contains-insert_sorted x v (sort vs), contains-sort x vs)

already : (x w : ℕ) (vs : List ℕ) → contains w vs ≡ true → contains x vs ≡ (w == x) || contains x vs
already x w vs h = elim (Bool-cases (w == x)) [
  | inl same ↦ let e = (==_iff w x).0 same in rw (same) (rw (e) at h)
  | inr other ↦ rw (other) refl
]

-- After `AddWarp(w)` the warps are `w` and those that were there.
pub contains-add_to : (x w : ℕ) (vs : List ℕ) → contains x (add_to w vs) ≡ (w == x) || contains x vs
unfolding add_to
contains-add_to x w vs = elim (Bool-cases (contains w vs)) [
  | inl there ↦ rw (there) (already x w vs there)
  | inr absent ↦ rw (absent) (contains-sort x (vs ++ (w ∷ [])) ∙ contains-append x w vs)
]

Above-absent : (w : ℕ) (vs : List ℕ) → Above w vs → contains w vs ≡ false
unfolding contains
Above-absent w [] h = refl
Above-absent w (v ∷ vs) h = ground (arith, Above-absent w vs h.1)

-- After `RemoveWarp(w)` on a strictly increasing list the warps are those that were there, without `w`.
pub contains-remove_from :
    (x w : ℕ) (vs : List ℕ)
    → Increasing vs
    → contains x (remove_from w vs) ≡ contains x vs && not (w == x)
unfolding contains remove_from
contains-remove_from x w [] h = refl
contains-remove_from x w (v ∷ vs) h =
    ground (arith, contains-remove_from x w vs h.1, Above-absent v vs h.0)

Above-insert_sorted : (a w : ℕ) (vs : List ℕ) → a < w → Above a vs → Above a (insert_sorted w vs)
unfolding insert_sorted
Above-insert_sorted a w [] h k = (h, tt)
Above-insert_sorted a w (v ∷ vs) h k = elim (Bool-cases (leb w v)) [
  | inl le ↦ rw (le) (h, k)
  | inr gt ↦ rw (gt) (k.0, Above-insert_sorted a w vs h k.1)
]

Above-trans : (a b : ℕ) (vs : List ℕ) → a < b → Above b vs → Above a vs
Above-trans a b [] h k = tt
Above-trans a b (v ∷ vs) h k = (omega (arith, k.0), Above-trans a b vs h k.1)

Increasing-insert_sorted :
    (w : ℕ) (vs : List ℕ) → contains w vs ≡ false → Increasing vs → Increasing (insert_sorted w vs)
unfolding insert_sorted contains
Increasing-insert_sorted w [] h k = (tt, tt)
Increasing-insert_sorted w (v ∷ vs) h k = elim (Bool-cases (leb w v)) [
  | inl le ↦ let lt : w < v = ground (arith, h) in rw (le) ((lt, Above-trans w v vs lt k.0), k)
  | inr gt ↦
      let lt : v < w = leb→gt w v gt in
      let absent : contains w vs ≡ false = ground (arith, h) in
      rw (gt) (Above-insert_sorted v w vs lt k.0, Increasing-insert_sorted w vs absent k.1)
]

Distinct : List ℕ → Type 0
Distinct [] = Unit
Distinct (v ∷ vs) = (contains v vs ≡ false) × Distinct vs

Increasing-sort : (vs : List ℕ) → Distinct vs → Increasing (sort vs)
unfolding sort Distinct
Increasing-sort [] d = tt
Increasing-sort (v ∷ vs) d =
    Increasing-insert_sorted v (sort vs) (contains-sort v vs ∙ d.0) (Increasing-sort vs d.1)

contains_new :
    (x w : ℕ) (vs : List ℕ) → contains x vs ≡ false → w ≢ x → contains x (vs ++ (w ∷ [])) ≡ false
contains_new x w vs h ne = contains-append x w vs ∙ ground (arith, h, ne)

Distinct-new :
    (w : ℕ) (vs : List ℕ) → contains w vs ≡ false → Increasing vs → Distinct (vs ++ (w ∷ []))
unfolding Distinct contains
Distinct-new w [] h k = (refl, tt)
Distinct-new w (v ∷ vs) h k =
    let ne : w ≢ v = ground (arith, h) in
    let absent : contains w vs ≡ false = ground (arith, h) in
    (contains_new v w vs (Above-absent v vs k.0) ne, Distinct-new w vs absent k.1)

-- `AddWarp` keeps the list of warps strictly increasing.
pub add_to-Increasing : (w : ℕ) (vs : List ℕ) → Increasing vs → Increasing (add_to w vs)
unfolding add_to
add_to-Increasing w vs k = elim (Bool-cases (contains w vs)) [
  | inl there ↦ rw (there) k
  | inr absent ↦ rw (absent) (Increasing-sort (vs ++ (w ∷ [])) (Distinct-new w vs absent k))
]

Above-remove_from : (a w : ℕ) (vs : List ℕ) → Above a vs → Above a (remove_from w vs)
unfolding remove_from
Above-remove_from a w [] h = tt
Above-remove_from a w (v ∷ vs) h = elim (Bool-cases (v == w)) [
  | inl here ↦ rw (here) h.1
  | inr away ↦ rw (away) (h.0, Above-remove_from a w vs h.1)
]

-- So does `RemoveWarp`.
pub remove_from-Increasing : (w : ℕ) (vs : List ℕ) → Increasing vs → Increasing (remove_from w vs)
unfolding remove_from
remove_from-Increasing w [] h = tt
remove_from-Increasing w (v ∷ vs) h = elim (Bool-cases (v == w)) [
  | inl here ↦ rw (here) h.1
  | inr away ↦ rw (away) (Above-remove_from v w vs h.0, remove_from-Increasing w vs h.1)
]

-- ===== src/Planet/Lookup.antt =====
-- Whose planet it is: pkg/galwar/planet.go, `GetPlanet`.
use galwar.Base.{
  ℕ, suc, ◌+◌, ◌<◌, ◌≡◌, refl, ap, inl, inr, ◌⊎◌, ◌∙◌, sym, Bool, true, false, ◌&&◌, ◌||◌, Option,
  none, some, List, [], ◌∷◌, ◌==◌, length, get_or, Bool-cases, if◌then◌else◌, arith, ==_iff,
}
use galwar.GameError.{Result, ok, err, err_not_owner, err_not_found}
use galwar.Universe.{Planet}
use galwar.Planet.{scan, decide_planet, get_planet, no_planet}

-- Some planet of the list is the player's and in the sector; some is in the sector.
pub owned : ℕ → ℕ → List Planet → Bool
owned id sector [] = false
owned id sector (p ∷ ps) = (p.sector == sector) && (p.owner == id) || owned id sector ps

pub inhabited : ℕ → List Planet → Bool
inhabited sector [] = false
inhabited sector (p ∷ ps) = (p.sector == sector) || inhabited sector ps

-- The planet at an index is the player's and in the sector.
pub record IsOwn (id sector : ℕ) (ps : List Planet) (j : ℕ) : Type 0 where
  pub inside : j < length ps
  pub mine : (get_or ps j no_planet).owner ≡ id
  pub here : (get_or ps j no_planet).sector ≡ sector

-- The last planet of the player's that the loop found, for a list whose first index is `j`.
ScanMine : ℕ → ℕ → ℕ → Option ℕ → List Planet → Option ℕ → Type 0
ScanMine id sector j before ps after =
    ((owned id sector ps ≡ false) × (after ≡ before))
    ⊎ ((k : ℕ) × (after ≡ some (j + k)) × IsOwn id sector ps k)

IsOwn-cons :
    (id sector : ℕ) (p : Planet) (ps : List Planet) (k : ℕ)
    → IsOwn id sector ps k
    → IsOwn id sector (p ∷ ps) (suc k)
IsOwn-cons id sector p ps k o = record {
  inside = omega (arith, o.inside);
  mine = o.mine;
  here = o.here;
}

module _ (id sector j : ℕ) (m f : Option ℕ) (p : Planet) (ps : List Planet) where
  scan_away :
      (p.sector == sector) ≡ false
      → scan id sector j (m, f) (p ∷ ps) ≡ scan id sector (j + 1) (m, f) ps
  unfolding scan
  scan_away e = rw (e) refl

  scan_own :
      (p.sector == sector) ≡ true
      → (p.owner == id) ≡ true
      → scan id sector j (m, f) (p ∷ ps) ≡ scan id sector (j + 1) (some j, f) ps
  unfolding scan
  scan_own e o = rw (e, o) refl

  scan_foreign :
      (p.sector == sector) ≡ true
      → (p.owner == id) ≡ false
      → scan id sector j (m, f) (p ∷ ps)
        ≡ scan id sector (j + 1) (m, elim f [ none ↦ some j | some k ↦ some k ]) ps
  unfolding scan
  scan_foreign e o = rw (e, o) refl

module _ (id sector j : ℕ) (p : Planet) (ps : List Planet) where
  later :
      (before before' after : Option ℕ)
      → ScanMine id sector (j + 1) before ps after
      → ((owned id sector ps ≡ false) × (after ≡ before)
          → ScanMine id sector j before' (p ∷ ps) after)
      → ScanMine id sector j before' (p ∷ ps) after
  unfolding ScanMine
  later before before' after (inl none_later) k = k none_later
  later before before' after (inr (n, e, o)) k =
      inr (suc n, e ∙ ap some (omega arith), IsOwn-cons id sector p ps n o)

  passed :
      (before after : Option ℕ)
      → (p.sector == sector) && (p.owner == id) ≡ false
      → (owned id sector ps ≡ false) × (after ≡ before)
      → ScanMine id sector j before (p ∷ ps) after
  unfolding ScanMine owned
  passed before after other (none_later, e) = inl (rw (other) none_later, e)

  first :
      (before after : Option ℕ)
      → (p.sector == sector) ≡ true
      → (p.owner == id) ≡ true
      → after ≡ some j
      → ScanMine id sector j before (p ∷ ps) after
  unfolding ScanMine
  first before after here mine e = inr (
    0,
    e ∙ ap some (omega arith),
    record {
      inside = omega arith;
      mine = (==_iff p.owner id).0 mine;
      here = (==_iff p.sector sector).0 here;
    },
  )

ScanMine-nil :
    (id sector j : ℕ) (m f : Option ℕ) → ScanMine id sector j m [] (scan id sector j (m, f) []).0
unfolding scan ScanMine owned
ScanMine-nil id sector j m f = inl (refl, refl)

ScanMine-of :
    (id sector j : ℕ) (m f : Option ℕ) (ps : List Planet)
    → ScanMine id sector j m ps (scan id sector j (m, f) ps).0
ScanMine-of id sector j m f [] = ScanMine-nil id sector j m f
ScanMine-of id sector j m f (p ∷ ps) = elim (Bool-cases (p.sector == sector)) [
  | inr away ↦ rw (scan_away id sector j m f p ps away) (
      later id sector j p ps m m _ (ScanMine-of id sector (j + 1) m f ps)
        (passed id sector j p ps m _ (rw (away) refl)))
  | inl here ↦ elim (Bool-cases (p.owner == id)) [
    | inl mine ↦ rw (scan_own id sector j m f p ps here mine) (
        later id sector j p ps (some j) m _ (ScanMine-of id sector (j + 1) (some j) f ps)
          (λ r. first id sector j p ps m _ here mine r.1))
    | inr other ↦ rw (scan_foreign id sector j m f p ps here other) (
        later id sector j p ps m m _ (ScanMine-of id sector (j + 1) m _ ps)
          (passed id sector j p ps m _ (rw (here, other) refl)))
  ]
]

-- Whether the loop has found a planet.
abbrev found : Option ℕ → Bool
found (some _) = true
found none = false

abbrev found_any : Option ℕ × Option ℕ → Bool
found_any (m, f) = found m || found f

kept : (m f : Option ℕ) (j : ℕ) → found_any (m, elim f [ none ↦ some j | some k ↦ some k ]) ≡ true
kept m f j = ground arith

all_true : (b : Bool) → true ≡ b || true
all_true b = ground arith

inhabited-cons :
    (sector : ℕ) (p : Planet) (ps : List Planet)
    → inhabited sector (p ∷ ps) ≡ (p.sector == sector) || inhabited sector ps
unfolding inhabited
inhabited-cons sector p ps = refl

scan_all_nil :
    (id sector j : ℕ) (m f : Option ℕ)
    → found_any (scan id sector j (m, f) []) ≡ found_any (m, f) || inhabited sector []
unfolding scan inhabited
scan_all_nil id sector j m f = ground arith

scan_all :
    (id sector j : ℕ) (m f : Option ℕ) (ps : List Planet)
    → found_any (scan id sector j (m, f) ps) ≡ found_any (m, f) || inhabited sector ps
scan_all id sector j m f [] = scan_all_nil id sector j m f
scan_all id sector j m f (p ∷ ps) = elim (Bool-cases (p.sector == sector)) [
  | inr away ↦
      rw
        (
          scan_away id sector j m f p ps away,
          scan_all id sector (j + 1) m f ps,
          inhabited-cons sector p ps,
          away,
        )
        refl
  | inl here ↦ elim (Bool-cases (p.owner == id)) [
    | inl mine ↦
        rw
          (
            scan_own id sector j m f p ps here mine,
            scan_all id sector (j + 1) (some j) f ps,
            inhabited-cons sector p ps,
            here,
          )
          (all_true (found_any (m, f)))
    | inr other ↦
        rw
          (
            scan_foreign id sector j m f p ps here other,
            scan_all id sector (j + 1) m _ ps,
            kept m f j,
            inhabited-cons sector p ps,
            here,
          )
          (all_true (found_any (m, f)))
  ]
]

-- What the lookup of a planet that must exist returns.
abbrev pub Finds : ℕ → ℕ → List Planet → Result (Option ℕ) → Type 0
Finds id sector ps (ok (some j)) = IsOwn id sector ps j
Finds id sector ps (ok none) = ⊥
Finds id sector ps (err e) =
    (owned id sector ps ≡ false)
    × (e ≡ (if inhabited sector ps then err_not_owner else err_not_found))

index_of : (j k : ℕ) → some j ≡ some (0 + k) → j ≡ k
index_of j k e = ap (λ o. elim o [ some x ↦ x | none ↦ 0 ]) e ∙ omega arith

decided :
    (id sector : ℕ) (ps : List Planet) (s : Option ℕ × Option ℕ)
    → ScanMine id sector 0 none ps s.0
    → found_any s ≡ inhabited sector ps
    → Finds id sector ps (decide_planet true false s)
unfolding decide_planet ScanMine
decided id sector ps (some j, f) (inl r) all = let e = r.1 in cc
decided id sector ps (some j, f) (inr (k, e, o)) all = rw (index_of j k e) o
decided id sector ps (none, some j) (inl r) all = rw (sym all) (r.0, refl)
decided id sector ps (none, none) (inl r) all = rw (sym all) (r.0, refl)
decided id sector ps (none, some j) (inr (k, e, o)) all = cc
decided id sector ps (none, none) (inr (k, e, o)) all = cc

-- `GetPlanet` with MUST_EXIST returns a planet of the player's in the sector if there is one;
-- otherwise it refuses, with "not owner" where the sector has a planet and "not found" where it has
-- none. It never returns a nil planet without an error.
pub get_planet-Finds :
    (id sector : ℕ) (ps : List Planet) → Finds id sector ps (get_planet true false id sector ps)
unfolding get_planet
get_planet-Finds id sector ps =
    decided id sector ps (scan id sector 0 (none, none) ps) (ScanMine-of id sector 0 none none ps)
      (scan_all id sector 0 none none ps)

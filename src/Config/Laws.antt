-- ===== src/Config/Laws.antt =====
-- Reading the settings after writing them: pkg/galwar/config.go.
use Prim.Native.String.{String}
use text.Mathlib.Text.{◌==◌}
use text.Mathlib.TextEquality.{eq_iff}
use text.Mathlib.TextPositions.{eq_refl}
use galwar.Base.{
  ◌≡◌, refl, inl, inr, Bool, true, false, Option, none, some, [], ◌∷◌, if◌then◌else◌, Option-cases,
  arith, ap, ◌∙◌,
}
use galwar.Config.{Config, lookup, insert, seed_one, seed_all, config_string}

same_lookup : (k key : String) (config : Config) → k ≡ key → lookup k config ≡ lookup key config
same_lookup k key config e = ap (λ s. lookup s config) e

-- A lookup after a write sees the value at its key, and the old map at every other key.
pub lookup-insert :
    (key value other : String) (config : Config)
    → lookup other (insert key value config)
      ≡ (if key == other then some value else lookup other config)
unfolding lookup insert
lookup-insert key value other [] = refl
lookup-insert key value other ((k, v) ∷ config) =
    ground
      (arith, eq_iff key other, eq_iff k key, eq_iff k other, lookup-insert key value other config)

-- `SetConfig` and then `ConfigString` of the key gives the value, whatever the default.
pub config_string-insert :
    (key value def : String) (config : Config)
    → config_string (insert key value config) key def ≡ value
unfolding config_string
config_string-insert key value def config =
    let found : lookup key (insert key value config) ≡ some value = simp (lookup-insert, eq_refl) in
    ground arith

abbrev pub or_else : Option String → Option String → Option String
or_else (some v) other = some v
or_else none other = other

or_else-if :
    (b : Bool) (v : String) (o : Option String)
    → or_else (if b then some v else none) o ≡ (if b then some v else o)
or_else-if true v o = refl
or_else-if false v o = refl

or_else_assoc : (a b c : Option String) → or_else (or_else a b) c ≡ or_else a (or_else b c)
or_else_assoc (some v) b c = refl
or_else_assoc none b c = refl

seed_one-lookup :
    (k v key : String) (config : Config)
    → lookup key (seed_one (k, v) config)
      ≡ or_else (lookup key config) (if k == key then some v else none)
unfolding seed_one
seed_one-lookup k v key config = elim (Option-cases (lookup k config)) [
  | inl absent ↦
      rw (absent, seed_one)
        (ground (arith, lookup-insert k v key config, eq_iff k key, same_lookup k key config))
  | inr (w, there) ↦ rw (there, seed_one) (ground (arith, eq_iff k key, same_lookup k key config))
]

-- A key that is set keeps its value when the defaults are seeded, and any other key gets the default
-- that is listed for it, if one is.
pub seed_all-lookup :
    (ds : Config) (key : String) (config : Config)
    → lookup key (seed_all ds config) ≡ or_else (lookup key config) (lookup key ds)
unfolding seed_all lookup
seed_all-lookup [] key config = elim (Option-cases (lookup key config)) [
  | inl e ↦ rw e
  | inr (v, e) ↦ rw e
]
seed_all-lookup ((k, v) ∷ ds) key config =
    seed_all-lookup ds key (seed_one (k, v) config)
    ∙ ap (λ o. or_else o (lookup key ds)) (seed_one-lookup k v key config)
    ∙ or_else_assoc (lookup key config) _ (lookup key ds)
    ∙ ap (or_else (lookup key config)) (or_else-if (k == key) v (lookup key ds))

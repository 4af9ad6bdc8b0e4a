-- ===== src/Value/Ranked.antt =====
-- The order of the rankings, and what the bank does to a player's worth: pkg/galwar/value.go.
use galwar.Base.{◌≡◌, refl, ap, ◌∙◌, inl, inr, List, [], ◌∷◌, Bool-cases, if◌then◌else◌, arith}
use galwar.Base.Int.{ℤ, ◌≤ℤ◌, ltb_ℤ, eqb_ℤ, ltb_ℤ→lt, ltb_ℤ→le, int_laws}
use galwar.Float64.{Float64}
use galwar.Universe.{Universe}
use galwar.Value.{Ranking, rows, place, sort_stable, ranked_players}

-- No row is worth more than a number; and each row is worth no less than those after it.
abbrev pub Under : ℤ → List Ranking → Type 0
Under v [] = Unit
Under v (r ∷ rs) = (r.value ≤ℤ v) × Under v rs

abbrev pub Descending : List Ranking → Type 0
Descending [] = Unit
Descending (r ∷ rs) = Under r.value rs × Descending rs

abbrev pub with_value : ℤ → List Ranking → List Ranking
with_value k [] = []
with_value k (r ∷ rs) = let rest = with_value k rs in if eqb_ℤ r.value k then r ∷ rest else rest

Under-trans : (a b : ℤ) (rs : List Ranking) → a ≤ℤ b → Under a rs → Under b rs
Under-trans a b [] h k = tt
Under-trans a b (r ∷ rs) h k = (omega (arith, k.0), Under-trans a b rs h k.1)

Under-place :
    (v : ℤ) (r : Ranking) (rs : List Ranking) → r.value ≤ℤ v → Under v rs → Under v (place r rs)
unfolding place
Under-place v r [] h k = (h, tt)
Under-place v r (x ∷ xs) h k = elim (Bool-cases (ltb_ℤ r.value x.value)) [
  | inl more ↦ rw (more) (k.0, Under-place v r xs h k.1)
  | inr less ↦ rw (less) (h, k)
]

Descending-place : (r : Ranking) (rs : List Ranking) → Descending rs → Descending (place r rs)
unfolding place
Descending-place r [] d = (tt, tt)
Descending-place r (x ∷ xs) d = elim (Bool-cases (ltb_ℤ r.value x.value)) [
  | inl more ↦
      let le : r.value ≤ℤ x.value = omega (int_laws, ltb_ℤ→lt r.value x.value more) in
      rw (more) (Under-place x.value r xs le d.0, Descending-place r xs d.1)
  | inr less ↦
      let le : x.value ≤ℤ r.value = ltb_ℤ→le r.value x.value less in
      rw (less) ((le, Under-trans x.value r.value xs le d.0), d)
]

Descending-sort_stable : (rs : List Ranking) → Descending (sort_stable rs)
unfolding sort_stable
Descending-sort_stable [] = tt
Descending-sort_stable (r ∷ rs) = Descending-place r (sort_stable rs) (Descending-sort_stable rs)

with_value-place :
    (k : ℤ) (r : Ranking) (rs : List Ranking) → with_value k (place r rs) ≡ with_value k (r ∷ rs)
unfolding place
with_value-place k r [] = refl
with_value-place k r (x ∷ xs) = ground (arith, with_value-place k r xs)

with_value-sort_stable :
    (k : ℤ) (rs : List Ranking) → with_value k (sort_stable rs) ≡ with_value k rs
unfolding sort_stable
with_value-sort_stable k [] = refl
with_value-sort_stable k (r ∷ rs) =
    with_value-place k r (sort_stable rs)
    ∙ ap (λ t. if eqb_ℤ r.value k then r ∷ t else t) (with_value-sort_stable k rs)

-- The rankings go from the highest worth down, and the rows of one worth are the living players' rows
-- of that worth, in the order of the players: none is lost, none is repeated.
pub ranked_players-Descending :
    (fl : Float64) (u : Universe) (now k : ℤ)
    → Descending (ranked_players fl u now)
      × (with_value k (ranked_players fl u now) ≡ with_value k (rows fl u now u.players))
unfolding ranked_players
ranked_players-Descending fl u now k = (
  Descending-sort_stable (rows fl u now u.players),
  with_value-sort_stable k (rows fl u now u.players),
)

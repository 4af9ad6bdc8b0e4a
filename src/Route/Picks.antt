-- ===== src/Route/Picks.antt =====
-- The sectors that `ShortestPathTo`, pkg/galwar/universe.go, may still visit: how many they are,
-- and which one is picked.
use galwar.Base.{
  ℕ, ◌+◌, ◌≤◌, ◌<◌, ◌≡◌, ◌≢◌, sym, ap, ◌∙◌, ◌⊎◌, inl, inr, Bool, true, false, none, some, Option,
  not, ◌&&◌, List, [], ◌∷◌, length, ◌==◌, ltb, Bool-cases, if◌then◌else◌, arith,
}
use mathlib.Core.Path.{subst}
use galwar.Universe.{Sector}
use galwar.Route.{max_int, Labels, put, numbered, pick}
use galwar.Route.Settled.{decide_eq}

-- The number of sectors that are not visited
pub left : (ℕ → Bool) → List Sector → ℕ
left f [] = 0
left f (s ∷ ss) = (if f s.number then 0 else 1) + left f ss

pub ==-same : {a b : ℕ} → a ≡ b → (a == b) ≡ true
==-same e = ground (arith, e)

pub ==-apart : {a b : ℕ} → a ≢ b → (a == b) ≡ false
==-apart ne = ground (arith, ne)

left-put_le : (f : ℕ → Bool) (c : ℕ) (ss : List Sector) → left (put f c true) ss ≤ left f ss
unfolding left
left-put_le f c [] = ground arith
left-put_le f c (s ∷ ss) = ground (arith, left-put_le f c ss)

pub left-put :
    (f : ℕ → Bool) (c : ℕ) (ss : List Sector)
    → numbered c ss ≡ true
    → f c ≡ false
    → left (put f c true) ss < left f ss
unfolding left numbered
left-put f c [] h e = ground (arith, h)
left-put f c (s ∷ ss) h e = elim (decide_eq s.number c) [
  | inl q ↦
      let p : put f c true s.number ≡ true = ground (arith, q) in
      let r : f s.number ≡ false = ap f q ∙ e in ground (arith, p, r, left-put_le f c ss)
  | inr q ↦
      let r : numbered c ss ≡ true = ground (arith, h, q) in
      let p : put f c true s.number ≡ f s.number = ground (arith, q) in
      ground (arith, p, left-put f c ss r e)
]

-- A sector that the search may visit next
abbrev pub Open : Labels → List Sector → ℕ → Type 0
Open l ss v = (numbered v ss ≡ true) × (l.visited v ≡ false) × (l.distance v < max_int)

numbered-tail :
    (v : ℕ) (s : Sector) (ss : List Sector) → numbered v ss ≡ true → numbered v (s ∷ ss) ≡ true
unfolding numbered
numbered-tail v s ss h = ground (arith, h)

numbered-head : (s : Sector) (ss : List Sector) → numbered s.number (s ∷ ss) ≡ true
unfolding numbered
numbered-head s ss = ground arith

Open-tail : (l : Labels) (s : Sector) (ss : List Sector) (v : ℕ) → Open l ss v → Open l (s ∷ ss) v
Open-tail l s ss v (h, fresh, near) = (numbered-tail v s ss h, fresh, near)

pick-Open :
    (l : Labels) (ss : List Sector) (min : ℕ) (next : Option ℕ) (v : ℕ)
    → min ≤ max_int
    → pick l ss min next ≡ some v
    → (next ≡ some v) ⊎ Open l ss v
unfolding pick numbered
pick-Open l [] min next v b h = inl h
pick-Open l (s ∷ ss) min next v b h =
    elim (Bool-cases (not (l.visited s.number) && ltb (l.distance s.number) min)) [
      | inl e ↦
          let near : l.distance s.number < max_int = ground (arith, e, b) in
          elim (pick-Open l ss (l.distance s.number) (some s.number) v (omega (arith, near))
            ((sym (rw e)) ∙ h)) [
              | inl q ↦
                  let same : s.number ≡ v = cc q in
                  inr (subst (Open l (s ∷ ss)) same (numbered-head s ss, ground (arith, e), near))
              | inr o ↦ inr (Open-tail l s ss v o)
            ]
      | inr e ↦ elim (pick-Open l ss min next v b (sym (rw e) ∙ h)) [
        | inl q ↦ inl q
        | inr o ↦ inr (Open-tail l s ss v o)
      ]
    ]

pub Open-picked :
    (l : Labels) (ss : List Sector) (v : ℕ) → pick l ss max_int none ≡ some v → Open l ss v
Open-picked l ss v h = elim (pick-Open l ss max_int none v (ground arith) h) [
  | inl e ↦ absurd (cc e)
  | inr o ↦ o
]

pub left-size : (f : ℕ → Bool) (ss : List Sector) → left f ss ≤ length ss
unfolding left
left-size f [] = ground arith
left-size f (s ∷ ss) = ground (arith, left-size f ss)

pub pick-none :
    (l : Labels) (ss : List Sector) (min : ℕ) (next : Option ℕ)
    → pick l ss min next ≡ none
    → (next ≡ none) × ((v : ℕ) → numbered v ss ≡ true → (l.visited v ≡ true) ⊎ (min ≤ l.distance v))
unfolding pick numbered
pick-none l [] min next h = (h, λ v n. absurd (ground (arith, n)))
pick-none l (s ∷ ss) min next h =
    elim (Bool-cases (not (l.visited s.number) && ltb (l.distance s.number) min)) [
      | inl e ↦
          absurd (cc (pick-none l ss (l.distance s.number) (some s.number) (sym (rw e) ∙ h)).0)
      | inr e ↦
          let rest = pick-none l ss min next (sym (rw e) ∙ h) in
          (
            rest.0,
            λ v n. elim (decide_eq s.number v) [
              | inl q ↦ subst (λ z. (l.visited z ≡ true) ⊎ (min ≤ l.distance z)) q (passed e)
              | inr ne ↦ rest.1 v (ground (arith, n, ne))
            ],
          )
    ]
  where
    passed :
        not (l.visited s.number) && ltb (l.distance s.number) min ≡ false
        → (l.visited s.number ≡ true) ⊎ (min ≤ l.distance s.number)
    passed e = ground (arith, e)

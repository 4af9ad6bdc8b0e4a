-- ===== src/Route/Reach.antt =====
-- A warp from a visited sector leads to one that was reached, in `ShortestPathTo`,
-- pkg/galwar/universe.go.
use galwar.Base.{ℕ, ◌+◌, ◌<◌, ◌≡◌, sym, ap, ◌∙◌, ◌⊎◌, inl, inr, true, List, [], ◌∷◌, arith}
use mathlib.Core.Path.{subst}
use mathlib.Core.List.{Memᴰ}
use galwar.Universe.{Universe}
use galwar.Sector.{sector_at}
use galwar.Route.{max_int, Labels, put, relax, relax_all, settle}
use galwar.Route.Settled.{
  Warp, decide_eq, relaxed, relax-cases, put_same, put_other, put-true, relax_all-visited,
}

-- Visited, or waiting with a distance that was written
abbrev pub Reached : Labels → ℕ → Type 0
Reached l v = (l.visited v ≡ true) ⊎ (l.distance v < max_int)

module _ (u : Universe) (from : ℕ) where
  record Held (c : ℕ) (l : Labels) : Type 0 where
    pub here : l.visited c ≡ true
    pub small : l.distance c + 1 < max_int

  module _ (c w : ℕ) (l : Labels) (held : Held c l) where
    relaxed-Reached : (v : ℕ) → Reached l v → Reached (relaxed u from c l w) v
    relaxed-Reached v r = elim (decide_eq v w) [
      | inl q ↦ inr (
          omega (
            arith,
            put_same l.distance w (l.distance c + 1),
            ap (put l.distance w (l.distance c + 1)) q,
            held.small,
          ))
      | inr ne ↦ elim r [
        | inl a ↦ inl a
        | inr b ↦ inr (omega (arith, put_other l.distance w (l.distance c + 1) v ne, b))
      ]
    ]

    relax-Reached : (v : ℕ) → Reached l v → Reached (relax c l w) v
    relax-Reached v r = elim (relax-cases u from c w l) [
      | inl (e, far) ↦ subst (λ z. Reached z v) (sym e) r
      | inr (fresh, nearer, e) ↦ subst (λ z. Reached z v) (sym e) (relaxed-Reached v r)
    ]

    relax-Reached_here : Reached (relax c l w) w
    relax-Reached_here = elim (relax-cases u from c w l) [
      | inl (e, inl a) ↦ subst (λ z. Reached z w) (sym e) (inl a)
      | inl (e, inr b) ↦ subst (λ z. Reached z w) (sym e) (inr (omega (arith, b, held.small)))
      | inr (fresh, nearer, e) ↦
          subst (λ z. Reached z w) (sym e)
            (inr (omega (arith, put_same l.distance w (l.distance c + 1), held.small)))
    ]

    relax-Held : Held c (relax c l w)
    relax-Held = elim (relax-cases u from c w l) [
      | inl (e, far) ↦ subst (Held c) (sym e) held
      | inr (fresh, nearer, e) ↦ subst (Held c) (sym e) (record {
        here = held.here;
        small = omega (
          arith,
          put_other l.distance w (l.distance c + 1) c (λ q. cc (fresh, held.here, q)),
          held.small,
        );
      })
    ]

  relax_all-Reached :
      (c : ℕ) (ws : List ℕ) (l : Labels)
      → Held c l
      → (v : ℕ) → Reached l v
      → Reached (relax_all c ws l) v
  unfolding relax_all
  relax_all-Reached c [] l held v r = r
  relax_all-Reached c (w ∷ ws) l held v r =
      relax_all-Reached c ws (relax c l w) (relax-Held c w l held) v (relax-Reached c w l held v r)

  relax_all-Reached_here :
      (c : ℕ) (ws : List ℕ) (l : Labels)
      → Held c l
      → (v : ℕ) → Memᴰ v ws
      → Reached (relax_all c ws l) v
  unfolding relax_all
  relax_all-Reached_here c [] l held v m = elim m [ ]
  relax_all-Reached_here c (w ∷ ws) l held v (Memᴰ.head e) =
      relax_all-Reached c ws (relax c l w) (relax-Held c w l held) v
        (subst (Reached (relax c l w)) (sym e) (relax-Reached_here c w l held))
  relax_all-Reached_here c (w ∷ ws) l held v (Memᴰ.tail m) =
      relax_all-Reached_here c ws (relax c l w) (relax-Held c w l held) v m

  unfoldable pub Closed : Labels → Type 0
  Closed l = (v w : ℕ) → l.visited v ≡ true → Warp u from v w → Reached l w

  pub settle-Closed :
      (c : ℕ) (l : Labels) → Closed l → l.distance c + 1 < max_int → Closed (settle u c l)
  unfolding settle Closed
  settle-Closed c l closed small v w h warp =
      let l0 : Labels = record l { visited = put l.visited c true } in
      let held : Held c l0 = record { here = put_same l.visited c true; small = small } in
      let ws = (sector_at u c).warps in
      elim (decide_eq v c) [
        | inl q ↦ relax_all-Reached_here c ws l0 held w (subst (λ z. Warp u from z w) q warp)
        | inr ne ↦
            let old : l.visited v ≡ true =
              sym (put_other l.visited c true v ne)
              ∙ (sym (ap (λ f. f v) (relax_all-visited u from c ws l0)) ∙ h) in
            relax_all-Reached c ws l0 held w (elim (closed v w old warp) [
              | inl a ↦ inl (put-true u from l.visited c w a)
              | inr b ↦ inr b
            ])
      ]

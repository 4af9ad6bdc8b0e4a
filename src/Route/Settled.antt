-- ===== src/Route/Settled.antt =====
-- What the labels of `ShortestPathTo`, pkg/galwar/universe.go, keep true while sectors are visited.
use galwar.Base.{
  ℕ, ◌+◌, ◌≤◌, ◌<◌, ◌≡◌, refl, sym, ◌⊎◌, inl, inr, Bool, true, false, ltb, List, [], ◌∷◌,
  Bool-cases, if◌then◌else◌, arith, ap, ◌∙◌,
}
use mathlib.Core.Path.{subst}
use mathlib.Core.List.{Memᴰ}
use galwar.Universe.{Universe}
use galwar.Sector.{sector_at}
use galwar.Route.{max_int, Labels, put, numbered, initial, relax, relax_all, settle}
pub use galwar.Route.Distances.{Warp, Known, Tied, Good, decide_eq, relaxed, put_same, put_other}
use galwar.Route.Distances.{relaxed-Good, relaxed-Known, apart}

module _ (u : Universe) (from : ℕ) where
  -- What a loop over the neighbours of a sector keeps
  record Visiting (k current : ℕ) (l : Labels) : Type 0 where
    pub good : Good u from k l
    pub near : l.distance current + 1 ≤ k
    pub here : l.visited current ≡ true
    pub known : Known u from l current

  pub relax-cases :
      (current w : ℕ) (l : Labels)
      → (relax current l w ≡ l) × ((l.visited w ≡ true) ⊎ (l.distance w ≤ l.distance current + 1))
        ⊎ ((l.visited w ≡ false)
            × (l.distance current + 1 < l.distance w)
            × (relax current l w ≡ relaxed u from current l w))
  unfolding relax
  relax-cases current w l = elim (Bool-cases (l.visited w)) [
    | inl e ↦ inl (rw e, inl e)
    | inr e ↦ elim (Bool-cases (ltb (l.distance current + 1) (l.distance w))) [
      | inl e' ↦ inr (e, ground (arith, e'), rw (e, e'))
      | inr e' ↦ inl (rw (e, e'), inr (ground (arith, e')))
    ]
  ]

  relax-Visiting :
      (k current w : ℕ) (l : Labels)
      → Visiting k current l
      → Warp u from current w
      → Visiting k current (relax current l w)
  unfolding relax
  relax-Visiting k current w l s warp = elim (relax-cases current w l) [
    | inl (e, far) ↦ subst (Visiting k current) (sym e) s
    | inr (fresh, nearer, e) ↦ subst (Visiting k current) (sym e) (record {
      good = relaxed-Good u from k current w l s.good s.near s.here s.known warp fresh nearer;
      near = omega (
        arith,
        s.near,
        put_other l.distance w (l.distance current + 1) current (
            apart u from k current w l s.good s.near s.here s.known warp fresh nearer current
              s.here),
      );
      here = s.here;
      known = relaxed-Known u from k current w l s.good s.near s.here s.known warp fresh nearer;
    })
  ]

  relax_all-Visiting :
      (k current : ℕ) (ws : List ℕ) (l : Labels)
      → Visiting k current l
      → ((w : ℕ) → Memᴰ w ws → Warp u from current w)
      → Visiting k current (relax_all current ws l)
  unfolding relax_all
  relax_all-Visiting k current [] l s warps = s
  relax_all-Visiting k current (w ∷ ws) l s warps =
      relax_all-Visiting k current ws (relax current l w)
        (relax-Visiting k current w l s (warps w (Memᴰ.head refl))) (λ x m. warps x (Memᴰ.tail m))

  pub relax_all-visited :
      (current : ℕ) (ws : List ℕ) (l : Labels) → (relax_all current ws l).visited ≡ l.visited
  unfolding relax_all relax
  relax_all-visited current [] l = refl
  relax_all-visited current (w ∷ ws) l =
      relax_all-visited current ws (relax current l w) ∙ elim (relax-cases current w l) [
        | inl (e, far) ↦ ap (λ x. x.visited) e
        | inr (fresh, nearer, e) ↦ ap (λ x. x.visited) e
      ]

  pub put-true : (f : ℕ → Bool) (current v : ℕ) → f v ≡ true → put f current true v ≡ true
  put-true f current v h = ground (arith, h)

  visit-Good :
      (k current : ℕ) (l : Labels)
      → Good u from k l
      → Good u from (k + 1) (record l { visited = put l.visited current true })
  visit-Good k current l g = record {
    root = g.root;
    tied = λ v low high.
        let t = g.tied v low high in
        record {
          warp = t.warp;
          farther = t.farther;
          settled_first = put-true l.visited current (l.previous v) t.settled_first;
          known = t.known;
        };
    bounded = λ v high. omega (arith, g.bounded v high);
    origin = g.origin;
  }

  pub Known-near : (k v : ℕ) (l : Labels) → Good u from k l → Known u from l v → l.distance v ≤ k
  Known-near k v l g (inl e) = omega (arith, ap l.distance e, g.root)
  Known-near k v l g (inr (low, high)) = g.bounded v high

  pub Good-settle :
      (k current : ℕ) (l : Labels)
      → Good u from k l
      → Known u from l current
      → Good u from (k + 1) (settle u current l)
  unfolding settle
  Good-settle k current l g known =
      (relax_all-Visiting (k + 1) current (sector_at u current).warps
        (record l { visited = put l.visited current true })
        (record {
          good = visit-Good k current l g;
          near = omega (arith, Known-near k current l g known);
          here = ground arith;
          known = known;
        })
        (λ w m. m)).good

  pub Good-Known :
      (k v : ℕ) (l : Labels)
      → Good u from k l
      → numbered v u.sectors ≡ true
      → l.distance v < max_int
      → Known u from l v
  Good-Known k v l g h high = elim (decide_eq (l.distance v) 0) [
    | inl e ↦ inl (g.origin v h e)
    | inr ne ↦ inr (omega (arith, ne), high)
  ]

  initial-cases :
      (v : ℕ)
      → ((initial u.sectors from).distance v ≡ 0) × ((v ≡ from) ⊎ (numbered v u.sectors ≡ false))
        ⊎ ((initial u.sectors from).distance v ≡ max_int)
  unfolding initial
  initial-cases v = elim (decide_eq v from) [
    | inl e ↦ inl ((ground (arith, e)), inl e)
    | inr ne ↦ elim (Bool-cases (numbered v u.sectors)) [
      | inl h ↦
          inr (put_other (λ n. if numbered n u.sectors then max_int else 0) from 0 v ne ∙ (rw h))
      | inr h ↦
          inl (
            put_other (λ n. if numbered n u.sectors then max_int else 0) from 0 v ne ∙ (rw h),
            inr h,
          )
    ]
  ]

  pub Good-initial : Good u from 0 (initial u.sectors from)
  unfolding initial
  Good-initial = record {
    root = put_same (λ n. if numbered n u.sectors then max_int else 0) from 0;
    tied = λ v low high. elim (initial-cases v) [
      | inl (d, o) ↦ absurd (omega (arith, d, low))
      | inr d ↦ absurd (omega (arith, d, high))
    ];
    bounded = λ v high. elim (initial-cases v) [
      | inl (d, o) ↦ omega (arith, d)
      | inr d ↦ absurd (omega (arith, d, high))
    ];
    origin = λ v h z. elim (initial-cases v) [
      | inl (d, inl e) ↦ e
      | inl (d, inr e) ↦ absurd (cc (h, e))
      | inr d ↦ absurd (omega (arith, d, z))
    ];
  }

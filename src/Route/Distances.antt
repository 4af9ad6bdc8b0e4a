-- ===== src/Route/Distances.antt =====
-- The distances that `ShortestPathTo`, pkg/galwar/universe.go, writes: each but the first is one
-- more than that of a visited sector with a warp there, also after a nearer way was written.
use galwar.Base.{ℕ, ◌+◌, ◌≤◌, ◌<◌, ◌≡◌, ◌≢◌, sym, ◌⊎◌, inl, inr, true, false, arith, ap, ◌∙◌}
use mathlib.Core.Path.{subst}
use mathlib.Core.List.{Memᴰ}
use galwar.Universe.{Universe}
use galwar.Sector.{sector_at}
use galwar.Route.{max_int, Labels, put, numbered}

pub decide_eq : (v w : ℕ) → (v ≡ w) ⊎ (v ≢ w)
decide_eq v w = ground arith

module _ {A : Type 0} (f : ℕ → A) (w : ℕ) (x : A) where
  pub put_same : put f w x w ≡ x
  put_same = ground arith

  pub put_other : (v : ℕ) → v ≢ w → put f w x v ≡ f v
  put_other v ne = ground (arith, ne)

module _ (u : Universe) (from : ℕ) where
  abbrev pub Warp : ℕ → ℕ → Type 0
  Warp v w = Memᴰ w (sector_at u v).warps

  -- The sector has a distance that was written.
  abbrev pub Known : Labels → ℕ → Type 0
  Known l v = (v ≡ from) ⊎ ((0 < l.distance v) × (l.distance v < max_int))

  -- The sector was reached by a warp from a visited sector that is one nearer.
  pub record Tied (l : Labels) (v : ℕ) : Type 0 where
    pub warp : Warp (l.previous v) v
    pub farther : l.distance v ≡ l.distance (l.previous v) + 1
    pub settled_first : l.visited (l.previous v) ≡ true
    pub known : Known l (l.previous v)

  pub record Good (k : ℕ) (l : Labels) : Type 0 where
    pub root : l.distance from ≡ 0
    pub tied : (v : ℕ) → 0 < l.distance v → l.distance v < max_int → Tied l v
    pub bounded : (v : ℕ) → l.distance v < max_int → l.distance v ≤ k
    pub origin : (v : ℕ) → numbered v u.sectors ≡ true → l.distance v ≡ 0 → v ≡ from

  -- The labels after a warp to `w` was found to be nearer by `current`
  abbrev pub relaxed : ℕ → Labels → ℕ → Labels
  relaxed current l w = record l {
    distance = put l.distance w (l.distance current + 1);
    previous = put l.previous w current;
  }

  module _ (k current w : ℕ) (l : Labels) (g : Good k l) (near : l.distance current + 1 ≤ k)
      (here : l.visited current ≡ true) (known : Known l current) (warp : Warp current w)
      (fresh : l.visited w ≡ false) (nearer : l.distance current + 1 < l.distance w) where
    pub apart : (v : ℕ) → l.visited v ≡ true → v ≢ w
    apart v h e = cc (h, fresh, e)

    Known-relaxed : (v : ℕ) → v ≢ w → Known l v → Known (relaxed current l w) v
    Known-relaxed v ne (inl e) = inl e
    Known-relaxed v ne (inr (a, b)) =
        let same : put l.distance w (l.distance current + 1) v ≡ l.distance v =
          put_other l.distance w _ v ne in
        inr (omega (arith, same, a), omega (arith, same, b))

    Tied-other : (v : ℕ) → v ≢ w → Tied l v → Tied (relaxed current l w) v
    Tied-other v ne t =
        let p : put l.previous w current v ≡ l.previous v = put_other l.previous w current v ne in
        let d : put l.distance w (l.distance current + 1) v ≡ l.distance v =
          put_other l.distance w _ v ne in
        let away = apart (l.previous v) t.settled_first in
        let d' : put l.distance w (l.distance current + 1) (l.previous v)
            ≡ l.distance (l.previous v) =
          put_other l.distance w _ (l.previous v) away in
        record {
          warp = subst (λ z. Warp z v) (sym p) t.warp;
          farther =
              d
              ∙ t.farther
              ∙ ap (λ n. n + 1) (sym (ap (put l.distance w (l.distance current + 1)) p ∙ d'));
          settled_first = ap l.visited p ∙ t.settled_first;
          known =
              subst (Known (relaxed current l w)) (sym p)
                (Known-relaxed (l.previous v) away t.known);
        }

    Tied-new : Tied (relaxed current l w) w
    Tied-new =
        let p : put l.previous w current w ≡ current = put_same l.previous w current in
        let d : put l.distance w (l.distance current + 1) w ≡ l.distance current + 1 =
          put_same l.distance w _ in
        let d' : put l.distance w (l.distance current + 1) current ≡ l.distance current =
          put_other l.distance w _ current (apart current here) in
        record {
          warp = subst (λ z. Warp z w) (sym p) warp;
          farther =
              d ∙ ap (λ n. n + 1) (sym (ap (put l.distance w (l.distance current + 1)) p ∙ d'));
          settled_first = ap l.visited p ∙ here;
          known =
              subst (Known (relaxed current l w)) (sym p)
                (Known-relaxed current (apart current here) known);
        }

    pub relaxed-Good : Good k (relaxed current l w)
    relaxed-Good =
        let d : put l.distance w (l.distance current + 1) w ≡ l.distance current + 1 =
          put_same l.distance w _ in
        let other = put_other l.distance w (l.distance current + 1) in
        record {
          root = other from (λ e. omega (arith, nearer, ap l.distance e, g.root)) ∙ g.root;
          tied = λ v low high. elim (decide_eq v w) [
            | inl e ↦ subst (Tied (relaxed current l w)) (sym e) Tied-new
            | inr ne ↦
                Tied-other v ne
                  (g.tied v (omega (arith, low, other v ne)) (omega (arith, high, other v ne)))
          ];
          bounded = λ v high. elim (decide_eq v w) [
            | inl e ↦ omega (arith, near, d, ap (put l.distance w (l.distance current + 1)) e)
            | inr ne ↦ omega (arith, other v ne, g.bounded v (omega (arith, high, other v ne)))
          ];
          origin = λ v h z. elim (decide_eq v w) [
            | inl e ↦
                absurd
                  (omega (arith, d, sym (ap (put l.distance w (l.distance current + 1)) e) ∙ z))
            | inr ne ↦ g.origin v h (sym (other v ne) ∙ z)
          ];
        }

    pub relaxed-Known : Known (relaxed current l w) current
    relaxed-Known = Known-relaxed current (apart current here) known

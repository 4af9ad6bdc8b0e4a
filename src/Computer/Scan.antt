-- ===== src/Computer/Scan.antt =====
-- The inner loop of `NearestPort`, pkg/galwar/computer.go: the flags it sets and the nodes it queues.
use galwar.Base.{
  ℕ, ◌+◌, ◌≤◌, ◌<◌, ◌≡◌, refl, sym, ◌⊎◌, inl, inr, Bool, true, false, not, ◌&&◌, ltb, leb, List, [],
  ◌∷◌, ◌++◌, length, get_or, set, length-set, length-append, Bool-cases, arith,
}
use mathlib.Core.List.{Memᴰ}
use mathlib.Core.List.Memᴰ
use galwar.Computer.Flags.{
  unflagged, unflagged-set, flagged-set_self, flagged-set_stays, flagged-set_inv,
}
use galwar.Computer.{Node, Search, marked, visit, scan}

-- What the loop over the warps keeps: the sectors are as many, and each new node has a new flag.
pub record IsFair (before after : Search) : Type 0 where
  pub as_many : length after.seen ≡ length before.seen
  pub balance :
      unflagged after.seen + length after.queue ≡ unflagged before.seen + length before.queue

visit-IsFair : (n dist : ℕ) (s : Search) (w : ℕ) → length s.seen ≡ n → IsFair s (visit n dist s w)
unfolding visit
visit-IsFair n dist s w sized =
    let node : Node = record { sec = w; dist = dist + 1 } in
    ground
      (arith, unflagged-set s.seen w, length-set s.seen w true, length-append s.queue (node ∷ []))

pub scan-IsFair :
    (n dist : ℕ) (s : Search) (warps : List ℕ) → length s.seen ≡ n → IsFair s (scan n dist s warps)
unfolding scan
scan-IsFair n dist s [] sized = record { as_many = refl; balance = refl }
scan-IsFair n dist s (w ∷ warps) sized =
    let first = visit-IsFair n dist s w sized in
    let rest = scan-IsFair n dist (visit n dist s w) warps (omega (arith, first.as_many, sized)) in
    record {
      as_many = omega (arith, first.as_many, rest.as_many);
      balance = omega (arith, first.balance, rest.balance);
    }

-- The distances of a queue do not fall, and lie between two numbers.
abbrev pub Ordered : ℕ → ℕ → List Node → Type 0
Ordered low high [] = Unit
Ordered low high (x ∷ xs) = (low ≤ x.dist) × (x.dist ≤ high) × Ordered x.dist high xs

Ordered-append :
    (low high : ℕ) (xs : List Node) (x : Node)
    → Ordered low high xs
    → low ≤ high
    → x.dist ≡ high
    → Ordered low high (xs ++ (x ∷ []))
Ordered-append low high [] x o h e = (omega (arith, e), omega (arith, e), tt)
Ordered-append low high (y ∷ ys) x o h e = (o.0, o.1, Ordered-append y.dist high ys x o.2 o.1 e)

pub Ordered-member :
    (low high : ℕ) (xs : List Node) (x : Node)
    → Ordered low high xs
    → Memᴰ x xs
    → (low ≤ x.dist) × (x.dist ≤ high)
Ordered-member low high [] x o m = absurd (Memᴰ.not-nil m)
Ordered-member low high (y ∷ ys) x o m = elim (Memᴰ.cases_cons m) [
  | inl e ↦ rw e (o.0, o.1)
  | inr later ↦ let (a, b) = Ordered-member y.dist high ys x o.2 later in (omega (arith, a, o.0), b)
]

pub Ordered-weaken :
    (low high a b : ℕ) (xs : List Node) → Ordered low high xs → a ≤ low → high ≤ b → Ordered a b xs
Ordered-weaken low high a b [] o h k = tt
Ordered-weaken low high a b (x ∷ xs) o h k = (
  omega (arith, o.0),
  omega (arith, o.1),
  Ordered-weaken x.dist high x.dist b xs o.2 (omega arith) k,
)

-- What the loop over the warps of a node at distance `d` does to the flags and the queue
pub record Extends (n d : ℕ) (ws : List ℕ) (s t : Search) : Type 0 where
  pub grows : (v : ℕ) → marked s v ≡ true → marked t v ≡ true
  pub keeps : (x : Node) → Memᴰ x s.queue → Memᴰ x t.queue
  pub covers : (w : ℕ) → Memᴰ w ws → 1 ≤ w → w < n → marked t w ≡ true
  pub fresh :
      (v : ℕ)
      → marked t v ≡ true
      → (marked s v ≡ true) ⊎ Memᴰ (record { sec = v; dist = d + 1 }) t.queue
  pub from :
      (x : Node)
      → Memᴰ x t.queue
      → Memᴰ x s.queue
        ⊎ ((x.dist ≡ d + 1) × Memᴰ x.sec ws × (1 ≤ x.sec) × (x.sec < n) × (marked t x.sec ≡ true))
  pub ordered : (low : ℕ) → low ≤ d + 1 → Ordered low (d + 1) s.queue → Ordered low (d + 1) t.queue

module _ (n d : ℕ) where
  Extends-nil : (s : Search) → Extends n d [] s s
  Extends-nil s = record {
    grows = λ v m. m;
    keeps = λ x m. m;
    covers = λ w m. absurd (Memᴰ.not-nil m);
    fresh = λ v m. inl m;
    from = λ x m. inl m;
    ordered = λ low h o. o;
  }

  Extends-cons :
      (w : ℕ) (ws : List ℕ) (s r t : Search)
      → Extends n d (w ∷ []) s r
      → Extends n d ws r t
      → Extends n d (w ∷ ws) s t
  Extends-cons w ws s r t a b = record {
    grows = λ v m. b.grows v (a.grows v m);
    keeps = λ x m. b.keeps x (a.keeps x m);
    covers = λ v m p q. elim (Memᴰ.cases_cons m) [
      | inl e ↦ b.grows v (a.covers v (Memᴰ.head e) p q)
      | inr later ↦ b.covers v later p q
    ];
    fresh = λ v m. elim (b.fresh v m) [
      | inl before ↦ elim (a.fresh v before) [ inl old ↦ inl old | inr q ↦ inr (b.keeps _ q) ]
      | inr q ↦ inr q
    ];
    from = λ x m. elim (b.from x m) [
      | inl before ↦ elim (a.from x before) [
        | inl old ↦ inl old
        | inr (e, here, p, q, k) ↦
            inr (e, Memᴰ.head (Memᴰ.eq_of_singleton here), p, q, b.grows x.sec k)
      ]
      | inr (e, there, p, q, k) ↦ inr (e, Memᴰ.tail there, p, q, k)
    ];
    ordered = λ low h o. b.ordered low h (a.ordered low h o);
  }

  abbrev fits : Search → ℕ → Bool
  fits s w = (leb 1 w && ltb w n) && not (marked s w)

  Extends-visit : (s : Search) (w : ℕ) → length s.seen ≡ n → Extends n d (w ∷ []) s (visit n d s w)
  unfolding visit
  Extends-visit s w h = elim (Bool-cases (fits s w)) [
    | inl fit ↦
        let lt : w < length s.seen = ground (arith, fit, h) in
        let low : 1 ≤ w = ground (arith, fit) in
        let now : get_or (set s.seen w true) w false ≡ true = flagged-set_self s.seen w lt in
        rw (fit) record {
          grows = λ v m. flagged-set_stays s.seen w v m;
          keeps = λ x m. Memᴰ.append_left _ m;
          covers = λ v m p q. rw (Memᴰ.eq_of_singleton m) now;
          fresh = λ v m. elim (flagged-set_inv s.seen w v m) [
            | inr old ↦ inl old
            | inl e ↦ inr (Memᴰ.append_right s.queue (Memᴰ.head (rw e refl)))
          ];
          from = λ x m. elim (Memᴰ.append_cases s.queue m) [
            | inl old ↦ inl old
            | inr last ↦
                let e = Memᴰ.eq_of_singleton last in
                rw e (inr (refl, Memᴰ.head refl, low, omega (arith, lt, h), now))
          ];
          ordered =
              λ b k o. Ordered-append b (d + 1) s.queue (record { sec = w; dist = d + 1 }) o k refl;
        }
    | inr unfit ↦ rw (unfit) record {
      grows = λ v m. m;
      keeps = λ x m. m;
      covers = λ v m p q. rw (Memᴰ.eq_of_singleton m) (
          let p' : 1 ≤ w = rw (sym (Memᴰ.eq_of_singleton m)) p in
          let q' : w < n = rw (sym (Memᴰ.eq_of_singleton m)) q in ground (arith, unfit, p', q'));
      fresh = λ v m. inl m;
      from = λ x m. inl m;
      ordered = λ b k o. o;
    }
  ]

  pub Extends-scan :
      (s : Search) (ws : List ℕ) → length s.seen ≡ n → Extends n d ws s (scan n d s ws)
  unfolding scan
  Extends-scan s [] h = Extends-nil s
  Extends-scan s (w ∷ ws) h =
      let r = visit n d s w in
      let kept : length r.seen ≡ n = omega (arith, (visit-IsFair n d s w h).as_many, h) in
      Extends-cons w ws s r (scan n d r ws) (Extends-visit s w h) (Extends-scan r ws kept)

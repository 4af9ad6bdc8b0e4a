-- ===== src/Bank/Interest.antt =====
-- The nightly interest: pkg/galwar/bank.go, `creditBankInterest`.
use native.Mathlib.Nat.{mul-le-mul_right}
use galwar.Base.{
  ℕ, zero, suc, ◌*◌, ◌/◌, ◌≤◌, ◌<◌, ◌≡◌, refl, inl, inr, Bool, false, Bool-cases, List, [], ◌∷◌,
  ltb, if◌then◌else◌, get_or, arith, length,
}
use galwar.Base.Int.{
  ℤ, pos, negsuc, ◌+ℤ◌, ◌*ℤ◌, ◌/ℤ◌, ◌≤ℤ◌, min_ℤ, ltb_ℤ, ltb_ℤ→lt, ltb_ℤ→le, int_laws, pos-*ℤ,
  pos-/ℤ,
}
use galwar.Config.{Config, config_int}
use galwar.Float64.{Float64}
use galwar.Player.{Player}
use galwar.Universe.{Universe, player_at, nobody}
use galwar.Bank.{interest, skipped, credit_one, credit_all, credit_bank_interest}

-- `pct` percent of an amount, rounded down.
abbrev pub share : ℤ → ℤ → ℤ
share pct amount = amount *ℤ pct /ℤ pos 100

share_ℕ : (r a b : ℕ) → a ≤ b → a * r / 100 ≤ b * r / 100
share_ℕ r a b h = omega (arith, mul-le-mul_right r h)

share-le : (r a b : ℤ) → pos 0 ≤ℤ r → pos 0 ≤ℤ a → a ≤ℤ b → share r a ≤ℤ share r b
share-le (pos r) (pos a) (pos b) _ _ h =
    rw (pos-*ℤ a r, pos-*ℤ b r, pos-/ℤ (a * r) 100, pos-/ℤ (b * r) 100)
      (omega (arith, share_ℕ r a b (omega arith)))
share-le (pos r) (pos a) (negsuc b) _ _ h = absurd (omega arith)
share-le (pos r) (negsuc a) b _ h _ = absurd (omega arith)
share-le (negsuc r) a b h _ _ = absurd (omega arith)

share_nonneg : (r a : ℤ) → pos 0 ≤ℤ r → pos 0 ≤ℤ a → pos 0 ≤ℤ share r a
share_nonneg (pos r) (pos a) _ _ = rw (pos-*ℤ a r, pos-/ℤ (a * r) 100) (omega arith)
share_nonneg (pos r) (negsuc a) _ h = absurd (omega arith)
share_nonneg (negsuc r) a h _ = absurd (omega arith)

interest_bounds :
    (r c b : ℤ)
    → pos 0 ≤ℤ r
    → pos 0 ≤ℤ c
    → pos 0 ≤ℤ b
    → (pos 0 ≤ℤ interest r c b) × (interest r c b ≤ℤ share r c) × (interest r c b ≤ℤ share r b)
unfolding interest
interest_bounds r c b hr hc hb = elim (Bool-cases (ltb_ℤ c b)) [
  | inl above ↦
      let lt = ltb_ℤ→lt c b above in
      rw (above) (share_nonneg r c hr hc, omega int_laws, share-le r c b hr hc (omega int_laws))
  | inr within ↦
      let le = ltb_ℤ→le c b within in
      rw (within) (share_nonneg r b hr hb, share-le r b c hr hb le, omega int_laws)
]

-- What a night does to a record, where `skip` tells whether the account coasts.
pub record Credited (skip : Bool) (pct cap : ℤ) (p p' : Player) : Type 0 where
  pub only_balance : p' ≡ record p { bank_balance = p'.bank_balance }
  pub exactly :
      p'.bank_balance
      ≡ p.bank_balance +ℤ (if skip then pos 0 else share pct (min_ℤ p.bank_balance cap))
  pub never_less : p.bank_balance ≤ℤ p'.bank_balance
  pub below_cap : p'.bank_balance ≤ℤ p.bank_balance +ℤ share pct cap

coasts : (b : ℤ) → b ≡ b +ℤ pos 0
coasts b = omega int_laws

no_gain : (b g : ℤ) → pos 0 ≤ℤ g → ltb_ℤ (pos 0) g ≡ false → b ≡ b +ℤ g
no_gain b g h none = let small = ltb_ℤ→le (pos 0) g none in omega int_laws

module _ (fl : Float64) (config : Config) (now pct cap : ℤ) (hr : pos 0 ≤ℤ pct)
    (hc : pos 0 ≤ℤ cap) where
  credited_balance : (p : Player) → skipped fl config now p ≡ false → pos 0 ≤ℤ p.bank_balance
  unfolding skipped
  credited_balance p h = ground arith

  credit_one-Credited :
      (p : Player)
      → Credited (skipped fl config now p) pct cap p (credit_one fl config now pct cap p).1
  unfolding credit_one interest
  credit_one-Credited p = elim (Bool-cases (skipped fl config now p)) [
    | inl skip ↦ rw (skip) (record {
      only_balance = refl;
      exactly = coasts p.bank_balance;
      never_less = omega int_laws;
      below_cap = omega (int_laws, share_nonneg pct cap hr hc);
    })
    | inr counts ↦
        let (low, top, _) =
          interest_bounds pct cap p.bank_balance hr hc (credited_balance p counts) in
        elim (Bool-cases (ltb_ℤ (pos 0) (interest pct cap p.bank_balance))) [
          | inl gains ↦
              rw (counts, gains)
                (record {
                  only_balance = refl;
                  exactly = refl;
                  never_less = omega int_laws;
                  below_cap = omega int_laws;
                })
          | inr same ↦
              rw (counts, same)
                (record {
                  only_balance = refl;
                  exactly = no_gain p.bank_balance (interest pct cap p.bank_balance) low same;
                  never_less = omega int_laws;
                  below_cap = omega (int_laws, share_nonneg pct cap hr hc);
                })
        ]
  ]

  credit_all-get :
      (ps : List Player) (i : ℕ)
      → i < length ps
      → get_or (credit_all fl config now pct cap ps).1 i nobody
        ≡ (credit_one fl config now pct cap (get_or ps i nobody)).1
  unfolding credit_all
  credit_all-get [] i h = absurd (omega arith)
  credit_all-get (p ∷ ps) zero h = refl
  credit_all-get (p ∷ ps) (suc i) h = credit_all-get ps i (omega arith)

-- A night of interest adds to each account, exactly, the configured percentage of its balance up to
-- the cap, rounded down; nothing to the accounts of NPCs and dormant players and to empty ones. So no
-- balance falls, none grows by more than the share of the cap, and no other field changes. The rate
-- and the cap that are configured are not negative.
pub credit_bank_interest-Credited :
    (fl : Float64) (now : ℤ) (u : Universe) (i : ℕ)
    → pos 0 ≤ℤ config_int u.config "bank_interest_pct" (pos 1)
    → pos 0 ≤ℤ config_int u.config "bank_interest_cap" (pos 1_000_000)
    → i < length u.players
    → Credited
        (skipped fl u.config now (player_at u i))
        (config_int u.config "bank_interest_pct" (pos 1))
        (config_int u.config "bank_interest_cap" (pos 1_000_000))
        (player_at u i)
        (player_at (credit_bank_interest fl now u).1 i)
unfolding credit_bank_interest
credit_bank_interest-Credited fl now u i hr hc inside =
    let pct = config_int u.config "bank_interest_pct" (pos 1) in
    let cap = config_int u.config "bank_interest_cap" (pos 1_000_000) in
    let done = credit_one-Credited fl u.config now pct cap hr hc (player_at u i) in
    let at = credit_all-get fl u.config now pct cap hr hc u.players i inside in
    elim (Bool-cases (ltb 0 (credit_all fl u.config now pct cap u.players).0)) [
      | inl some ↦ rw (some, at) done
      | inr none ↦ rw (none, at) done
    ]

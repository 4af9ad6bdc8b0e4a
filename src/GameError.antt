-- ===== src/GameError.antt =====
-- pkg/galwar/error.go: the error codes of the engine's commands; and the shape of a command.
-- A command reads and writes a state in place and returns a value or an error, as a Go method with
-- a pointer receiver does: what it wrote before an error stays written. The messages that accompany
-- the codes are texts for the screen and are left out.
use galwar.Base.{◌≡◌, refl, ap, ◌⊎◌, inl, inr, Bool, if◌then◌else◌}

pub data GameErrorCode : Type 0 where
  err_unknown err_negative_quantity err_not_enough_money err_not_enough_quantity : GameErrorCode
  err_not_owner err_invalid_type err_fed_restricted err_already_exists : GameErrorCode
  err_invalid_name err_not_found err_not_enough_holds err_no_turns err_dead : GameErrorCode

pub data Result (A : Type 0) : Type 0 where
  ok : A → Result A
  err : GameErrorCode → Result A

abbrev pub Done : Type 0
Done = Unit

abbrev pub Command : Type 0 → Type 0 → Type 0
Command S A = S → Result A × S

infixl 5 ◌>>=◌ ◌>>◌
abbrev pub ◌>>=◌ : {S A B : Type 0} → Command S A → (A → Command S B) → Command S B
◌>>=◌ m f s = let (r, s') = m s in elim r [ ok a ↦ f a s' | err e ↦ (err e, s') ]

abbrev pub ◌>>◌ : {S A B : Type 0} → Command S A → Command S B → Command S B
m >> k = m >>= λ _. k

module _ {S : Type 0} where
  -- `return v, nil`
  abbrev pub pure : {A : Type 0} → A → Command S A
  pure a s = (ok a, s)

  -- `return nil, NewGameError(code, message)`
  abbrev pub fail : {A : Type 0} → GameErrorCode → Command S A
  fail e s = (err e, s)

  -- `if cond { return NewGameError(code, message) }`
  abbrev pub refuse_if : Bool → GameErrorCode → Command S Done
  refuse_if b e s = (if b then err e else ok tt, s)

  abbrev pub get : {A : Type 0} → (S → A) → Command S A
  get f s = (ok (f s), s)

  abbrev pub modify : (S → S) → Command S Done
  modify f s = (ok tt, f s)

-- A command that is refused has written nothing.
abbrev pub IsAtomic : {S A : Type 0} → S → Result A × S → Type 0
IsAtomic s (ok _, s') = Unit {0}
IsAtomic s (err _, s') = s' ≡ s

-- Where a command returns a value, the chain goes on from there.
pub bind_ok :
    {S A B : Type 0} (m : Command S A) (k : A → Command S B) (s s' : S) (a : A)
    → m s ≡ (ok a, s')
    → (m >>= k) s ≡ k a s'
bind_ok m k s s' a e = ap (λ r. elim r.0 [ ok b ↦ k b r.1 | err x ↦ (err x, r.1) ]) e

-- Where it returns an error, the chain stops.
pub bind_err :
    {S A B : Type 0} (m : Command S A) (k : A → Command S B) (s s' : S) (x : GameErrorCode)
    → m s ≡ (err x, s')
    → (m >>= k) s ≡ (err x, s')
bind_err m k s s' x e = ap (λ r. elim r.0 [ ok b ↦ k b r.1 | err y ↦ (err y, r.1) ]) e

-- To split on a result and keep the equation
pub Result-cases :
    {A : Type 0} (r : Result A) → ((a : A) × (r ≡ ok a)) ⊎ ((e : GameErrorCode) × (r ≡ err e))
Result-cases (ok a) = inl (a, refl)
Result-cases (err e) = inr (e, refl)

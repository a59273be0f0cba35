-- ===== src/Prelude/Results.antt =====
-- A value, or the exception that was raised in its place.
use mathlib.Core.Path.{◌≡◌, refl}
use mathlib.Core.Logic.{◌⊎◌, inl, inr}
use mathlib.Core.Bool.{Bool, true, false}

pub data Result {ℓ κ} (E : Type ℓ) (A : Type κ) : Type (ℓ ⊔ κ) where
  err : E → Result E A
  ok : A → Result E A

pub Result-cases {ℓ κ} :
    {E : Type ℓ} {A : Type κ} (r : Result E A) → ((e : E) × (r ≡ err e)) ⊎ ((a : A) × (r ≡ ok a))
Result-cases (err e) = inl (e, refl)
Result-cases (ok a) = inr (a, refl)

module _ {ℓ} {E : Type ℓ} where
  infixl 5 ◌>>◌ ◌>>=◌
  abbrev pub ◌>>◌ {κ} : {Later : Type κ} → Result E (Unit {0}) → Result E Later → Result E Later
  ok done >> later = later
  err raised >> later = err raised

  abbrev pub ◌>>=◌ {κ μ} :
      {First : Type κ} {Later : Type μ} → Result E First → (First → Result E Later) → Result E Later
  ok value >>= next = next value
  err raised >>= next = err raised

  -- `if not test: raise raised`
  abbrev pub guard : Bool → E → Result E (Unit {0})
  guard test raised = elim test [ false ↦ err raised | true ↦ ok tt ]

  pub guard-ok : (test : Bool) (raised : E) → guard test raised ≡ ok tt → test ≡ true
  guard-ok true raised passed = refl
  guard-ok false raised passed = cc

  -- What a successful chain went through.
  pub >>-eq-ok {κ} :
      {Later : Type κ} (check : Result E (Unit {0})) (later : Result E Later) {final : Later}
      → (check >> later) ≡ ok final
      → (check ≡ ok tt) × (later ≡ ok final)
  >>-eq-ok (err raised) later final = cc
  >>-eq-ok (ok done) later final = (refl, final)

  pub >>=-eq-ok {κ μ} :
      {First : Type κ} {Later : Type μ} (first : Result E First) (next : First → Result E Later)
      {final : Later}
      → (first >>= next) ≡ ok final
      → (value : First) × (first ≡ ok value) × (next value ≡ ok final)
  >>=-eq-ok (err raised) next final = cc
  >>=-eq-ok (ok value) next final = (value, refl, final)

  pub ok_inj {κ} : {A : Type κ} {a b : A} → ◌≡◌ {A = Result E A} (ok a) (ok b) → a ≡ b
  ok_inj same = cc

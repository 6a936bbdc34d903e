-- ===== src/Base/Errors.antt =====
-- Code that may throw. A transaction that throws is rolled back, so an error carries no state.
use mathlib.Core.Path.{◌≡◌, refl}
use mathlib.Core.Bool.{Bool, true, false}
use mathlib.Core.Option.{Option, none, some}

pub data Result {ℓ} (Err : Type 0) (Val : Type ℓ) : Type ℓ where
  err : Err → Result Err Val
  ok : Val → Result Err Val

module _ {ℓ κ} {Err : Type 0} {Val : Type ℓ} {Next : Type κ} where
  infixl 5 ◌>>=◌
  abbrev pub ◌>>=◌ : Result Err Val → (Val → Result Err Next) → Result Err Next
  err e >>= rest = err e
  ok v >>= rest = rest v

  -- Inversion of a successful bind, for proofs where the parts stay shut.
  pub bind-eq-ok :
      (m : Result Err Val) (rest : Val → Result Err Next) {w : Next}
      → (m >>= rest) ≡ ok w
      → (v : Val) × (m ≡ ok v) × (rest v ≡ ok w)
  bind-eq-ok (err e) rest h = cc
  bind-eq-ok (ok v) rest h = (v, refl, h)

infixl 5 ◌>>◌
abbrev pub ◌>>◌ {κ} :
    {Err : Type 0} {Next : Type κ} → Result Err (Unit {0}) → Result Err Next → Result Err Next
test >> rest = test >>= λ _. rest

-- `if (test) throw e`
abbrev pub throw_if : {Err : Type 0} → Bool → Err → Result Err (Unit {0})
throw_if false e = ok tt
throw_if true e = err e

-- `if (!value) throw e`
abbrev pub need {ℓ} : {Err : Type 0} {Val : Type ℓ} → Option Val → Err → Result Err Val
need (some v) e = ok v
need none e = err e

pub throw_if-eq-ok : {Err : Type 0} (test : Bool) (e : Err) → throw_if test e ≡ ok tt → test ≡ false
throw_if-eq-ok false e h = refl
throw_if-eq-ok true e h = cc

pub need-eq-ok {ℓ} :
    {Err : Type 0} {Val : Type ℓ} (o : Option Val) (e : Err) {v : Val}
    → need o e ≡ ok v
    → o ≡ some v
need-eq-ok (some w) e h = cc
need-eq-ok none e h = cc

pub ok_injective {ℓ} :
    {Err : Type 0} {Val : Type ℓ} {v w : Val} → Path (Result Err Val) (ok v) (ok w) → v ≡ w
ok_injective h = cc

-- ===== src/Common/Results.antt =====
-- Python's exceptions as results. An error is the exception's class; message texts are left out.
-- `value_error` is also pydantic's `ValidationError`, which derives from it.
use mathlib.Core.Path.{◌≡◌, refl}
use mathlib.Core.Bool.{Bool, true, false}
use mathlib.Core.Option.{Option, none, some}
use native.Mathlib.Omega.{arith}

-- The exception classes that the modelled code raises.
pub data Error : Type 0 where
  ambiguous_target : Error
  ownership_not_established : Error
  root_ou_not_confirmed : Error
  stale_confirmation : Error
  value_error : Error
  type_error : Error
  key_error : Error

-- A call returns or raises.
pub data Result {ℓ} (T : Type ℓ) : Type ℓ where
  err : Error → Result T
  ok : T → Result T

-- `if test: raise error`
abbrev pub raise_if : Bool → Error → Result (Unit {0})
raise_if test error = elim test [ true ↦ err error | false ↦ ok tt ]

-- A missing value raises.
abbrev pub or_raise {ℓ} : {T : Type ℓ} → Option T → Error → Result T
or_raise found error = elim found [ some t ↦ ok t | none ↦ err error ]

-- The next statement runs on what the one before returned.
infixl 5 ◌>>=◌ ◌>>◌
abbrev pub ◌>>=◌ {ℓ κ} : {S : Type ℓ} {T : Type κ} → Result S → (S → Result T) → Result T
call >>= rest = elim call [ err error ↦ err error | ok s ↦ rest s ]

abbrev pub ◌>>◌ {ℓ κ} : {S : Type ℓ} {T : Type κ} → Result S → Result T → Result T
call >> rest = elim call [ err error ↦ err error | ok _ ↦ rest ]

-- Inversion of what returned, for proofs where the calls stay shut.
module _ {ℓ κ} {S : Type ℓ} {T : Type κ} {t : T} where
  pub >>=-eq-ok :
      (call : Result S) (rest : S → Result T)
      → (call >>= rest) ≡ ok t
      → (s : S) × (call ≡ ok s) × (rest s ≡ ok t)
  >>=-eq-ok (ok s) rest returned = (s, refl, returned)
  >>=-eq-ok (err error) rest returned = cc

  pub >>-eq-ok :
      (call : Result S) (rest : Result T)
      → (call >> rest) ≡ ok t
      → (s : S) × (call ≡ ok s) × (rest ≡ ok t)
  >>-eq-ok (ok s) rest returned = (s, refl, returned)
  >>-eq-ok (err error) rest returned = cc

pub raise_if-eq-ok : (test : Bool) (error : Error) → raise_if test error ≡ ok tt → test ≡ false
raise_if-eq-ok true error passed = cc
raise_if-eq-ok false error passed = refl

module _ {ℓ} {T : Type ℓ} {t : T} where
  pub or_raise-eq-ok :
      (found : Option T) (error : Error) → or_raise found error ≡ ok t → found ≡ some t
  or_raise-eq-ok none error returned = cc
  or_raise-eq-ok (some s) error returned = ground arith

  pub ok-injective : {s : T} → ok s ≡ ok t → s ≡ t
  ok-injective same = cc

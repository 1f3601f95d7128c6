-- ===== src/Format/Errors.antt =====
-- profile/packages/format/src/errors.mjs: every rejection carries a stable code. A message, which no
-- caller switches on, is left out. A function that may throw returns a `Result`.
use candid_core.Common.{Bool, true, false, ◌≡◌, refl}

pub data Code : Type 0 where
  type_error syntax range too_long arg tag_type tag_conflict ref_unresolved : Code
  excess_precision negative symbol_mismatch : Code
  inexact calendar_unit needs_now : Code
  checksum checksum_missing not_canonical principal hex base64 utf8 length max_len : Code

pub data Result {ℓ} (A : Type ℓ) : Type ℓ where
  ok : A → Result A
  err : Code → Result A

-- `if (test) fail(code, …)`.
abbrev pub fail_if : Bool → Code → Result (Unit {0})
fail_if false code = ok tt
fail_if true code = err code

-- A throw ends the function.
infixl 5 ◌>>=◌
abbrev pub ◌>>=◌ {ℓ κ} :
    {A : Type ℓ} {B : Type κ} (step : Result A) (rest : A → Result B) → Result B
err code >>= rest = err code
ok value >>= rest = rest value

infixl 5 ◌>>◌
abbrev pub ◌>>◌ {κ} : {B : Type κ} (check : Result (Unit {0})) (rest : Result B) → Result B
check >> rest = check >>= λ _. rest

module _ {ℓ κ} {A : Type ℓ} {B : Type κ} where
  -- What a successful chain says of its first step.
  pub >>=-eq-ok :
      (step : Result A) (rest : A → Result B) {result : B}
      → (step >>= rest) ≡ ok result
      → (value : A) × (step ≡ ok value) × (rest value ≡ ok result)
  >>=-eq-ok (err code) rest h = cc
  >>=-eq-ok (ok value) rest h = (value, refl, h)

  -- What it says of the rest, where the first step's value is known.
  pub >>=-step :
      (step : Result A) (rest : A → Result B) {value : A} {result : B}
      → step ≡ ok value
      → (step >>= rest) ≡ ok result
      → rest value ≡ ok result
  >>=-step (err code) rest e h = cc
  >>=-step (ok value) rest e h = cc

pub >>-eq-ok {κ} :
    {B : Type κ} (test : Bool) (code : Code) (rest : Result B) {result : B}
    → (fail_if test code >> rest) ≡ ok result
    → (test ≡ false) × (rest ≡ ok result)
>>-eq-ok false code rest h = (refl, h)
>>-eq-ok true code rest h = cc

pub ok-injective {ℓ} : {A : Type ℓ} {a b : A} → ok a ≡ ok b → a ≡ b
ok-injective h = cc

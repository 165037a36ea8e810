-- ===== src/Core/Error.antt =====
-- include/binaryatlas/core/error.hpp, src/core/error.cpp and include/binaryatlas/core/result.hpp.
use binary_atlas.Prelude.{◌≡◌, refl, Option, none, some, Bool, true, false, arith}
use binary_atlas.Prelude.Text.{Text, lit}

pub data ErrorCode : Type 0 where
  invalid_argument io_error parse_error unsupported_format disassembly_error analysis_error
        not_found :
      ErrorCode

pub record Error : Type 0 where
  pub code : ErrorCode
  pub message : Text

abbrev pub invalid_argument_error : Text → Error
invalid_argument_error message = record { code = invalid_argument; message = message }

abbrev pub io : Text → Error
io message = record { code = io_error; message = message }

abbrev pub parse : Text → Error
parse message = record { code = parse_error; message = message }

abbrev pub unsupported : Text → Error
unsupported message = record { code = unsupported_format; message = message }

abbrev pub disassembly : Text → Error
disassembly message = record { code = disassembly_error; message = message }

abbrev pub analysis : Text → Error
analysis message = record { code = analysis_error; message = message }

abbrev pub not_found_error : Text → Error
not_found_error message = record { code = not_found; message = message }

-- A `Result<T>` holds a value or an error, and never both.
pub data Result {ℓ} (A : Type ℓ) : Type ℓ where
  success : A → Result A
  failure : Error → Result A

-- The early return of `if (!result) return failure(result.error())`.
infixl 5 ◌>>=◌ ◌>>◌
abbrev pub ◌>>=◌ {ℓ κ} : {A : Type ℓ} {B : Type κ} → Result A → (A → Result B) → Result B
success a >>= f = f a
failure e >>= f = failure e

abbrev pub ◌>>◌ {ℓ} : {B : Type ℓ} → Result (Unit {0}) → Result B → Result B
m >> k = m >>= λ _. k

-- `if (wrong) return failure(error)`
abbrev pub reject_if : Bool → Error → Result (Unit {0})
reject_if true e = failure e
reject_if false e = success tt

-- `if (!option) return failure(error)`
abbrev pub or_fail {ℓ} : {A : Type ℓ} → Option A → Error → Result A
or_fail none e = failure e
or_fail (some a) e = success a

pub >>=-eq-success {ℓ κ} :
    {A : Type ℓ} {B : Type κ} (m : Result A) (f : A → Result B) {b : B}
    → (m >>= f) ≡ success b
    → (a : A) × (m ≡ success a) × (f a ≡ success b)
>>=-eq-success (success a) f h = (a, refl, h)
>>=-eq-success (failure e) f h = cc

pub success_inj {ℓ} : {A : Type ℓ} {a b : A} → success a ≡ success b → a ≡ b
success_inj h = cc

pub reject_if-eq-success :
    (b : Bool) (e : Error) {u : Unit {0}} → reject_if b e ≡ success u → b ≡ false
reject_if-eq-success true e h = cc
reject_if-eq-success false e h = refl

pub or_fail-eq-success {ℓ} :
    {A : Type ℓ} (o : Option A) (e : Error) {a : A} → or_fail o e ≡ success a → o ≡ some a
or_fail-eq-success none e h = cc
or_fail-eq-success (some a) e h = ground arith

unfoldable pub error_code_text : ErrorCode → Text
error_code_text invalid_argument = lit "invalid_argument"
error_code_text io_error = lit "io_error"
error_code_text parse_error = lit "parse_error"
error_code_text unsupported_format = lit "unsupported_format"
error_code_text disassembly_error = lit "disassembly_error"
error_code_text analysis_error = lit "analysis_error"
error_code_text not_found = lit "not_found"

-- The seven codes are written as seven different texts.
pub error_code_text_injective : (a b : ErrorCode) → error_code_text a ≡ error_code_text b → a ≡ b
unfolding error_code_text
error_code_text_injective a b h = ground arith

-- ===== src/Base/Errors.antt =====
-- The error values of the three packages, and results that carry one.
use mathlib.Core.Path.{◌≡◌, refl}
use mathlib.Core.Bool.{Bool, true, false}
use mathlib.Core.Logic.{◌⊎◌, inl, inr}
use mathlib.Core.Option.{Option, none, some}

-- Constructors with `format_` are the errors of internal/format whose name fbx/errors.go also has.
pub data Error : Type 0 where
  invalid_header invalid_dir invalid_chunk format_crc_mismatch bad_codec : Error
  format_limit_exceeded : Error
  invalid_path : Error
  not_found already_exists invalid_format crc_mismatch unsupported_feature : Error
  unsupported_codec path_invalid limit_exceeded : Error
  -- errors of the standard library and unnamed ones
  eof unexpected_eof closed_pipe read_error append_zero container_closed codec_failed : Error

-- What a Go function with an error return answers.
pub data Result {ℓ} (A : Type ℓ) : Type ℓ where
  err : Error → Result A
  ok : A → Result A

-- `if !test { return e }`
abbrev pub guard : Bool → Error → Result (Unit {0})
guard test e = elim test [ true ↦ ok tt | false ↦ err e ]

-- A failed read, answered by the error `e`.
abbrev pub need {ℓ} : {A : Type ℓ} → Error → Option A → Result A
need e (some a) = ok a
need e none = err e

-- `if err != nil { return err }`
infixl 5 ◌>>=◌ ◌>>◌
abbrev pub ◌>>=◌ {ℓ ℓ'} : {A : Type ℓ} {B : Type ℓ'} → Result A → (A → Result B) → Result B
err e >>= next = err e
ok a >>= next = next a

abbrev pub ◌>>◌ {ℓ} : {B : Type ℓ} → Result (Unit {0}) → Result B → Result B
test >> next = test >>= λ _. next

pub >>=-eq-ok {ℓ ℓ'} :
    {A : Type ℓ} {B : Type ℓ'} (r : Result A) (next : A → Result B) {b : B}
    → (r >>= next) ≡ ok b
    → (a : A) × (r ≡ ok a) × (next a ≡ ok b)
>>=-eq-ok (err e) next p = cc
>>=-eq-ok (ok a) next p = (a, refl, p)

pub guard-eq-ok {ℓ} :
    {B : Type ℓ} (t : Bool) (e : Error) (k : Result B) {b : B}
    → (guard t e >> k) ≡ ok b
    → (t ≡ true) × (k ≡ ok b)
guard-eq-ok true e k h = (refl, h)
guard-eq-ok false e k h = cc

pub need-eq-ok {ℓ} : {A : Type ℓ} (e : Error) (o : Option A) {a : A} → need e o ≡ ok a → o ≡ some a
need-eq-ok e none h = cc
need-eq-ok e (some a) h = cc

pub ok-injective {ℓ} : {A : Type ℓ} {a b : A} → ok a ≡ ok b → a ≡ b
ok-injective h = cc

pub Result-cases {ℓ} :
    {A : Type ℓ} (r : Result A) → ((a : A) × (r ≡ ok a)) ⊎ ((e : Error) × (r ≡ err e))
Result-cases (ok a) = inl (a, refl)
Result-cases (err e) = inr (e, refl)

-- ===== src/Error.antt =====
-- crates/henka-core/src/error.rs: the core's errors, and its `Result`. Where Rust panics a
-- computation ends in `panic`, which no caller of the core catches.
use henka.Common.{ℕ, ◌≡◌, ◌⊎◌, inl, inr, refl, Bool, true, false, Option, none, some}
use henka.Text.{Text}
use henka.FilePath.{FilePath}

-- `std::io::Error`: its kind where the program asks for it, else the text it displays.
pub data IoError : Type 0 where
  not_found : IoError
  other : Text → IoError

-- The errors of `toml` are kept as the text they display.
pub data Error : Type 0 where
  project_not_found : Text → Error
  project_already_exists : Text → Error
  invalid_project_id : Text → Error
  path_not_found : FilePath → Error
  not_a_directory : FilePath → Error
  no_language_detected : FilePath → Error
  config_read : FilePath → Text → Error
  config_write : Text → Error
  position_out_of_range : FilePath → ℕ → ℕ → Error
  overlapping_edits : FilePath → Error
  operation_not_available : Text → Error
  invalid_target : Text → Error
  backend : Text → Error
  io : IoError → Error

pub data Result {ℓ} (A : Type ℓ) : Type ℓ where
  ok : A → Result A
  err : Error → Result A
  panic : Result A

infixl 5 ◌>>=◌ ◌>>◌
abbrev pub ◌>>=◌ {ℓ κ} : {A : Type ℓ} {B : Type κ} → Result A → (A → Result B) → Result B
panic >>= next = panic
err e >>= next = err e
ok a >>= next = next a

abbrev pub ◌>>◌ {ℓ} : {B : Type ℓ} → Result (Unit {0}) → Result B → Result B
m >> k = m >>= λ _. k

-- `opt.ok_or(e)`
abbrev pub ok_or {ℓ} : {A : Type ℓ} → Option A → Error → Result A
ok_or none e = err e
ok_or (some a) e = ok a

-- An operation that panics where Rust's standard library does, such as a slice off a boundary.
abbrev pub or_panic {ℓ} : {A : Type ℓ} → Option A → Result A
or_panic none = panic
or_panic (some a) = ok a

abbrev pub when : Bool → Error → Result (Unit {0})
when true e = err e
when false e = ok tt

-- Inversion of a bind that succeeds, or that panics.
pub >>=-eq-ok {ℓ κ} :
    {A : Type ℓ} {B : Type κ} (r : Result A) (next : A → Result B) {b : B}
    → (r >>= next) ≡ ok b
    → (a : A) × (r ≡ ok a) × (next a ≡ ok b)
>>=-eq-ok panic next e = cc
>>=-eq-ok (err x) next e = cc
>>=-eq-ok (ok a) next e = (a, refl, e)

pub Result-cases {ℓ} :
    {A : Type ℓ} (r : Result A)
    → ((a : A) × (r ≡ ok a)) ⊎ (((e : Error) × (r ≡ err e)) ⊎ (r ≡ panic))
Result-cases (ok a) = inl (a, refl)
Result-cases (err e) = inr (inl (e, refl))
Result-cases panic = inr (inr refl)

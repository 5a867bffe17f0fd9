-- ===== src/Base/Esp.antt =====
-- `esp_err_t`, and fallible code that acts on a state. `ESP_RETURN_ON_ERROR(e, ...)` is a bind:
-- the first error is returned, with the state that the code has reached by then.
use Prim.Native.Nat.{ℕ}
use mathlib.Core.Path.{◌≡◌, refl}
use mathlib.Core.Logic.{◌⊎◌, inl, inr}
use mathlib.Core.Bool.{Bool, true, false}

-- The codes that the firmware returns or tests, and whatever else a driver may return.
pub data EspErr : Type 0 where
  fail no_mem invalid_arg invalid_state invalid_size not_found timeout : EspErr
  invalid_response invalid_crc : EspErr
  other : ℕ → EspErr

-- `ESP_OK` with what the call wrote to its out parameters, or an error.
pub data Result {ℓ} (A : Type ℓ) : Type ℓ where
  ok : A → Result A
  err : EspErr → Result A

abbrev pub is_ok {ℓ} : {A : Type ℓ} → Result A → Bool
is_ok (ok a) = true
is_ok (err e) = false

abbrev pub Act : Type 0 → Type 0 → Type 0
Act S A = S → Result A × S

abbrev pub pure : {S A : Type 0} → A → Act S A
pure a s = (ok a, s)

abbrev pub raise : {S A : Type 0} → EspErr → Act S A
raise e s = (err e, s)

abbrev pub and_then : {S A B : Type 0} → Result A → S → (A → Act S B) → Result B × S
and_then (ok a) s f = f a s
and_then (err e) s f = (err e, s)

infixl 5 ◌>>=◌ ◌>>◌
abbrev pub ◌>>=◌ : {S A B : Type 0} → Act S A → (A → Act S B) → Act S B
◌>>=◌ m f s = and_then (m s).0 (m s).1 f

abbrev pub ◌>>◌ : {S B : Type 0} → Act S (Unit {0}) → Act S B → Act S B
m >> k = m >>= λ _. k

-- A call whose result is not looked at.
abbrev pub exec : {S A : Type 0} → Act S A → S → S
exec m s = (m s).1

pub Result-cases {ℓ} :
    {A : Type ℓ} (r : Result A) → ((a : A) × (r ≡ ok a)) ⊎ ((e : EspErr) × (r ≡ err e))
Result-cases (ok a) = inl (a, refl)
Result-cases (err e) = inr (e, refl)

-- Inversion of a bind that succeeds.
pub and_then-eq-ok :
    {S A B : Type 0} (r : Result A) (s : S) (f : A → Act S B) {b : B}
    → (and_then r s f).0 ≡ ok b
    → (a : A) × (r ≡ ok a) × ((f a s).0 ≡ ok b)
and_then-eq-ok (ok a) s f h = (a, refl, h)
and_then-eq-ok (err e) s f h = cc

-- ===== src/Common/Outcome.antt =====
-- What a call that may throw comes to: its result, or the exception.

use mathlib.Core.Path.{◌≡◌, refl}

pub data Exception : Type 0 where
  rlp_exception bad_rlp undersize_rlp oversize_rlp bad_cast : Exception
  out_of_range invalid_argument bad_hex_character : Exception
  runtime_error crypto_exception password_unknown : Exception
  no_value secret_is_empty transaction_is_unsigned invalid_signature : Exception

pub data Outcome {ℓ} (A : Type ℓ) : Type ℓ where
  ok : A → Outcome A
  throw : Exception → Outcome A

infixl 5 ◌>>=◌
abbrev pub ◌>>=◌ {ℓ κ} : {A : Type ℓ} {B : Type κ} → Outcome A → (A → Outcome B) → Outcome B
ok a >>= f = f a
throw e >>= f = throw e

pub bind_assoc {ℓ κ μ} :
    {A : Type ℓ} {B : Type κ} {C : Type μ} (m : Outcome A) (f : A → Outcome B) (g : B → Outcome C)
    → (m >>= f >>= g) ≡ (m >>= λ a. f a >>= g)
bind_assoc (ok a) f g = refl
bind_assoc (throw e) f g = refl

pub bind-ok {ℓ} : {A : Type ℓ} (m : Outcome A) → (m >>= λ a. ok a) ≡ m
bind-ok (ok a) = refl
bind-ok (throw e) = refl

-- A chain that returned: its first part did, and what follows it.
pub >>=-eq-ok {ℓ κ} :
    {A : Type ℓ} {B : Type κ} (first : Outcome A) (next : A → Outcome B) {last : B}
    → (first >>= next) ≡ ok last
    → (step : A) × (first ≡ ok step) × (next step ≡ ok last)
>>=-eq-ok (throw e) next returned = cc
>>=-eq-ok (ok step) next returned = (step, refl, returned)

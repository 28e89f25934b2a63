-- ===== src/CommonData/HexText/Refusals.antt =====
-- Which texts `fromHex` takes.
use cpp_conflux_sdk.Common.Outcome.{Outcome, ok, throw}
use cpp_conflux_sdk.Common.{
  ℕ, ◌+◌, ◌*◌, ◌%◌, ◌^◌, ◌≡◌, refl, Bool, true, false, Bool-cases, inl, inr, ◌⊎◌, Option, none,
  some, [], ◌∷◌, ◌++◌, arith, Bytes, length, ◌==◌,
}
use cpp_conflux_sdk.CommonData.HexText.{
  dont_throw, throw_error, from_hex_char, is_digit, all_of, behind_prefix, is_hex, from_hex_loop,
  from_hex_odd, from_hex, refuse,
}

-- Whether a call returns.
abbrev pub returns {ℓ} : {A : Type ℓ} → Outcome A → Bool
returns (ok a) = true
returns (throw x) = false

-- The result, or no bytes.
abbrev pub or_no_bytes : Outcome Bytes → Bytes
or_no_bytes (ok bytes) = bytes
or_no_bytes (throw x) = []

-- The two ways to answer an error, side by side.
abbrev Agree : Outcome Bytes → Outcome Bytes → Bool → Type 0
Agree strict lax good = (returns strict ≡ good) × (lax ≡ ok (or_no_bytes strict))

digit_cases : (r : Option ℕ) → (r ≡ none) ⊎ ((v : ℕ) × (r ≡ some v))
digit_cases none = inl refl
digit_cases (some v) = inr (v, refl)

loop-Agree :
    (s ret : Bytes)
    → length s % 2 ≡ 0
    → Agree (from_hex_loop throw_error s ret) (from_hex_loop dont_throw s ret) (all_of is_digit s)
unfolding from_hex_loop all_of is_digit refuse
loop-Agree [] ret h = (refl, refl)
loop-Agree (c ∷ []) ret h = absurd (omega arith)
loop-Agree (c ∷ (d ∷ rest)) ret h = elim (digit_cases (from_hex_char c)) [
  | inl bad ↦ rw bad (refl, refl)
  | inr (x, good) ↦ rw good (elim (digit_cases (from_hex_char d)) [
    | inl bad ↦ rw bad (refl, refl)
    | inr (y, good') ↦
        rw good' (loop-Agree rest (ret ++ ((x * 16 + y) % 2 ^ 8 ∷ [])) (omega (arith, h)))
  ])
]

odd-Agree :
    (s : Bytes)
    → length s % 2 ≡ 1
    → Agree (from_hex_odd throw_error s) (from_hex_odd dont_throw s) (all_of is_digit s)
unfolding from_hex_odd all_of is_digit refuse
odd-Agree [] h = absurd (omega arith)
odd-Agree (c ∷ rest) h = elim (digit_cases (from_hex_char c)) [
  | inl bad ↦ rw bad (refl, refl)
  | inr (x, good) ↦ rw good (loop-Agree rest (x % 2 ^ 8 ∷ []) (omega (arith, h)))
]

-- The prefix has two characters, so it does not change whether the size is odd.
same_parity : (s : Bytes) → length (behind_prefix s) % 2 ≡ length s % 2
unfolding behind_prefix
same_parity [] = refl
same_parity (c ∷ []) = ground arith
same_parity (c ∷ (d ∷ s)) = ground arith

-- Told to throw, `fromHex` returns exactly on the texts that `isHex` accepts; told not to, it returns
-- the same bytes on these texts, and no bytes on all others.
pub from_hex-is_hex :
    (s : Bytes)
    → (returns (from_hex s throw_error) ≡ is_hex s)
      × (from_hex s dont_throw ≡ ok (or_no_bytes (from_hex s throw_error)))
unfolding from_hex is_hex
from_hex-is_hex s = elim (Bool-cases (length s % 2 == 1)) [
  | inl odd ↦ rw odd (odd-Agree (behind_prefix s) (ground (arith, same_parity s)))
  | inr even ↦ rw even (loop-Agree (behind_prefix s) [] (ground (arith, same_parity s)))
]

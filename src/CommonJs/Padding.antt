-- ===== src/CommonJs/Padding.antt =====
-- Padding and taking it away again.
use cpp_conflux_sdk.Common.{
  ℕ, zero, suc, ◌+◌, ◌-◌, ◌≤◌, ◌≡◌, refl, ◌∙◌, ◌∷◌, arith, Bytes, length, max, length-drop,
  take_all, replicate, Option, ap, ◌==◌, if◌then◌else◌, sym, Bool-cases, inl, inr, some, none, ◌++◌,
  [],
}
use cpp_conflux_sdk.CommonJs.{
  padded_loop, padded, padded_right, one_further, last_nonzero, up_to, unpadded, leading_zeros,
  unpad_left,
}

length-padded_loop : (n : ℕ) (b : Bytes) → length (padded_loop n b) ≡ n + length b
unfolding padded_loop
length-padded_loop zero b = omega arith
length-padded_loop (suc n) b = omega (arith, length-padded_loop n (0 ∷ b))

unpad_left-zero : (b : Bytes) → unpad_left (0 ∷ b) ≡ unpad_left b
unfolding unpad_left leading_zeros
unpad_left-zero b = refl

unpad_left-padded_loop : (n : ℕ) (b : Bytes) → unpad_left (padded_loop n b) ≡ unpad_left b
unfolding padded_loop
unpad_left-padded_loop zero b = refl
unpad_left-padded_loop (suc n) b = unpad_left-padded_loop n (0 ∷ b) ∙ unpad_left-zero b

-- Padded bytes are as many as asked for.
pub length-padded : (b : Bytes) (l : ℕ) → length (padded b l) ≡ l
unfolding padded
length-padded b l =
    let filled = padded_loop (l - length b) b in
    omega (arith, length-drop (length filled - max l l) filled, length-padded_loop (l - length b) b)

-- Padding to at least the size changes nothing behind the leading zeros.
pub unpad_left-padded : (b : Bytes) (l : ℕ) → length b ≤ l → unpad_left (padded b l) ≡ unpad_left b
unfolding padded
unpad_left-padded b l h =
    let filled = padded_loop (l - length b) b in
    let none_dropped : length filled - max l l ≡ 0 =
      omega (arith, length-padded_loop (l - length b) b) in
    rw none_dropped (unpad_left-padded_loop (l - length b) b)

last_nonzero-zeros : (n : ℕ) → last_nonzero (replicate n 0) ≡ none
unfolding last_nonzero one_further
last_nonzero-zeros zero = refl
last_nonzero-zeros (suc n) = ap (one_further 0) (last_nonzero-zeros n)

last_nonzero-append : (b : Bytes) (n : ℕ) → last_nonzero (b ++ replicate n 0) ≡ last_nonzero b
unfolding last_nonzero
last_nonzero-append [] n = last_nonzero-zeros n
last_nonzero-append (x ∷ b) n = ap (one_further x) (last_nonzero-append b n)

-- What is left of a byte and those behind it, by what is left of these.
with_byte : ℕ → Option ℕ → Bytes → Bytes
with_byte x none kept = if x == 0 then [] else x ∷ []
with_byte x (some p) kept = x ∷ kept

up_to-cons :
    (x : ℕ) (b : Bytes) (r : Option ℕ) → up_to (x ∷ b) (one_further x r) ≡ with_byte x r (up_to b r)
unfolding up_to one_further with_byte
up_to-cons x b none = elim (Bool-cases (x == 0)) [
  | inl zero_byte ↦ rw zero_byte refl
  | inr other ↦ rw other refl
]
up_to-cons x b (some p) = refl

up_to-append : (b : Bytes) (n : ℕ) → up_to (b ++ replicate n 0) (last_nonzero b) ≡ unpadded b
unfolding unpadded last_nonzero
up_to-append [] n = unfold up_to in refl
up_to-append (x ∷ b) n =
    up_to-cons x (b ++ replicate n 0) (last_nonzero b)
    ∙ ap (with_byte x (last_nonzero b)) (up_to-append b n)
    ∙ sym (up_to-cons x b (last_nonzero b))

unpadded-append :
    (b : Bytes) (n : ℕ)
    → unpadded (b ++ replicate n 0) ≡ up_to (b ++ replicate n 0) (last_nonzero b)
unfolding unpadded
unpadded-append b n = ap (up_to (b ++ replicate n 0)) (last_nonzero-append b n)

-- Zeros added at the end are taken away again with the zeros that stood there.
pub unpadded-padded_right :
    (b : Bytes) (l : ℕ) → length b ≤ l → unpadded (padded_right b l) ≡ unpadded b
unfolding padded_right
unpadded-padded_right b l h =
    rw (take_all l b h) (unpadded-append b (l - length b) ∙ up_to-append b (l - length b))

-- ===== src/Hex/RoundTrip.antt =====
-- `EncodeToString` behind `DecodeString`: what was written is read back.
use native.Mathlib.Nat.{zero-add}
use cpp_conflux_sdk.Common.{
  ℕ, suc, ◌+◌, ◌*◌, ◌%◌, ◌<◌, ◌≡◌, refl, ap, ◌∙◌, Bool, true, false, ◌&&◌, [], ◌∷◌, ◌++◌,
  append_assoc, append-nil, arith, Bytes, length, All, IsByte, ◌==◌,
}
use cpp_conflux_sdk.Common.Tables.{holds_below, holds_below→at}
use cpp_conflux_sdk.Hex.{
  from_hex_char, join_digits, decode_loop, decode, decode_string, high_digit, low_digit,
  encode_to_string,
}

-- Both digits of a byte are read back, and they join to the byte.
reads_back : ℕ → ℕ → ℕ → Bool
reads_back v c d =
    (from_hex_char c).1
    && ((from_hex_char d).1 && (join_digits (from_hex_char c).0 (from_hex_char d).0 == v))

byte_table : holds_below 256 (λ v. reads_back v (high_digit v) (low_digit v)) ≡ true
unfolding holds_below reads_back high_digit low_digit from_hex_char join_digits
byte_table = refl

pub digits_of_byte :
    (v : ℕ)
    → v < 256
    → ((from_hex_char (high_digit v)).1 ≡ true)
      × ((from_hex_char (low_digit v)).1 ≡ true)
      × (join_digits (from_hex_char (high_digit v)).0 (from_hex_char (low_digit v)).0 ≡ v)
unfolding reads_back
digits_of_byte v h =
    ground
      (arith, holds_below→at 256 (λ v. reads_back v (high_digit v) (low_digit v)) byte_table v h)

decode_loop-digits :
    (odd : Bool) (v : ℕ) (rest dst : Bytes) (i : ℕ)
    → v < 256
    → decode_loop odd (high_digit v ∷ (low_digit v ∷ rest)) dst i
      ≡ decode_loop odd rest (dst ++ (v ∷ [])) (i + 1)
unfolding decode_loop
decode_loop-digits odd v rest dst i h = ground (arith, digits_of_byte v h)

-- Encoded bytes are read into `dst`, and the loop goes on with what follows them.
pub decode_loop-encode :
    (odd : Bool) (bs rest dst : Bytes) (i : ℕ)
    → All IsByte bs
    → decode_loop odd (encode_to_string bs ++ rest) dst i
      ≡ decode_loop odd rest (dst ++ bs) (i + length bs)
unfolding encode_to_string
decode_loop-encode odd [] rest dst i h = let same : i + 0 ≡ i = omega arith in rw (append-nil, same)
decode_loop-encode odd (b ∷ bs) rest dst i (hb, h) =
    let count : i + 1 + length bs ≡ i + suc (length bs) = omega arith in
    decode_loop-digits odd b (encode_to_string bs ++ rest) dst i hb
    ∙ decode_loop-encode odd bs rest (dst ++ (b ∷ [])) (i + 1) h
    ∙ rw (append_assoc, count)

pub length-encode_to_string : (bs : Bytes) → length (encode_to_string bs) ≡ 2 * length bs
unfolding encode_to_string
length-encode_to_string [] = refl
length-encode_to_string (b ∷ bs) = omega (arith, length-encode_to_string bs)

-- Two digits for a byte, so the length is even.
pub even_length : (bs : Bytes) → (length (encode_to_string bs) % 2 == 1) ≡ false
even_length bs = ground (arith, length-encode_to_string bs)

-- Bytes written as hexadecimal text and decoded are the bytes themselves, and `Decode` appends them
-- to its destination and returns their number.
pub decode-encode_to_string :
    (dst bs : Bytes)
    → All IsByte bs
    → (decode_string (encode_to_string bs) ≡ bs)
      × (decode dst (encode_to_string bs) ≡ (dst ++ bs, length bs))
unfolding decode_string decode
decode-encode_to_string dst bs h = (ap (λ (r : Bytes × ℕ). r.0) (whole []), whole dst)
  where
    whole :
        (dst : Bytes)
        → decode_loop (length (encode_to_string bs) % 2 == 1) (encode_to_string bs) dst 0
          ≡ (dst ++ bs, length bs)
    whole dst =
        rw (even_length bs, ← append-nil (encode_to_string bs))
          (decode_loop-encode false bs [] dst 0 h ∙ unfold decode_loop in rw zero-add)

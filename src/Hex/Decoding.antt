-- ===== src/Hex/Decoding.antt =====
-- `Decode` on text that is no encoding.
use native.Mathlib.Nat.{zero-add}
use cpp_conflux_sdk.Common.{
  ℕ, ◌+◌, ◌%◌, ◌≡◌, refl, ◌∙◌, Bool, true, false, ◌&&◌, [], ◌∷◌, ◌++◌, arith, Bytes, length,
  length-append, All, IsByte, ◌==◌,
}
use cpp_conflux_sdk.Hex.{from_hex_char, decode_loop, decode, encode_to_string}
use cpp_conflux_sdk.Hex.RoundTrip.{decode_loop-encode, length-encode_to_string}

bad_pair :
    (odd : Bool) (c d : ℕ) (rest dst : Bytes) (i : ℕ)
    → ((from_hex_char c).1 && (from_hex_char d).1) ≡ false
    → decode_loop odd (c ∷ (d ∷ rest)) dst i ≡ (dst, i)
unfolding decode_loop
bad_pair odd c d rest dst i h = ground arith

odd_length : (bs : Bytes) (c : ℕ) → (length (encode_to_string bs ++ (c ∷ [])) % 2 == 1) ≡ true
odd_length bs c =
    ground (arith, length-append (encode_to_string bs) (c ∷ []), length-encode_to_string bs)

-- Decoding stops at the first pair that is not two hexadecimal digits: the bytes in front of it have
-- been appended and counted, and what follows is not read. A single character left over after the
-- bytes makes the count 0, and leaves the bytes appended.
pub decode_stops :
    (dst bs : Bytes) (c d : ℕ) (rest : Bytes)
    → All IsByte bs
    → ((from_hex_char c).1 && (from_hex_char d).1) ≡ false
    → (decode dst (encode_to_string bs ++ (c ∷ (d ∷ rest))) ≡ (dst ++ bs, length bs))
      × (decode dst (encode_to_string bs ++ (c ∷ [])) ≡ (dst ++ bs, 0))
unfolding decode
decode_stops dst bs c d rest h bad = (
  decode_loop-encode _ bs (c ∷ (d ∷ rest)) dst 0 h
      ∙ bad_pair _ c d rest (dst ++ bs) (0 + length bs) bad
      ∙ rw zero-add,
  rw (odd_length bs c) (decode_loop-encode true bs (c ∷ []) dst 0 h ∙ unfold decode_loop in refl),
)

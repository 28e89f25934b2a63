-- ===== src/Abi/Param/RoundTrip.antt =====
-- A parameter that was encoded is decoded again, from between any bytes.
use cpp_conflux_sdk.Common.{
  ℕ, zero, suc, ◌+◌, ◌-◌, ◌%◌, ◌^◌, ◌≤◌, ◌<◌, ◌≡◌, refl, sym, ap, ◌∙◌, true, false, some, [], ◌++◌,
  append_assoc, append-nil, arith, Bytes, length, take, drop, replicate, length-append,
  length-replicate, take-append_length, drop-append_length, ltb, ◌==◌,
}
use native.Mathlib.Nat.{mod-eq_of_lt}
use cpp_conflux_sdk.Common.Bits.{bit_and_mask, pow_mono}
use cpp_conflux_sdk.Abi.{Boost, IsExact, encode_uint256, decode_uint256, padded_to32, pad_needed32}
use cpp_conflux_sdk.Abi.Words.{
  length-encode_uint256, decode_uint256-encode_uint256, padded_to32-sum,
}
use cpp_conflux_sdk.Abi.Param.{
  Param, number, boolean, uint_n, address, byte_array, byte_array_fix, string, fresh, get_size,
  mask_for_bits, set_val, encode_padded, decode_bytes_fix, read_bytes, encode_bytes, decode_bytes,
  encode_string, decode_string, decode_number, decode_uint_n, encode, decode,
}

-- A parameter that its type can hold.
unfoldable pub IsHeld : Param → Type 0
IsHeld (number bits val) = (bits ≤ 256) × (val < 2 ^ bits)
IsHeld (boolean val) = Unit {0}
IsHeld (uint_n bits val) = (bits ≤ 256) × (val < 2 ^ bits)
IsHeld (address val) = val < 2 ^ 160
IsHeld (byte_array val) = length val < 2 ^ 64
IsHeld (byte_array_fix n val) = length val ≡ n
IsHeld (string val) = length val < 2 ^ 64

wide : (bits val : ℕ) → bits ≤ 256 → val < 2 ^ bits → val < 2 ^ 256
wide bits val le h = omega (arith, h, pow_mono bits 256 le)

length-encode_padded : (s : Bytes) → length (encode_padded s) ≡ padded_to32 (length s)
unfolding encode_padded
length-encode_padded s = omega (
  arith,
  length-append s (replicate (pad_needed32 (length s)) 0),
  length-replicate {A = ℕ} (pad_needed32 (length s)) 0,
  padded_to32-sum (length s),
)

drop-replicate : (n : ℕ) → drop {A = ℕ} n (replicate n 0) ≡ []
drop-replicate zero = refl
drop-replicate (suc n) = drop-replicate n

-- A word and the bytes behind it, padded.
padded_word : (n : ℕ) → 32 + padded_to32 n ≡ padded_to32 (32 + n)
unfolding padded_to32
padded_word n = omega arith

-- As many bytes as a fixed array has, read from between any bytes.
pub decode_bytes_fix-plain :
    (n : ℕ) (s front behind : Bytes)
    → length s ≡ n
    → decode_bytes_fix (front ++ (s ++ behind)) n (replicate n 0) (length front)
      ≡ some (s, length front + padded_to32 n)
unfolding decode_bytes_fix
decode_bytes_fix-plain n s front behind h =
    let all = length-append front (s ++ behind) in
    let tail = length-append s behind in
    let within : ltb (length (front ++ (s ++ behind))) (length front + n) ≡ false =
      ground (arith, all, tail) in
    let roomy : ltb (length (replicate {A = ℕ} n 0)) n ≡ false =
      ground (arith, length-replicate {A = ℕ} n 0) in
    let value : take n (drop (length front) (front ++ (s ++ behind))) ≡ s =
      ap (λ (d : Bytes). take n d) (drop-append_length (length front) front (s ++ behind) refl)
      ∙ take-append_length n s behind h in
    rw (within, roomy, value, drop-replicate n, append-nil)

decode_bytes_fix-encode_padded :
    (s front rest : Bytes)
    → decode_bytes_fix
        (front ++ (encode_padded s ++ rest))
        (length s)
        (replicate (length s) 0)
        (length front)
      ≡ some (s, length front + padded_to32 (length s))
unfolding encode_padded
decode_bytes_fix-encode_padded s front rest =
    let zeros : Bytes = replicate (pad_needed32 (length s)) 0 in
    rw (append_assoc s zeros rest) (decode_bytes_fix-plain (length s) s front (zeros ++ rest) refl)

-- The bytes behind a word at `o`.
read_bytes-padded :
    (d front s behind : Bytes) (o : ℕ)
    → d ≡ front ++ (s ++ behind)
    → length d < 2 ^ 64
    → o + 32 ≡ length front
    → read_bytes d o (length s) (length front) ≡ some (s, o + (32 + padded_to32 (length s)))
unfolding read_bytes
read_bytes-padded d front s behind o e small place =
    let all : length d ≡ length front + (length s + length behind) =
      ap (λ (t : Bytes). length t) e
      ∙ length-append front (s ++ behind)
      ∙ ap (λ (n : ℕ). length front + n) (length-append s behind) in
    let same : length s % 2 ^ 64 ≡ length s = mod-eq_of_lt (omega (arith, small, all)) in
    let whole : (length front + length s) % 2 ^ 64 ≡ length front + length s =
      mod-eq_of_lt (omega (arith, small, all)) in
    let equal : (length s == length s) ≡ true = ground arith in
    let within : ltb (length d) (length front + length s) ≡ false = ground (arith, all) in
    let value : take (length s) (drop (length front) d) ≡ s =
      rw (e, drop-append_length (length front) front (s ++ behind) refl)
        (take-append_length (length s) s behind refl) in
    let moved : padded_to32 (length front + length s - o) ≡ 32 + padded_to32 (length s) =
      ap (λ (n : ℕ). padded_to32 n) (omega (arith, place)) ∙ sym (padded_word (length s)) in
    rw (same, whole, equal, within, value, moved)

held :
    (s front rest word : Bytes)
    → length (front ++ ((word ++ encode_padded s) ++ rest)) < 2 ^ 64
    → length s < 2 ^ 64
unfolding encode_padded
held s front rest word small = omega (
  arith,
  small,
  length-append front ((word ++ encode_padded s) ++ rest),
  length-append (word ++ encode_padded s) rest,
  length-append word (encode_padded s),
  length-append s (replicate (pad_needed32 (length s)) 0),
)

module _ (b : Boost) (exact : IsExact b) where
  -- What is encoded has the size that `getSize` tells.
  pub length-encode : (p : Param) → IsHeld p → length (encode b p) ≡ get_size p
  unfolding encode get_size IsHeld encode_bytes encode_string
  length-encode (number bits val) h = length-encode_uint256 b exact val (wide bits val h.0 h.1)
  length-encode (boolean true) h = length-encode_uint256 b exact 1 (omega arith)
  length-encode (boolean false) h = length-encode_uint256 b exact 0 (omega arith)
  length-encode (uint_n bits val) h = length-encode_uint256 b exact val (wide bits val h.0 h.1)
  length-encode (address val) h = length-encode_uint256 b exact val (omega arith)
  length-encode (byte_array val) h = omega (
    arith,
    length-append (encode_uint256 b (length val)) (encode_padded val),
    length-encode_uint256 b exact (length val) (omega arith),
    length-encode_padded val,
  )
  length-encode (byte_array_fix n val) h = length-encode_padded val
  length-encode (string val) h = omega (
    arith,
    length-append (encode_uint256 b (length val)) (encode_padded val),
    length-encode_uint256 b exact (length val) (omega arith),
    length-encode_padded val,
  )

  decode_bytes-encode_bytes :
      (s front rest : Bytes)
      → length (front ++ (encode_bytes b s ++ rest)) < 2 ^ 64
      → decode_bytes b (front ++ (encode_bytes b s ++ rest)) (length front)
        ≡ some (s, length front + (32 + padded_to32 (length s)))
  unfolding decode_bytes encode_bytes
  decode_bytes-encode_bytes s front rest small =
      let word = encode_uint256 b (length s) in
      let zeros : Bytes = replicate (pad_needed32 (length s)) 0 in
      let d = front ++ ((word ++ encode_padded s) ++ rest) in
      let shape : d ≡ front ++ (word ++ (encode_padded s ++ rest)) =
        ap (λ (d : Bytes). front ++ d) (append_assoc word (encode_padded s) rest) in
      let fits : length s < 2 ^ 64 = held s front rest word small in
      let read : decode_uint256 b d (length front) ≡ some (length s, length front + 32) =
        ap (λ (d : Bytes). decode_uint256 b d (length front)) shape
        ∙ decode_uint256-encode_uint256 b exact (length s) front (encode_padded s ++ rest)
            (omega (arith, fits)) in
      let behind : d ≡ (front ++ word) ++ (s ++ (zeros ++ rest)) =
        shape
        ∙ sym (append_assoc front word (encode_padded s ++ rest))
        ∙ ap (λ (d : Bytes). (front ++ word) ++ d)
            (unfold encode_padded in append_assoc s zeros rest) in
      let place : length front + 32 ≡ length (front ++ word) = omega (
        arith,
        length-append front word,
        length-encode_uint256 b exact (length s) (omega (arith, fits)),
      ) in
      rw (read, place)
        (read_bytes-padded d (front ++ word) s (zeros ++ rest) (length front) behind small place)

  -- A parameter that its type can hold, encoded among any bytes that all have fewer than 2 ^ 64, is
  -- decoded into a fresh parameter of its type, and the offset moves by the bytes of its coding.
  pub decode-encode :
      (p : Param) (front rest : Bytes)
      → IsHeld p
      → length (front ++ (encode b p ++ rest)) < 2 ^ 64
      → decode b (fresh p) (front ++ (encode b p ++ rest)) (length front)
        ≡ some (p, length front + get_size p)
  unfolding decode encode fresh IsHeld get_size set_val mask_for_bits decode_number decode_uint_n
      decode_string encode_string
  decode-encode (number bits val) front rest h small = rw (
    decode_uint256-encode_uint256 b exact val front rest (wide bits val h.0 h.1),
    exact.narrow_exact bits val h.1,
  )
  decode-encode (boolean true) front rest h small =
      rw (decode_uint256-encode_uint256 b exact 1 front rest (omega arith))
  decode-encode (boolean false) front rest h small =
      rw (decode_uint256-encode_uint256 b exact 0 front rest (omega arith))
  decode-encode (uint_n bits val) front rest h small = rw (
    decode_uint256-encode_uint256 b exact val front rest (wide bits val h.0 h.1),
    bit_and_mask bits val,
    mod-eq_of_lt h.1,
  )
  decode-encode (address val) front rest h small = rw (
    decode_uint256-encode_uint256 b exact val front rest (omega arith),
    bit_and_mask 160 val,
    mod-eq_of_lt h,
  )
  decode-encode (byte_array val) front rest h small =
      rw (decode_bytes-encode_bytes val front rest small)
  decode-encode (byte_array_fix n val) front rest h small =
      let read = decode_bytes_fix-encode_padded val front rest in rw (sym h, read)
  decode-encode (string val) front rest h small =
      rw (decode_bytes-encode_bytes val front rest small)

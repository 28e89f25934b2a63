-- ===== src/Rlp/Reader/Values/Integers.antt =====
-- An integer that was written is read again.
use cpp_conflux_sdk.Common.{
  ℕ, ◌+◌, ◌-◌, ◌^◌, max, ◌≤◌, ◌<◌, ◌≡◌, refl, ◌∙◌, subst, true, false, ◌&&◌, Bool-cases, inl, inr,
  [], ◌∷◌, append-nil, arith, Bytes, length, get_or, length-append, if◌then◌else◌, ltb, leb, ◌==◌,
}
use cpp_conflux_sdk.Common.Outcome.{ok, throw, bad_cast, ◌>>=◌}
use cpp_conflux_sdk.CommonData.Endian.{
  from_big_endian, bytes_required, to_big_endian, to_compact_big_endian,
}
use cpp_conflux_sdk.CommonData.Endian.RoundTrip.{length-to_big_endian}
use cpp_conflux_sdk.CommonData.Endian.Compact.{from_big_endian-to_compact_big_endian}
use cpp_conflux_sdk.Rlp.Item.{str, encode, encode_str, head}
use cpp_conflux_sdk.Rlp.Stream.{empty, append_int, finished, note_appended, note_loop}
use cpp_conflux_sdk.Rlp.Stream.Refines.{append-encode_str}
use cpp_conflux_sdk.Rlp.Stream.Integers.{append_int-to_compact_big_endian}
use cpp_conflux_sdk.Rlp.Reader.{strict}
use cpp_conflux_sdk.Rlp.Reader.Heads.{few_bytes, no_leading_zero}
use cpp_conflux_sdk.Rlp.Reader.Values.{to_int}
use cpp_conflux_sdk.Rlp.Reader.Values.Strings.{no_zero_first, to_int-encode}

head-le : (start n : ℕ) → n < 2 ^ 64 → length (head start n) ≤ 9
unfolding head
head-le start n small = elim (Bool-cases (ltb n 56)) [
  | inl short ↦ rw short (omega arith)
  | inr long ↦
      rw long
        (omega (arith, few_bytes n (ground arith) small, length-to_big_endian (bytes_required n) n))
]

encode_str-le : (s : Bytes) → length s < 2 ^ 64 → length (encode_str s) ≤ length s + 9
unfolding encode_str
encode_str-le [] small = omega (arith, head-le 0x80 0 small)
encode_str-le (b ∷ []) small = elim (Bool-cases (ltb b 0x80)) [
  | inl own ↦ rw own (omega arith)
  | inr other ↦ rw other (omega (arith, head-le 0x80 1 small, length-append (head 0x80 1) (b ∷ [])))
]
encode_str-le (b ∷ (c ∷ s)) small =
    let body = b ∷ (c ∷ s) in
    omega (arith, head-le 0x80 (length body) small, length-append (head 0x80 (length body)) body)

no_zero_first-get_or : (s : Bytes) → (get_or s 0 0 == 0) ≡ false → no_zero_first s ≡ true
unfolding no_zero_first
no_zero_first-get_or [] h = refl
no_zero_first-get_or (b ∷ s) h = rw h

no_zero_first-compact : (i : ℕ) → no_zero_first (to_compact_big_endian i 0) ≡ true
unfolding to_compact_big_endian
no_zero_first-compact i =
    let size : max 0 (bytes_required i) ≡ bytes_required i = omega arith in
    rw size (elim (Bool-cases (bytes_required i == 0)) [
      | inl none ↦
          let zero' : bytes_required i ≡ 0 = ground arith in
          rw zero' (unfold to_big_endian no_zero_first in refl)
      | inr some ↦ no_zero_first-get_or _ (no_leading_zero i (bytes_required i) refl (ground arith))
    ])

written :
    (i : ℕ)
    → bytes_required i < 2 ^ 64
    → (append_int empty i >>= finished) ≡ ok (encode_str (to_compact_big_endian i 0))
unfolding note_appended note_loop finished
written i h =
    let size : length (to_compact_big_endian i 0) < 2 ^ 64 =
      unfold to_compact_big_endian in
      omega (arith, length-to_big_endian (max 0 (bytes_required i)) i) in
    rw (
      append_int-to_compact_big_endian empty i,
      append-encode_str [] (to_compact_big_endian i 0) [] size,
    )

-- An integer that is appended to an empty stream and read from the stream's bytes with the strict flags
-- comes out the same, for every type of `w` bits and `max_size` bytes that holds it.
pub to_int-append_int :
    (w max_size i : ℕ)
    → i < 2 ^ w
    → bytes_required i ≤ max_size
    → max_size < 2 ^ 32
    → (append_int empty i >>= finished >>= λ d. to_int w max_size d strict) ≡ ok i
to_int-append_int w max_size i h fits few =
    let s = to_compact_big_endian i 0 in
    let value = from_big_endian-to_compact_big_endian w i 0 h in
    let short : length (encode (str s)) < 2 ^ 64 - 1 - 0x100 =
      unfold encode in omega (arith, value.1, encode_str-le s (omega (arith, value.1))) in
    let within : leb (length s) max_size ≡ true = ground (arith, value.1) in
    let read : to_int w max_size (encode (str s)) strict ≡ (
        if no_zero_first s && leb (length s) max_size
        then ok (from_big_endian w s)
        else throw bad_cast) =
      subst
        (λ (d : Bytes). to_int w max_size d strict ≡ (
          if no_zero_first s && leb (length s) max_size
          then ok (from_big_endian w s)
          else throw bad_cast))
        (append-nil (encode (str s))) (to_int-encode w max_size s [] short) in
    rw (written i (omega arith))
      (unfold encode in read ∙ rw (no_zero_first-compact i, within, value.0))

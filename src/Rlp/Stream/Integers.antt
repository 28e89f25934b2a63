-- ===== src/Rlp/Stream/Integers.antt =====
-- An integer is written as the string of its bytes.
use cpp_conflux_sdk.Common.{
  ℕ, zero, suc, ◌+◌, ◌*◌, ◌^◌, ◌≤◌, ◌<◌, ◌≡◌, refl, ap, max, false, Bool-cases, inl, inr, [], ◌∷◌,
  append-nil, arith, Bytes, length, ltb, ◌==◌,
}
use cpp_conflux_sdk.Common.Bits.{bit_and_mask}
use cpp_conflux_sdk.CommonData.Endian.{bytes_required, to_big_endian, to_compact_big_endian}
use cpp_conflux_sdk.CommonData.Endian.Compact.{bytes_required_iff}
use cpp_conflux_sdk.CommonData.Endian.RoundTrip.{length-to_big_endian}
use cpp_conflux_sdk.Rlp.Stream.{
  Stream, push_int, push_count, append_raw, note_appended, is_own_code, append, append_int,
}

is_own_code_long : (s : Bytes) → 2 ≤ length s → is_own_code s ≡ false
unfolding is_own_code
is_own_code_long [] h = absurd (omega arith)
is_own_code_long (b ∷ []) h = absurd (omega arith)
is_own_code_long (b ∷ (c ∷ s)) h = refl

one_byte : (i : ℕ) → i < 2 ^ 8 → to_big_endian 1 i ≡ i ∷ []
unfolding to_big_endian
one_byte i h = ap (λ (b : ℕ). b ∷ []) (omega (arith, bit_and_mask 8 i))

is_own_code-to_big_endian :
    (br i : ℕ) → 0x80 ≤ i → i < 2 ^ (8 * br) → is_own_code (to_big_endian br i) ≡ false
is_own_code-to_big_endian zero i big h = absurd (omega arith)
is_own_code-to_big_endian (suc zero) i big h =
    rw (one_byte i (omega arith)) (unfold is_own_code in ground arith)
is_own_code-to_big_endian (suc (suc n)) i big h =
    is_own_code_long _ (omega (arith, length-to_big_endian (suc (suc n)) i))

required : (i : ℕ) → i < 2 ^ (8 * bytes_required i)
required i = (bytes_required_iff i (bytes_required i)).1 (omega arith)

one_required : (i : ℕ) → 0 < i → i < 0x80 → bytes_required i ≡ 1
one_required i pos small =
    grind (arith, bytes_required_iff i 0, (bytes_required_iff i 1).0 (omega arith))

none_required : bytes_required 0 ≡ 0
none_required = omega (arith, (bytes_required_iff 0 0).0 (omega arith))

-- Appending an integer is appending its big-endian bytes without a leading zero, of whatever size,
-- also where it throws.
pub append_int-to_compact_big_endian :
    (st : Stream) (i : ℕ) → append_int st i ≡ append st (to_compact_big_endian i 0) false
unfolding append_int append append_raw note_appended push_count push_int to_compact_big_endian
append_int-to_compact_big_endian st zero =
    rw none_required (unfold to_big_endian is_own_code in rw append-nil)
append_int-to_compact_big_endian st (suc i) =
    let some : (suc i == 0) ≡ false = ground arith in
    elim (Bool-cases (ltb (suc i) 0x80)) [
      | inl own ↦
          let one = one_required (suc i) (omega arith) (ground arith) in
          rw (own, one, some, one_byte (suc i) (ground arith)) (unfold is_own_code in rw own)
      | inr other ↦
          let br = bytes_required (suc i) in
          let size : max 0 br ≡ br = omega arith in
          let framed = is_own_code-to_big_endian br (suc i) (ground arith) (required (suc i)) in
          let first : bytes_required br + 0xb7 ≡ 0xb7 + bytes_required br = omega arith in
          rw (other, some, size, framed, length-to_big_endian br (suc i), first)
            (elim (Bool-cases (ltb br 56)) [
              | inl short ↦ rw short
              | inr long ↦ elim (Bool-cases (ltb 0xff (0xb7 + bytes_required br))) [
                | inl over ↦ rw (long, over)
                | inr fits ↦ rw (long, fits)
              ]
            ])
    ]

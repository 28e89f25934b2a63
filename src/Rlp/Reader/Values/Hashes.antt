-- ===== src/Rlp/Reader/Values/Hashes.antt =====
-- The coding of a string, read as a hash and as text.
use cpp_conflux_sdk.Common.Outcome.{ok}
use cpp_conflux_sdk.Common.{
  ℕ, ◌-◌, ◌^◌, ◌<◌, ◌≡◌, refl, ap, subst, true, false, [], ◌∷◌, append-nil, arith, Bytes, length,
  take_all, min, ltb,
}
use cpp_conflux_sdk.CommonData.Endian.{from_big_endian, from_big_endian_loop}
use cpp_conflux_sdk.Rlp.Item.{str, encode, encode_str, content, length-content}
use cpp_conflux_sdk.Rlp.Reader.{
  strict, laissez_faire, has, is_data, payload, payload_length, require_good, is_null, is_list,
  good_length, payload_offset, is_single_byte, cropped,
}
use cpp_conflux_sdk.Rlp.Reader.Sizes.{encode-Reads}
use cpp_conflux_sdk.Rlp.Reader.Items.Walk.{cropped-first}
use cpp_conflux_sdk.Rlp.Reader.Values.{failed, to_int, is_int, to_hash, to_string}
use cpp_conflux_sdk.Rlp.Reader.Values.Strings.{is_data-str}

-- The coding of a string of n bytes is read as a hash of n bytes.
pub to_hash-encode :
    (n : ℕ) (s : Bytes)
    → length s ≡ n
    → length (encode (str s)) < 2 ^ 64 - 1 - 0x100
    → to_hash n (encode (str s)) strict ≡ ok s
unfolding to_hash failed has
to_hash-encode n s size small =
    let at_end = append-nil (encode (str s)) in
    let reads = encode-Reads (str s) [] small in
    let good : require_good (encode (str s)) ≡ ok tt =
      subst (λ d. require_good d ≡ ok tt) at_end reads.good_of in
    let body : payload (encode (str s)) ≡ ok s =
      subst (λ d. payload d ≡ ok s) at_end (unfold content in reads.payload_of) in
    let fits : length s < 2 ^ 64 = unfold content in omega (arith, small, length-content (str s)) in
    let data' : is_data (encode (str s)) ≡ true =
      subst (λ d. is_data d ≡ true) at_end (is_data-str s [] fits) in
    let not_over : ltb n (length s) ≡ false = ground (arith, size) in
    let not_under : ltb (length s) n ≡ false = ground (arith, size) in
    let whole : min n (length s) ≡ length s = omega (arith, size) in
    let filled : n - length s ≡ 0 = omega (arith, size) in
    rw (good, body, data', not_over, not_under, whole, filled)
      (ap ok (take_all (length s) s (omega arith)))

-- Told not to throw, the coding of a string is read as the string.
pub to_string-encode :
    (s : Bytes)
    → length (encode (str s)) < 2 ^ 64 - 1 - 0x100
    → to_string (encode (str s)) laissez_faire ≡ ok s
unfolding to_string
to_string-encode s small =
    let at_end = append-nil (encode (str s)) in
    let reads = encode-Reads (str s) [] small in
    let body : payload (encode (str s)) ≡ ok s =
      subst (λ d. payload d ≡ ok s) at_end (unfold content in reads.payload_of) in
    let long : payload_length (encode (str s)) ≡ ok (length s) =
      subst (λ d. payload_length d ≡ ok (length s)) at_end
        (unfold content in reads.payload_length_of) in
    let fits : length s < 2 ^ 64 = unfold content in omega (arith, small, length-content (str s)) in
    let data' : is_data (encode (str s)) ≡ true =
      subst (λ d. is_data d ≡ true) at_end (is_data-str s [] fits) in
    let whole : cropped s 0 (length s) ≡ s =
      subst (λ d. cropped d 0 (length s) ≡ s) (append-nil s) (cropped-first s []) in
    rw (body, long, data') (ap ok whole)

-- The coding of the number one.
pub to_int-one : to_int 32 4 (encode (str (1 ∷ []))) strict ≡ ok 1
unfolding encode encode_str to_int require_good is_int payload payload_length good_length is_null
    is_list has payload_offset is_single_byte cropped from_big_endian from_big_endian_loop
to_int-one = refl

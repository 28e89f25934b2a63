-- ===== src/Rlp/Reader/Values/Strings.antt =====
-- The values read from the coding of a string: the string, an integer or a hash.
use cpp_conflux_sdk.Common.{
  ℕ, suc, ◌+◌, ◌-◌, ◌^◌, ◌≤◌, ◌<◌, ◌≡◌, refl, sym, ap, ◌∙◌, subst, Bool, true, false, not, ◌&&◌,
  Bool-cases, inl, inr, [], ◌∷◌, ◌++◌, append_assoc, arith, Bytes, length, take_all, get_or-length,
  length-append, if◌then◌else◌, ltb, leb, ◌==◌,
}
use cpp_conflux_sdk.Common.Outcome.{ok, throw, bad_cast}
use cpp_conflux_sdk.CommonData.Endian.{from_big_endian, bytes_required, to_big_endian}
use cpp_conflux_sdk.CommonData.Endian.RoundTrip.{length-to_big_endian}
use cpp_conflux_sdk.Rlp.Item.{Item, str, lst, encode, encode_str, content, head, length-content}
use cpp_conflux_sdk.Rlp.Reader.{
  Strictness, has, strict, is_null, is_data, is_list, require_good, payload,
}
use cpp_conflux_sdk.Rlp.Reader.Heads.{few_bytes}
use cpp_conflux_sdk.Rlp.Reader.Sizes.{encode-Reads, is_null-cons, require_good-byte}
use cpp_conflux_sdk.Rlp.Reader.Items.Walk.{is_list-encode}
use cpp_conflux_sdk.Rlp.Reader.Values.{failed, to_bytes, is_int, nonzero_at, to_int}

is_data-first : (b : ℕ) (t : Bytes) → is_data (b ∷ t) ≡ ltb b 0xc0
unfolding is_data
is_data-first b t = rw (is_null-cons b t)

pub is_list-data : (d : Bytes) → is_data d ≡ true → is_list d ≡ false
unfolding is_list
is_list-data [] h = unfold is_null in refl
is_list-data (b ∷ t) h =
    let below : ltb b 0xc0 ≡ true = sym (is_data-first b t) ∙ h in
    rw (is_null-cons b t) (ground arith)

is_null-data : (d : Bytes) → is_data d ≡ true → is_null d ≡ false
unfolding is_data is_null
is_null-data [] h = ground arith
is_null-data (b ∷ t) h = is_null-cons b t

is_data-list : (d : Bytes) → is_list d ≡ true → is_data d ≡ false
unfolding is_list
is_data-list [] h = unfold is_data is_null in refl
is_data-list (b ∷ t) h =
    let known : leb 0xc0 b ≡ true =
      subst (λ (c : Bool). (not c && leb 0xc0 b) ≡ true) (is_null-cons b t) h in
    rw (is_data-first b t) (ground arith)

is_data-head : (n : ℕ) (rest : Bytes) → n < 2 ^ 64 → is_data (head 0x80 n ++ rest) ≡ true
unfolding head
is_data-head n rest small = elim (Bool-cases (ltb n 56)) [
  | inl short ↦ rw (short, is_data-first (0x80 + n) rest) (ground arith)
  | inr long ↦
      let few = few_bytes n (ground arith) small in
      rw
        (
          long,
          is_data-first (0x80 + 55 + bytes_required n) (to_big_endian (bytes_required n) n ++ rest),
        )
        (ground arith)
]

pub is_data-str : (s rest : Bytes) → length s < 2 ^ 64 → is_data (encode (str s) ++ rest) ≡ true
unfolding encode encode_str
is_data-str [] rest small = is_data-head 0 rest (omega arith)
is_data-str (b ∷ []) rest small = elim (Bool-cases (ltb b 0x80)) [
  | inl own ↦ rw (own, is_data-first b rest) (ground arith)
  | inr other ↦
      rw (other, append_assoc (head 0x80 1) (b ∷ []) rest) (is_data-head 1 (b ∷ rest) (omega arith))
]
is_data-str (b ∷ (c ∷ s)) rest small =
    let body = b ∷ (c ∷ s) in
    rw (append_assoc (head 0x80 (length body)) body rest)
      (is_data-head (length body) (body ++ rest) small)

-- The string that was coded is read, with whatever flags, and whatever stands behind it; from a
-- list's coding nothing is read, or the call throws if the flags say so.
pub to_bytes-encode :
    (x : Item) (rest : Bytes) (flags : Strictness)
    → length (encode x) < 2 ^ 64 - 1 - 0x100
    → to_bytes (encode x ++ rest) flags ≡ elim x [ str s ↦ ok s | lst xs ↦ failed flags [] ]
unfolding to_bytes
to_bytes-encode (str s) rest flags small =
    let reads = encode-Reads (str s) rest small in
    let size : length s < 2 ^ 64 = unfold content in omega (arith, small, length-content (str s)) in
    rw (is_data-str s rest size, reads.payload_of, reads.payload_length_of)
      (unfold content in ap (λ (t : Bytes). ok t) (take_all (length s) s (omega arith)))
to_bytes-encode (lst xs) rest flags small = rw (is_data-list _ (is_list-encode xs rest))

-- A number's bytes have no leading zero.
unfoldable pub no_zero_first : Bytes → Bool
no_zero_first [] = true
no_zero_first (b ∷ s) = not (b == 0)

nonzero_at-append :
    (front : Bytes) (b : ℕ) (t : Bytes) (n : ℕ)
    → n ≡ length front
    → nonzero_at (front ++ (b ∷ t)) n ≡ ok (not (b == 0))
unfolding nonzero_at
nonzero_at-append front b t n e =
    let within : leb (length (front ++ (b ∷ t))) (length front) ≡ false =
      ground (arith, length-append front (b ∷ t)) in
    rw (e, within, get_or-length front b t 0)

is_int-short :
    (f : ℕ) (t : Bytes)
    → require_good (f ∷ t) ≡ ok tt
    → 0x80 < f
    → f ≤ 0xb7
    → is_int (f ∷ t) ≡ nonzero_at (f ∷ t) 1
unfolding is_int
is_int-short f t good low high =
    let a : ltb f 0x80 ≡ false = ground arith in
    let b : (f == 0x80) ≡ false = ground arith in
    let c : leb f 0xb7 ≡ true = ground arith in rw (is_null-cons f t, good, a, b, c)

is_int-long :
    (f k : ℕ) (t : Bytes)
    → require_good (f ∷ t) ≡ ok tt
    → f ≡ 0xb7 + k
    → 0 < k
    → k ≤ 8
    → is_int (f ∷ t) ≡ nonzero_at (f ∷ t) (suc k)
unfolding is_int
is_int-long f k t good e pos le =
    let a : ltb f 0x80 ≡ false = ground arith in
    let b : (f == 0x80) ≡ false = ground arith in
    let c : leb f 0xb7 ≡ false = ground arith in
    let d : ltb f 0xc0 ≡ true = ground arith in
    let behind : 1 + f - 0xb7 ≡ suc k = omega arith in
    rw (is_null-cons f t, good, a, b, c, d, behind)

is_int-head :
    (n b : ℕ) (t : Bytes)
    → 0 < n
    → n < 2 ^ 64
    → require_good (head 0x80 n ++ (b ∷ t)) ≡ ok tt
    → is_int (head 0x80 n ++ (b ∷ t)) ≡ ok (not (b == 0))
unfolding head
is_int-head n b t pos small = elim (Bool-cases (ltb n 56)) [
  | inl short ↦ rw short (λ good.
      is_int-short (0x80 + n) (b ∷ t) good (omega arith) (ground arith)
      ∙ nonzero_at-append ((0x80 + n) ∷ []) b t 1 refl)
  | inr long ↦
      let br = bytes_required n in
      let few = few_bytes n (ground arith) small in
      rw long (λ good.
        is_int-long (0x80 + 55 + br) br _ good (omega arith) few.0 few.1
        ∙ nonzero_at-append ((0x80 + 55 + br) ∷ to_big_endian br n) b t (suc br)
            (ap suc (sym (length-to_big_endian br n))))
]

is_int-own : (b : ℕ) (t : Bytes) → b < 0x80 → is_int (b ∷ t) ≡ ok (not (b == 0))
unfolding is_int require_good
is_int-own b t h =
    let a : ltb b 0x80 ≡ true = ground arith in
    let c : (b == 0x81) ≡ false = ground arith in rw (is_null-cons b t, a, c)

-- A string's coding is an integer's exactly if the string has no leading zero.
is_int-str :
    (s rest : Bytes)
    → length (encode (str s)) < 2 ^ 64 - 1 - 0x100
    → is_int (encode (str s) ++ rest) ≡ ok (no_zero_first s)
unfolding encode encode_str no_zero_first
is_int-str [] rest small = unfold head is_int require_good in rw (is_null-cons 0x80 rest)
is_int-str (b ∷ []) rest small = elim (Bool-cases (ltb b 0x80)) [
  | inl own ↦ rw own (is_int-own b rest (ground arith))
  | inr other ↦
      let good : require_good (head 0x80 1 ++ (b ∷ rest)) ≡ ok tt =
        unfold head in require_good-byte b rest (ground arith) in
      rw (other, append_assoc (head 0x80 1) (b ∷ []) rest)
        (is_int-head 1 b rest (omega arith) (omega arith) good)
]
is_int-str (b ∷ (c ∷ s)) rest small =
    let body = b ∷ (c ∷ s) in
    let size : length body < 2 ^ 64 =
      unfold content in omega (arith, small, length-content (str body)) in
    let shape = append_assoc (head 0x80 (length body)) body rest in
    let good : require_good (head 0x80 (length body) ++ (body ++ rest)) ≡ ok tt =
      subst (λ (d : Bytes). require_good d ≡ ok tt) shape
        (encode-Reads (str body) rest small).good_of in
    rw shape (is_int-head (length body) b (c ∷ (s ++ rest)) (omega arith) size good)

-- What `toInt` makes of a string's coding, into a type of `w` bits and `max_size` bytes: the number of
-- its big-endian bytes, if they have no leading zero and are not too many for the type; otherwise it
-- throws.
pub to_int-encode :
    (w max_size : ℕ) (s rest : Bytes)
    → length (encode (str s)) < 2 ^ 64 - 1 - 0x100
    → to_int w max_size (encode (str s) ++ rest) strict ≡ (
        if no_zero_first s && leb (length s) max_size
        then ok (from_big_endian w s)
        else throw bad_cast)
unfolding to_int failed has
to_int-encode w max_size s rest small =
    let reads = encode-Reads (str s) rest small in
    let bytes : payload (encode (str s) ++ rest) ≡ ok s = unfold content in reads.payload_of in
    let size : length s < 2 ^ 64 = unfold content in omega (arith, small, length-content (str s)) in
    let data' = is_data-str s rest size in
    rw (reads.good_of, is_int-str s rest small, is_list-data _ data', bytes, is_null-data _ data')
      (elim (Bool-cases (no_zero_first s)) [
        | inl fine ↦ elim (Bool-cases (leb (length s) max_size)) [
          | inl fits ↦
              let within : ltb max_size (length s) ≡ false = ground arith in rw (fine, fits, within)
          | inr over ↦
              let above : ltb max_size (length s) ≡ true = ground arith in rw (fine, over, above)
        ]
        | inr zero_first ↦ rw zero_first
      ])

-- ===== src/Rlp/Reader/Sizes.antt =====
-- The sizes and the payload that the reader finds in a canonical coding with anything behind it.
use cpp_conflux_sdk.Common.{
  ℕ, suc, ◌+◌, ◌-◌, ◌^◌, ◌≤◌, ◌<◌, ◌≡◌, ◌⊎◌, refl, ap, subst, true, false, Bool-cases, inl, inr, [],
  ◌∷◌, ◌++◌, append_assoc, append-nil, arith, Bytes, length, length-append, take-append_length,
  drop-append_length, if◌then◌else◌, ltb, leb, ◌==◌, ◌||◌,
}
use cpp_conflux_sdk.Common.Outcome.{ok, throw, oversize_rlp}
use cpp_conflux_sdk.Rlp.Item.{Item, str, lst, head, encode_str, encode, encode_items, content}
use cpp_conflux_sdk.Rlp.Reader.{
  cropped, payload_length, require_good, good_length, payload_offset, is_null, is_single_byte,
  is_data, is_list, actual_size, construct, refuse_too_big, refuse_too_small, has, size_as_encoded,
  payload, very_strict,
}
use cpp_conflux_sdk.Rlp.Reader.Heads.{good_length-head, payload_offset-head}

pub cropped_middle :
    (front body rest : Bytes)
    → cropped (front ++ (body ++ rest)) (length front) (length body) ≡ body
unfolding cropped
cropped_middle front body rest =
    let whole = length-append front (body ++ rest) in
    let tail = length-append body rest in
    let a : leb (length front) (length (front ++ (body ++ rest))) ≡ true = ground (arith, whole) in
    let b : leb (length body) (length (front ++ (body ++ rest))) ≡ true =
      ground (arith, whole, tail) in
    let c : leb (length front + length body) (length (front ++ (body ++ rest))) ≡ true =
      ground (arith, whole, tail) in
    rw (a, b, c, drop-append_length (length front) front (body ++ rest) refl)
      (take-append_length (length body) body rest refl)

-- The node is good and as long as `total`, its payload is `body`, and there is no less than that.
pub record Reads (d body : Bytes) (total : ℕ) : Type 0 where
  pub good_of : require_good d ≡ ok tt
  pub payload_length_of : payload_length d ≡ ok (length body)
  pub payload_of : payload d ≡ ok body
  pub actual_size_of : actual_size d ≡ ok total
  pub enough : total ≤ length d

pub is_null-cons : (b : ℕ) (t : Bytes) → is_null (b ∷ t) ≡ false
unfolding is_null
is_null-cons b t = ground arith

is_null-head : (start n : ℕ) (rest : Bytes) → is_null (head start n ++ rest) ≡ false
unfolding head is_null
is_null-head start n rest = elim (Bool-cases (ltb n 56)) [
  | inl short ↦ rw short (ground arith)
  | inr long ↦ rw long (ground arith)
]

is_single_byte-head :
    (start n : ℕ) (rest : Bytes) → 0x80 ≤ start → is_single_byte (head start n ++ rest) ≡ false
unfolding head is_null is_single_byte
is_single_byte-head start n rest h = elim (Bool-cases (ltb n 56)) [
  | inl short ↦ rw short (ground arith)
  | inr long ↦ rw long (ground arith)
]

data_or_list : (d : Bytes) → is_null d ≡ false → (is_data d || is_list d) ≡ true
unfolding is_data is_list
data_or_list d h = rw h (ground arith)

payload_length-framed :
    (start : ℕ) (body rest : Bytes)
    → (start ≡ 0x80) ⊎ (start ≡ 0xc0)
    → length body < 2 ^ 64 - 1 - 0x100
    → require_good (head start (length body) ++ rest) ≡ ok tt
    → payload_length (head start (length body) ++ rest) ≡ ok (length body)
unfolding payload_length
payload_length-framed start body rest kind small good =
    rw (is_null-head start (length body) rest, good)
      (good_length-head start (length body) rest kind small)

framed-Reads :
    (start : ℕ) (body rest : Bytes)
    → (start ≡ 0x80) ⊎ (start ≡ 0xc0)
    → length body < 2 ^ 64 - 1 - 0x100
    → require_good (head start (length body) ++ (body ++ rest)) ≡ ok tt
    → Reads
        (head start (length body) ++ (body ++ rest))
        body
        (length (head start (length body)) + length body)
unfolding payload actual_size
framed-Reads start body rest kind small good =
    let front = head start (length body) in
    let tail = body ++ rest in
    let len = payload_length-framed start body tail kind small good in
    let off = payload_offset-head start (length body) tail kind (omega arith) in
    let sum = length-append front tail in
    let sum' = length-append body rest in
    let known = is_null-head start (length body) tail in
    let more = is_single_byte-head start (length body) tail (ground arith) in
    let within : ltb (length (front ++ tail)) (length body) ≡ false = ground (arith, sum, sum') in
    record {
      good_of = good;
      payload_length_of = len;
      payload_of =
          rw (len, off, within) (ap (λ (t : Bytes). ok t) (cropped_middle front body rest));
      actual_size_of = rw (known, more, data_or_list (front ++ tail) known, len, off);
      enough = omega (arith, sum, sum');
    }

-- A byte that is its own coding.
own-Reads : (b : ℕ) (rest : Bytes) → b < 0x80 → Reads (b ∷ rest) (b ∷ []) 1
unfolding payload actual_size payload_length require_good good_length is_single_byte payload_offset
    cropped
own-Reads b rest h =
    let own : ltb b 0x80 ≡ true = ground arith in
    let other : (b == 0x81) ≡ false = ground arith in
    let some = is_null-cons b rest in
    let within : ltb (suc (length rest)) 1 ≡ false = ground arith in
    let front : leb 0 (suc (length rest)) ≡ true = ground arith in
    let within' : leb 1 (suc (length rest)) ≡ true = ground arith in
    record {
      good_of = rw (some, other);
      payload_length_of = rw (some, own, other);
      payload_of = rw (some, own, other, within, within', front);
      actual_size_of = rw (some, own);
      enough = omega arith;
    }

require_good-other : (b : ℕ) (t : Bytes) → (b == 0x81) ≡ false → require_good (b ∷ t) ≡ ok tt
unfolding require_good
require_good-other b t h = rw (is_null-cons b t, h)

pub require_good-byte : (b : ℕ) (t : Bytes) → 0x80 ≤ b → require_good (0x81 ∷ (b ∷ t)) ≡ ok tt
unfolding require_good is_null
require_good-byte b t h = ground arith

require_good-head :
    (start n : ℕ) (rest : Bytes)
    → 0x80 ≤ start
    → (start + n == 0x81) ≡ false
    → require_good (head start n ++ rest) ≡ ok tt
unfolding head
require_good-head start n rest h other = elim (Bool-cases (ltb n 56)) [
  | inl short ↦ rw short (require_good-other (start + n) rest other)
  | inr long ↦ rw long (require_good-other _ _ (ground arith))
]

-- The sizes and the payload of an item's coding, whatever stands behind it.
pub encode-Reads :
    (x : Item) (rest : Bytes)
    → length (encode x) < 2 ^ 64 - 1 - 0x100
    → Reads (encode x ++ rest) (content x) (length (encode x))
unfolding encode encode_str content head
encode-Reads (str []) rest small =
    framed-Reads 0x80 [] rest (inl refl) (omega arith)
      (require_good-head 0x80 0 rest (omega arith) refl)
encode-Reads (str (b ∷ [])) rest small = elim (Bool-cases (ltb b 0x80)) [
  | inl own ↦ rw own (own-Reads b rest (ground arith))
  | inr other ↦ rw other (
      framed-Reads 0x80 (b ∷ []) rest (inl refl) (omega arith)
        (require_good-byte b rest (ground arith)))
]
encode-Reads (str (b ∷ (c ∷ s))) rest small =
    let body = b ∷ (c ∷ s) in
    let front = head 0x80 (length body) in
    let sum = length-append front body in
    let fine : Reads (front ++ (body ++ rest)) body (length front + length body) =
      framed-Reads 0x80 body rest (inl refl) (omega (arith, sum, small))
        (require_good-head 0x80 (length body) (body ++ rest) (omega arith) (ground arith)) in
    rw (append_assoc front body rest, sum) fine
encode-Reads (lst items) rest small =
    let body = encode_items items in
    let front = head 0xc0 (length body) in
    let sum = length-append front body in
    let fine : Reads (front ++ (body ++ rest)) body (length front + length body) =
      framed-Reads 0xc0 body rest (inr refl) (omega (arith, sum, small))
        (require_good-head 0xc0 (length body) (body ++ rest) (omega arith) (ground arith)) in
    rw (append_assoc front body rest, sum) fine

-- The size that is read from the front of some data is the size of the item there, and nothing behind
-- the item changes it.
pub size_as_encoded-encode :
    (x : Item) (rest : Bytes)
    → length (encode x) < 2 ^ 64 - 1 - 0x100
    → size_as_encoded (encode x ++ rest) ≡ ok (length (encode x))
unfolding size_as_encoded construct refuse_too_big refuse_too_small has
size_as_encoded-encode x rest small =
    let reads = encode-Reads x rest small in
    let fits : ltb (length (encode x ++ rest)) (length (encode x)) ≡ false =
      ground (arith, reads.enough) in
    rw (reads.actual_size_of, fits) reads.actual_size_of

-- The payload of an item's coding: the bytes of a string, the codings of a list's items.
pub payload-encode :
    (x : Item) (rest : Bytes)
    → length (encode x) < 2 ^ 64 - 1 - 0x100
    → payload (encode x ++ rest) ≡ ok (content x)
payload-encode x rest small = (encode-Reads x rest small).payload_of

-- The strictest reading takes the coding of an item, if that has fewer than 2 ^ 64 - 257 bytes, and
-- throws OversizeRLP if anything follows it.
pub construct-encode :
    (x : Item) (rest : Bytes)
    → length (encode x) < 2 ^ 64 - 1 - 0x100
    → construct (encode x ++ rest) very_strict
      ≡ (if is_null rest then ok (encode x) else throw oversize_rlp)
unfolding construct refuse_too_big refuse_too_small has
construct-encode x [] small =
    let reads : Reads (encode x) (content x) (length (encode x)) =
      subst (λ (d : Bytes). Reads d (content x) (length (encode x))) (append-nil (encode x))
        (encode-Reads x [] small) in
    let same : ltb (length (encode x)) (length (encode x)) ≡ false = ground arith in
    rw (append-nil (encode x), reads.actual_size_of, same)
      (rw (reads.actual_size_of, same) (unfold is_null in refl))
construct-encode x (b ∷ rest) small =
    let reads = encode-Reads x (b ∷ rest) small in
    let more : ltb (length (encode x)) (length (encode x ++ (b ∷ rest))) ≡ true =
      ground (arith, length-append (encode x) (b ∷ rest)) in
    rw (reads.actual_size_of, more, is_null-cons b rest)

pub construct-encode_whole :
    (x : Item)
    → length (encode x) < 2 ^ 64 - 1 - 0x100
    → construct (encode x) very_strict ≡ ok (encode x)
unfolding is_null
construct-encode_whole x small =
    subst (λ d. construct d very_strict ≡ ok (encode x)) (append-nil (encode x))
      (construct-encode x [] small)

-- ===== src/Rlp/Item.antt =====
-- What RLP codes: trees of byte strings, and the canonical coding of a tree, independent of the code.
use cpp_conflux_sdk.Common.{
  ℕ, zero, suc, ◌+◌, [], ◌∷◌, ◌++◌, List, Bytes, length, length-append, ltb, Bool-cases, inl, inr,
  ◌≤◌, ◌<◌, arith, if◌then◌else◌,
}
use cpp_conflux_sdk.CommonData.Endian.{bytes_required, to_big_endian}

mutual
  pub data Item : Type 0 where
    str : Bytes → Item
    lst : Items → Item

  pub data Items : Type 0 where
    nil : Items
    cons : Item → Items → Items

-- The head in front of `size` bytes: the size in the first byte, or behind the first byte.
unfoldable pub head : ℕ → ℕ → Bytes
head start size =
    if ltb size 56
    then (start + size) ∷ []
    else (start + 55 + bytes_required size) ∷ to_big_endian (bytes_required size) size

-- A byte below 0x80 is its own coding.
unfoldable pub encode_str : Bytes → Bytes
encode_str [] = head 0x80 0
encode_str (b ∷ []) = if ltb b 0x80 then b ∷ [] else head 0x80 1 ++ (b ∷ [])
encode_str (b ∷ (c ∷ s)) = head 0x80 (length (b ∷ (c ∷ s))) ++ (b ∷ (c ∷ s))

unfoldable mutual
  pub encode : Item → Bytes
  encode (str s) = encode_str s
  encode (lst items) = head 0xc0 (length (encode_items items)) ++ encode_items items

  pub encode_items : Items → Bytes
  encode_items nil = []
  encode_items (cons x items) = encode x ++ encode_items items

-- What stands behind the head of an item.
unfoldable pub content : Item → Bytes
content (str s) = s
content (lst items) = encode_items items

unfoldable pub count : Items → ℕ
count nil = 0
count (cons x items) = suc (count items)

-- The codings of the items, in order; what is left of the items behind the first `j`; the coding of
-- the first one and of the one at `j`, which are empty if there is none; the bytes of the first `j`.
unfoldable pub codings : Items → List Bytes
codings nil = []
codings (cons x items) = encode x ∷ codings items

unfoldable pub skip : Items → ℕ → Items
skip items zero = items
skip nil (suc j) = nil
skip (cons x items) (suc j) = skip items j

unfoldable pub first : Items → Bytes
first nil = []
first (cons x items) = encode x

unfoldable pub nth : Items → ℕ → Bytes
nth items j = first (skip items j)

unfoldable pub before : Items → ℕ → ℕ
before items zero = 0
before nil (suc j) = 0
before (cons x items) (suc j) = length (encode x) + before items j

length-head : (start size : ℕ) → 0 < length (head start size)
unfolding head
length-head start size = elim (Bool-cases (ltb size 56)) [
  | inl short ↦ rw short (omega arith)
  | inr long ↦ rw long (omega arith)
]

-- No coding is empty.
pub encode-some : (x : Item) → 0 < length (encode x)
unfolding encode encode_str
encode-some (str []) = length-head 0x80 0
encode-some (str (b ∷ [])) = elim (Bool-cases (ltb b 0x80)) [
  | inl own ↦ rw own (omega arith)
  | inr other ↦ rw other (omega (arith, length-append (head 0x80 1) (b ∷ [])))
]
encode-some (str (b ∷ (c ∷ s))) =
    omega (arith, length-append (head 0x80 (length (b ∷ (c ∷ s)))) (b ∷ (c ∷ s)))
encode-some (lst items) =
    let front = head 0xc0 (length (encode_items items)) in
    omega (
      arith,
      length-append front (encode_items items),
      length-head 0xc0 (length (encode_items items)),
    )

pub length-content : (x : Item) → length (content x) ≤ length (encode x)
unfolding content encode encode_str
length-content (str []) = omega arith
length-content (str (b ∷ [])) = elim (Bool-cases (ltb b 0x80)) [
  | inl own ↦ rw own (omega arith)
  | inr other ↦ rw other (omega (arith, length-append (head 0x80 1) (b ∷ [])))
]
length-content (str (b ∷ (c ∷ s))) =
    omega (arith, length-append (head 0x80 (length (b ∷ (c ∷ s)))) (b ∷ (c ∷ s)))
length-content (lst items) =
    omega (arith, length-append (head 0xc0 (length (encode_items items))) (encode_items items))

-- ===== src/Rlp/Reader/Items/Walk.antt =====
-- The items of a list's coding are counted, and visited one after the other.
use cpp_conflux_sdk.Common.{
  ℕ, zero, suc, ◌+◌, ◌-◌, ◌^◌, min, ◌≤◌, ◌<◌, ◌≡◌, refl, sym, ap, ◌∙◌, subst, true, false,
  Bool-cases, inl, inr, [], ◌∷◌, ◌++◌, append_assoc, append-nil, arith, Bytes, length, take,
  take_all, drop, length-append, take-append_length, drop-append_length, ltb, leb, ◌==◌,
}
use cpp_conflux_sdk.Common.Outcome.{ok, ◌>>=◌}
use cpp_conflux_sdk.Rlp.Item.{
  Item, Items, lst, nil, cons, head, encode, encode_items, content, count, codings, encode-some,
  length-content,
}
use cpp_conflux_sdk.Rlp.Reader.{
  refuse_too_big, refuse_too_small, has, actual_size, cropped, cropped_from, is_null, is_list,
  payload_offset, construct, size_as_encoded, payload, very_strict,
}
use cpp_conflux_sdk.Rlp.Reader.Heads.{payload_offset-head}
use cpp_conflux_sdk.Rlp.Reader.Sizes.{
  size_as_encoded-encode, payload-encode, construct-encode, is_null-cons, cropped_middle,
}
use cpp_conflux_sdk.Rlp.Reader.Items.{
  items_loop, items, item_count, current_item, begin, end_of, advance, same_place, visit, visited,
}

pub is_null-some : (d : Bytes) → 0 < length d → is_null d ≡ false
unfolding is_null
is_null-some d h = ground arith

pub cropped_from-append : (front rest : Bytes) → cropped_from (front ++ rest) (length front) ≡ rest
unfolding cropped_from
cropped_from-append front rest =
    let fits : leb (length front) (length (front ++ rest)) ≡ true =
      ground (arith, length-append front rest) in
    rw fits (drop-append_length (length front) front rest refl)

pub cropped-first : (front rest : Bytes) → cropped (front ++ rest) 0 (length front) ≡ front
cropped-first front rest = cropped_middle [] front rest

is_list-first : (b : ℕ) (t : Bytes) → 0xc0 ≤ b → is_list (b ∷ t) ≡ true
unfolding is_list
is_list-first b t h = rw (is_null-cons b t) (ground arith)

-- A list's coding is known as one.
pub is_list-encode : (xs : Items) (rest : Bytes) → is_list (encode (lst xs) ++ rest) ≡ true
unfolding encode head
is_list-encode xs rest = elim (Bool-cases (ltb (length (encode_items xs)) 56)) [
  | inl short ↦ rw short (is_list-first _ _ (omega arith))
  | inr long ↦ rw long (is_list-first _ _ (omega arith))
]

pub encode_items-small :
    (xs : Items) (n : ℕ) → length (encode (lst xs)) < n → length (encode_items xs) < n
unfolding content
encode_items-small xs n h = omega (arith, h, length-content (lst xs))

items_loop-encode :
    (xs : Items) (fuel : ℕ)
    → length (encode_items xs) ≤ fuel
    → length (encode_items xs) < 2 ^ 64 - 1 - 0x100
    → items_loop fuel (encode_items xs) ≡ ok (count xs)
unfolding items_loop encode_items count
items_loop-encode nil zero h small = refl
items_loop-encode nil (suc fuel) h small = unfold is_null in refl
items_loop-encode (cons x xs) zero h small =
    absurd (omega (arith, h, encode-some x, length-append (encode x) (encode_items xs)))
items_loop-encode (cons x xs) (suc fuel) h small =
    let sum = length-append (encode x) (encode_items xs) in
    let some = encode-some x in
    rw (
      is_null-some (encode x ++ encode_items xs) (omega (arith, sum, some)),
      size_as_encoded-encode x (encode_items xs) (omega (arith, sum, small)),
      cropped_from-append (encode x) (encode_items xs),
      items_loop-encode xs fuel (omega (arith, h, sum, some)) (omega (arith, sum, small)),
    )

-- `items` counts the items of a list, whatever stands behind its coding.
pub items-encode :
    (xs : Items) (rest : Bytes)
    → length (encode (lst xs)) < 2 ^ 64 - 1 - 0x100
    → items (encode (lst xs) ++ rest) ≡ ok (count xs)
unfolding items
items-encode xs rest small =
    rw (is_list-encode xs rest, payload-encode (lst xs) rest small)
      (unfold content in items_loop-encode xs _ (omega arith) (encode_items-small xs _ small))

pub item_count-encode :
    (xs : Items)
    → length (encode (lst xs)) < 2 ^ 64 - 1 - 0x100
    → item_count (encode (lst xs)) ≡ ok (count xs)
unfolding item_count
item_count-encode xs small =
    let whole = append-nil (encode (lst xs)) in
    let list : is_list (encode (lst xs)) ≡ true =
      subst (λ d. is_list d ≡ true) whole (is_list-encode xs []) in
    let counted : items (encode (lst xs)) ≡ ok (count xs) =
      subst (λ d. items d ≡ ok (count xs)) whole (items-encode xs [] small) in
    rw (list, counted)

-- The walk: `front` is behind, and the current item is the coding of `x`.
module _ (whole : Bytes) (h : length whole < 2 ^ 64 - 1 - 0x100) where
  visit-end :
      (fuel : ℕ) → visit fuel whole (record { at = length whole; size = 0; remaining = 0 }) ≡ ok []
  unfolding visit same_place end_of
  visit-end zero = refl
  visit-end (suc fuel) = ground arith

  not_end :
      (a s r : ℕ)
      → a < length whole
      → same_place (record { at = a; size = s; remaining = r }) (end_of whole) ≡ false
  unfolding same_place end_of
  not_end a s r below = ground arith

  advance_last :
      (a s : ℕ)
      → advance whole (record { at = a; size = s; remaining = 0 })
        ≡ ok (record { at = a + s; size = 0; remaining = 0 })
  unfolding advance
  advance_last a s = refl

  advance_next :
      (front : Bytes) (s : ℕ) (y : Item) (ys : Items)
      → whole ≡ front ++ encode_items (cons y ys)
      → (a : ℕ) → a + s ≡ length front
      → advance whole (record { at = a; size = s; remaining = length (encode_items (cons y ys)) })
        ≡ ok (record {
          at = length front;
          size = length (encode y);
          remaining = length (encode_items ys);
        })
  unfolding advance encode_items
  advance_next front s y ys e a place =
      let rem = length (encode y ++ encode_items ys) in
      let sum = length-append (encode y) (encode_items ys) in
      let total : length whole ≡ length front + rem =
        ap (λ (t : Bytes). length t) e ∙ length-append front _ in
      let some : (rem == 0) ≡ false = ground (arith, sum, encode-some y) in
      let view : take rem (drop (length front) whole) ≡ encode y ++ encode_items ys =
        rw (e, drop-append_length (length front) front (encode y ++ encode_items ys) refl)
          (take_all rem _ (omega arith)) in
      let left : rem - min rem (length (encode y)) ≡ length (encode_items ys) =
        omega (arith, sum) in
      rw (
        some,
        place,
        view,
        size_as_encoded-encode y (encode_items ys) (omega (arith, h, total, sum)),
        cropped-first (encode y) (encode_items ys),
        left,
      )

  -- The current item is given to the loop's body, and the walk goes on.
  visit-step :
      (x : Item) (behind front : Bytes) (fuel : ℕ)
      → whole ≡ front ++ (encode x ++ behind)
      → visit
          (suc fuel)
          whole
          (record { at = length front; size = length (encode x); remaining = length behind })
        ≡ (advance whole
              (record { at = length front; size = length (encode x); remaining = length behind })
            >>= λ it. visit fuel whole it >>= λ items. ok (encode x ∷ items))
  unfolding visit current_item
  visit-step x behind front fuel e =
      let total : length whole ≡ length front + length (encode x ++ behind) =
        ap (λ (t : Bytes). length t) e ∙ length-append front _ in
      let sum = length-append (encode x) behind in
      let more =
        not_end (length front) (length (encode x)) (length behind)
          (omega (arith, total, sum, encode-some x)) in
      let view : take (length (encode x)) (drop (length front) whole) ≡ encode x =
        rw (e, drop-append_length (length front) front (encode x ++ behind) refl)
          (take-append_length (length (encode x)) (encode x) behind refl) in
      let taken : construct (encode x) very_strict ≡ ok (encode x) =
        subst (λ (t : Bytes). construct t very_strict ≡ ok (encode x)) (append-nil (encode x))
          (unfold is_null in construct-encode x [] (omega (arith, h, total, sum))) in
      rw (more, view, taken)

  visit-codings :
      (x : Item) (xs : Items) (front : Bytes) (fuel : ℕ)
      → whole ≡ front ++ (encode x ++ encode_items xs)
      → count xs < fuel
      → visit fuel whole (record {
        at = length front;
        size = length (encode x);
        remaining = length (encode_items xs);
      })
        ≡ ok (encode x ∷ codings xs)
  unfolding count codings encode_items
  visit-codings x xs front zero e enough = absurd (omega arith)
  visit-codings x nil front (suc fuel) e enough =
      let over : length front + length (encode x) ≡ length whole = sym (
        ap (λ (t : Bytes). length t) e
        ∙ length-append front _
        ∙ ap (λ (t : Bytes). length front + length t) (append-nil (encode x))) in
      visit-step x [] front fuel e
      ∙ rw (advance_last (length front) (length (encode x)), over, visit-end fuel)
  visit-codings x (cons y ys) front (suc fuel) e enough =
      let e' : whole ≡ (front ++ encode x) ++ encode_items (cons y ys) =
        e ∙ sym (append_assoc front (encode x) (encode_items (cons y ys))) in
      let e'' : whole ≡ (front ++ encode x) ++ (encode y ++ encode_items ys) =
        unfold encode_items in e' in
      let place = sym (length-append front (encode x)) in
      visit-step x (encode_items (cons y ys)) front fuel e
      ∙ rw (
        advance_next (front ++ encode x) (length (encode x)) y ys e' (length front) place,
        visit-codings y ys (front ++ encode x) fuel e'' (omega arith),
      )

count-le : (xs : Items) → count xs ≤ length (encode_items xs)
unfolding count encode_items
count-le nil = omega arith
count-le (cons x xs) =
    omega (arith, count-le xs, encode-some x, length-append (encode x) (encode_items xs))

module _ (xs : Items) (small : length (encode (lst xs)) < 2 ^ 64 - 1 - 0x100) where
  is_list-lst : is_list (encode (lst xs)) ≡ true
  is_list-lst =
      subst (λ (d : Bytes). is_list d ≡ true) (append-nil (encode (lst xs))) (is_list-encode xs [])

  pub payload-lst : payload (encode (lst xs)) ≡ ok (encode_items xs)
  unfolding content
  payload-lst =
      subst (λ (d : Bytes). payload d ≡ ok (encode_items xs)) (append-nil (encode (lst xs)))
        (payload-encode (lst xs) [] small)

  payload_offset-lst :
      payload_offset (encode (lst xs)) ≡ length (head 0xc0 (length (encode_items xs)))
  unfolding encode
  payload_offset-lst =
      payload_offset-head 0xc0 (length (encode_items xs)) (encode_items xs) (inr refl)
        (omega (arith, encode_items-small xs _ small))

-- Going through a list's coding, the loop's body is given the codings of the items, each one checked,
-- in their order, and then the loop ends.
pub visited-encode :
    (xs : Items)
    → length (encode (lst xs)) < 2 ^ 64 - 1 - 0x100
    → visited (encode (lst xs)) ≡ ok (codings xs)
unfolding visited begin codings
visited-encode nil small =
    rw (is_list-lst nil small, payload-lst nil small, payload_offset-lst nil small)
      (unfold encode encode_items head size_as_encoded construct refuse_too_big refuse_too_small has
          actual_size is_null cropped visit same_place end_of in
        refl)
visited-encode (cons x xs) small =
    let tail = encode_items xs in
    let sum = length-append (encode x) tail in
    let within : length (encode x ++ tail) < 2 ^ 64 - 1 - 0x100 =
      unfold encode_items in encode_items-small (cons x xs) _ small in
    let fits : length (encode x) < 2 ^ 64 - 1 - 0x100 = omega (arith, sum, within) in
    let left : length (encode x ++ tail) - length (encode x) ≡ length tail = omega (arith, sum) in
    let front = head 0xc0 (length (encode_items (cons x xs))) in
    let d = encode (lst (cons x xs)) in
    let shape : d ≡ front ++ (encode x ++ tail) = unfold encode in refl in
    let size : count xs < length d = omega (
      arith,
      ap (λ (t : Bytes). length t) shape,
      length-append front (encode x ++ tail),
      sum,
      encode-some x,
      count-le xs,
    ) in
    let start : payload d ≡ ok (encode x ++ tail) =
      unfold encode_items in payload-lst (cons x xs) small in
    rw
      (
        is_list-lst (cons x xs) small,
        start,
        payload_offset-lst (cons x xs) small,
        size_as_encoded-encode x tail fits,
        cropped-first (encode x) tail,
        left,
      )
      (visit-codings d small x xs front (length d) shape size)

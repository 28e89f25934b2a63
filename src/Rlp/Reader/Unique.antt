-- ===== src/Rlp/Reader/Unique.antt =====
-- What the reader finds determines the item: two codings never agree.
use cpp_conflux_sdk.Common.{
  ◌-◌, ◌^◌, ◌<◌, ◌≡◌, ◌≢◌, refl, sym, ap, ap₂, ◌∙◌, [], ◌++◌, append_parts, arith, Bytes, length,
  length-append,
}
use cpp_conflux_sdk.Common.Outcome.{ok}
use cpp_conflux_sdk.Rlp.Item.{
  Item, Items, str, lst, nil, cons, encode, encode_items, content, encode-some, length-content,
}
use cpp_conflux_sdk.Rlp.Stream.{rlp}
use cpp_conflux_sdk.Rlp.Stream.Refines.{rlp-encode}
use cpp_conflux_sdk.Rlp.Reader.{is_list, size_as_encoded, payload}
use cpp_conflux_sdk.Rlp.Reader.Sizes.{size_as_encoded-encode, payload-encode}
use cpp_conflux_sdk.Rlp.Reader.Items.Walk.{is_list-encode, encode_items-small}
use cpp_conflux_sdk.Rlp.Reader.Values.Strings.{is_data-str, is_list-data}

pub ok_eq : {A : Type 0} (a b : A) → ok a ≡ ok b → a ≡ b
ok_eq a b e = cc

same_size :
    (x y : Item) (r s : Bytes)
    → length (encode x) < 2 ^ 64 - 1 - 0x100
    → length (encode y) < 2 ^ 64 - 1 - 0x100
    → encode x ++ r ≡ encode y ++ s
    → length (encode x) ≡ length (encode y)
same_size x y r s hx hy e =
    ok_eq _ _
      (sym (size_as_encoded-encode x r hx) ∙ ap size_as_encoded e ∙ size_as_encoded-encode y s hy)

same_content :
    (x y : Item) (r s : Bytes)
    → length (encode x) < 2 ^ 64 - 1 - 0x100
    → length (encode y) < 2 ^ 64 - 1 - 0x100
    → encode x ++ r ≡ encode y ++ s
    → content x ≡ content y
same_content x y r s hx hy e =
    ok_eq _ _ (sym (payload-encode x r hx) ∙ ap payload e ∙ payload-encode y s hy)

str_or_lst :
    (t : Bytes) (xs : Items) (r s : Bytes)
    → length t < 2 ^ 64
    → encode (str t) ++ r ≢ encode (lst xs) ++ s
str_or_lst t xs r s small e =
    let is = ap is_list e ∙ is_list-encode xs s in
    let not' = is_list-data (encode (str t) ++ r) (is_data-str t r small) in cc

mutual
  unfolding content encode_items

  encode_eq :
      (x y : Item) (r s : Bytes)
      → length (encode x) < 2 ^ 64 - 1 - 0x100
      → length (encode y) < 2 ^ 64 - 1 - 0x100
      → encode x ++ r ≡ encode y ++ s
      → x ≡ y
  encode_eq (str a) (str b) r s hx hy e = ap str (same_content (str a) (str b) r s hx hy e)
  encode_eq (str a) (lst ys) r s hx hy e =
      absurd (str_or_lst a ys r s (omega (arith, hx, length-content (str a))) e)
  encode_eq (lst xs) (str b) r s hx hy e =
      absurd (str_or_lst b xs s r (omega (arith, hy, length-content (str b))) (sym e))
  encode_eq (lst xs) (lst ys) r s hx hy e = ap lst (
      encode_items_eq xs ys (encode_items-small xs _ hx) (encode_items-small ys _ hy)
        (same_content (lst xs) (lst ys) r s hx hy e))

  encode_items_eq :
      (xs ys : Items)
      → length (encode_items xs) < 2 ^ 64 - 1 - 0x100
      → length (encode_items ys) < 2 ^ 64 - 1 - 0x100
      → encode_items xs ≡ encode_items ys
      → xs ≡ ys
  encode_items_eq nil nil hx hy e = refl
  encode_items_eq nil (cons y ys) hx hy e = absurd (
      omega (
        arith,
        ap (λ (d : Bytes). length d) e,
        encode-some y,
        length-append (encode y) (encode_items ys),
      ))
  encode_items_eq (cons x xs) nil hx hy e = absurd (
      omega (
        arith,
        ap (λ (d : Bytes). length d) e,
        encode-some x,
        length-append (encode x) (encode_items xs),
      ))
  encode_items_eq (cons x xs) (cons y ys) hx hy e =
      let sx = length-append (encode x) (encode_items xs) in
      let sy = length-append (encode y) (encode_items ys) in
      let ax : length (encode x) < 2 ^ 64 - 1 - 0x100 = omega (arith, hx, sx) in
      let ay : length (encode y) < 2 ^ 64 - 1 - 0x100 = omega (arith, hy, sy) in
      let size = same_size x y (encode_items xs) (encode_items ys) ax ay e in
      let parts = append_parts (encode x) (encode y) (encode_items xs) (encode_items ys) size e in
      ap₂ cons (encode_eq x y (encode_items xs) (encode_items ys) ax ay e)
        (encode_items_eq xs ys (omega (arith, hx, sx)) (omega (arith, hy, sy)) parts.1)

-- Two data of which one begins with the coding of `x` and the other with the coding of `y` are equal
-- only if the items are, and what stands behind them.
pub encode_prefix_free :
    (x y : Item) (r s : Bytes)
    → length (encode x) < 2 ^ 64 - 1 - 0x100
    → length (encode y) < 2 ^ 64 - 1 - 0x100
    → encode x ++ r ≡ encode y ++ s
    → (x ≡ y) × (r ≡ s)
encode_prefix_free x y r s hx hy e = (
  encode_eq x y r s hx hy e,
  (append_parts (encode x) (encode y) r s (same_size x y r s hx hy e) e).1,
)

-- Different items are written as different bytes, if they have no more than 2 ^ 64 - 258 of them.
pub rlp_injective :
    (x y : Item)
    → length (encode x) < 2 ^ 64 - 1 - 0x100
    → length (encode y) < 2 ^ 64 - 1 - 0x100
    → rlp x ≡ rlp y
    → x ≡ y
rlp_injective x y hx hy e =
    let same : encode x ≡ encode y =
      ok_eq _ _ (sym (rlp-encode x (omega (arith, hx))) ∙ e ∙ rlp-encode y (omega (arith, hy))) in
    (encode_prefix_free x y [] [] hx hy (ap (λ (d : Bytes). d ++ []) same)).0

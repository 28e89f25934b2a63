-- ===== src/Rlp/Reader/Index/History.antt =====
-- Whatever was asked for before, `operator[]` finds the item at the index.
use cpp_conflux_sdk.Common.{
  ℕ, zero, suc, ◌+◌, ◌-◌, ◌^◌, min, ◌≤◌, ◌<◌, ◌≡◌, ◌⊎◌, refl, sym, ap, ◌∙◌, subst, true, false,
  Bool-cases, inl, inr, List, All, map, [], ◌∷◌, ◌++◌, append-nil, arith, Bytes, bit_or, length,
  drop, length-append, ltb, leb,
}
use cpp_conflux_sdk.Common.Outcome.{Outcome, ok, ◌>>=◌}
use cpp_conflux_sdk.Rlp.Item.{
  Items, lst, nil, cons, encode, encode_items, count, skip, first, nth, before, encode-some,
}
use cpp_conflux_sdk.Rlp.Reader.{
  throw_on_fail, fail_if_too_small, refuse_too_big, refuse_too_small, has, actual_size, cropped,
  cropped_from, is_null, construct, size_as_encoded,
}
use cpp_conflux_sdk.Rlp.Reader.Sizes.{size_as_encoded-encode, encode-Reads}
use cpp_conflux_sdk.Rlp.Reader.Items.Walk.{
  payload-lst, encode_items-small, is_null-some, cropped-first,
}
use cpp_conflux_sdk.Rlp.Reader.Index.{Cache, no_access, rewind, next_item, index_loop, at_index}

-- The cache that stands at index `j`.
pub cache_at : Items → ℕ → Cache
cache_at xs j = record { last_index = j; last_end = before xs (suc j); last_item = nth xs j }

size_as_encoded-first :
    (ys : Items)
    → length (encode_items ys) < 2 ^ 64 - 1 - 0x100
    → size_as_encoded (encode_items ys) ≡ ok (length (first ys))
unfolding encode_items first
size_as_encoded-first nil h =
    unfold size_as_encoded construct refuse_too_big refuse_too_small has actual_size is_null in refl
size_as_encoded-first (cons y ys) h =
    size_as_encoded-encode y (encode_items ys)
      (omega (arith, h, length-append (encode y) (encode_items ys)))

cropped-first_item : (ys : Items) → cropped (encode_items ys) 0 (length (first ys)) ≡ first ys
unfolding encode_items first
cropped-first_item nil = unfold cropped in refl
cropped-first_item (cons y ys) = cropped-first (encode y) (encode_items ys)

construct-first :
    (ys : Items)
    → length (encode_items ys) < 2 ^ 64 - 1 - 0x100
    → construct (first ys) (bit_or throw_on_fail fail_if_too_small) ≡ ok (first ys)
unfolding construct refuse_too_big refuse_too_small has first
construct-first nil h = unfold actual_size is_null in refl
construct-first (cons y ys) h =
    let small : length (encode y) < 2 ^ 64 - 1 - 0x100 =
      unfold encode_items in omega (arith, h, length-append (encode y) (encode_items ys)) in
    let size : actual_size (encode y) ≡ ok (length (encode y)) =
      subst (λ (d : Bytes). actual_size d ≡ ok (length (encode y))) (append-nil (encode y))
        (encode-Reads y [] small).actual_size_of in
    let same : ltb (length (encode y)) (length (encode y)) ≡ false = ground arith in rw (size, same)

-- Behind the first `j` items stand the others.
drop_behind :
    (front rest : Bytes) (n k : ℕ) → n ≡ length front + k → drop n (front ++ rest) ≡ drop k rest
drop_behind [] rest n k e = ap (λ (m : ℕ). drop m rest) (omega arith)
drop_behind (b ∷ front) rest zero k e = absurd (omega arith)
drop_behind (b ∷ front) rest (suc n) k e = drop_behind front rest n k (omega arith)

before-le : (xs : Items) (j : ℕ) → before xs j ≤ length (encode_items xs)
unfolding before encode_items
before-le xs zero = omega arith
before-le nil (suc j) = omega arith
before-le (cons x xs) (suc j) =
    omega (arith, before-le xs j, length-append (encode x) (encode_items xs))

drop-before : (xs : Items) (j : ℕ) → drop (before xs j) (encode_items xs) ≡ encode_items (skip xs j)
unfolding before skip encode_items
drop-before xs zero = refl
drop-before nil (suc j) = refl
drop-before (cons x xs) (suc j) =
    drop_behind (encode x) (encode_items xs) _ (before xs j) refl ∙ drop-before xs j

cropped_from-before :
    (xs : Items) (j : ℕ) → cropped_from (encode_items xs) (before xs j) ≡ encode_items (skip xs j)
unfolding cropped_from
cropped_from-before xs j =
    let fits : leb (before xs j) (length (encode_items xs)) ≡ true =
      ground (arith, before-le xs j) in
    rw fits (drop-before xs j)

before-suc : (xs : Items) (j : ℕ) → before xs (suc j) ≡ before xs j + length (nth xs j)
unfolding before nth skip first
before-suc nil zero = omega arith
before-suc nil (suc j) = omega arith
before-suc (cons x xs) zero = omega arith
before-suc (cons x xs) (suc j) = omega (arith, before-suc xs j)

nth_some : (xs : Items) (j : ℕ) → j < count xs → 0 < length (nth xs j)
unfolding nth skip first count
nth_some nil j h = absurd (omega arith)
nth_some (cons x xs) zero h = encode-some x
nth_some (cons x xs) (suc j) h = nth_some xs j (omega arith)

nth_none : (xs : Items) (j : ℕ) → count xs ≤ j → nth xs j ≡ []
unfolding nth skip first count
nth_none nil zero h = refl
nth_none nil (suc j) h = refl
nth_none (cons x xs) zero h = absurd (omega arith)
nth_none (cons x xs) (suc j) h = nth_none xs j (omega arith)

skip-le : (xs : Items) (j : ℕ) → length (encode_items (skip xs j)) ≤ length (encode_items xs)
unfolding skip encode_items
skip-le xs zero = omega arith
skip-le nil (suc j) = omega arith
skip-le (cons x xs) (suc j) =
    omega (arith, skip-le xs j, length-append (encode x) (encode_items xs))

module _ (xs : Items) (small : length (encode (lst xs)) < 2 ^ 64 - 1 - 0x100) where
  rest_small : (j : ℕ) → length (encode_items (skip xs j)) < 2 ^ 64 - 1 - 0x100
  rest_small j = omega (arith, skip-le xs j, encode_items-small xs _ small)

  next_item-cache_at :
      (j : ℕ) → next_item (encode (lst xs)) (cache_at xs j) ≡ ok (cache_at xs (suc j))
  unfolding next_item cache_at
  next_item-cache_at j =
      rw
        (
          payload-lst xs small,
          cropped_from-before xs (suc j),
          size_as_encoded-first (skip xs (suc j)) (rest_small (suc j)),
          cropped-first_item (skip xs (suc j)),
          before-suc xs (suc j),
        )
        (unfold nth in refl)

  index_loop-cache_at :
      (ahead j : ℕ)
      → j ≤ count xs
      → index_loop ahead (encode (lst xs)) (cache_at xs j)
        ≡ ok (cache_at xs (min (j + ahead) (count xs)))
  unfolding index_loop
  index_loop-cache_at zero j h = let here : min (j + 0) (count xs) ≡ j = omega arith in rw here
  index_loop-cache_at (suc ahead) j h = elim (Bool-cases (ltb j (count xs))) [
    | inl more ↦
        let on : min (suc j + ahead) (count xs) ≡ min (j + suc ahead) (count xs) = omega arith in
        let some : is_null (cache_at xs j).last_item ≡ false =
          unfold cache_at in is_null-some (nth xs j) (nth_some xs j (ground arith)) in
        rw (some, next_item-cache_at j) (index_loop-cache_at ahead (suc j) (ground arith) ∙ rw on)
    | inr over ↦
        let here : min (j + suc ahead) (count xs) ≡ j = ground arith in
        let none : is_null (cache_at xs j).last_item ≡ true =
          unfold cache_at is_null in rw (nth_none xs j (ground arith)) in
        rw (none, here)
  ]

  rewind-cache :
      (c : Cache) (i : ℕ) → i < c.last_index → rewind (encode (lst xs)) c i ≡ ok (cache_at xs 0)
  unfolding rewind cache_at skip
  rewind-cache c i back =
      let again : ltb i c.last_index ≡ true = ground arith in
      let size : length (first xs) ≡ before xs 1 =
        unfold nth before in omega (arith, before-suc xs 0) in
      rw
        (
          again,
          payload-lst xs small,
          size_as_encoded-first xs (rest_small 0),
          cropped-first_item xs,
          size,
        )
        (unfold nth in refl)

nth-min : (xs : Items) (i : ℕ) → nth xs (min i (count xs)) ≡ nth xs i
nth-min xs i = elim (Bool-cases (ltb i (count xs))) [
  | inl some ↦ ap (λ (j : ℕ). nth xs j) (ground arith)
  | inr none ↦
      ap (λ (j : ℕ). nth xs j) (ground arith)
      ∙ nth_none xs (count xs) (omega arith)
      ∙ sym (nth_none xs i (ground arith))
]

-- What the cache can be between two accesses to the list of `xs`.
unfoldable pub IsReached : Items → Cache → Type 0
IsReached xs c = (c ≡ no_access) ⊎ ((j : ℕ) × ((j ≤ count xs) × (c ≡ cache_at xs j)))

module _ (xs : Items) (small : length (encode (lst xs)) < 2 ^ 64 - 1 - 0x100) where
  from_start :
      (i : ℕ)
      → index_loop (i - (cache_at xs 0).last_index) (encode (lst xs)) (cache_at xs 0)
        ≡ ok (cache_at xs (min i (count xs)))
  from_start i =
      let none : 0 + i ≡ i = omega arith in
      let steps : i - (cache_at xs 0).last_index ≡ i = unfold cache_at in omega arith in
      rw steps (index_loop-cache_at xs small i 0 (omega arith) ∙ rw none)

  at_index-found :
      (c s : Cache) (i : ℕ)
      → rewind (encode (lst xs)) c i ≡ ok s
      → index_loop (i - s.last_index) (encode (lst xs)) s ≡ ok (cache_at xs (min i (count xs)))
      → at_index (encode (lst xs)) c i ≡ ok (nth xs i, cache_at xs (min i (count xs)))
  unfolding at_index
  at_index-found c s i started found =
      let item : (cache_at xs (min i (count xs))).last_item ≡ nth xs i =
        unfold cache_at in nth-min xs i in
      let good : construct (nth xs i) (bit_or throw_on_fail fail_if_too_small) ≡ ok (nth xs i) =
        unfold nth in construct-first (skip xs i) (rest_small xs small i) in
      rw (started, found, item, good)

  at_index_again :
      (c : Cache) (i : ℕ)
      → i < c.last_index
      → at_index (encode (lst xs)) c i ≡ ok (nth xs i, cache_at xs (min i (count xs)))
  at_index_again c i back =
      at_index-found c (cache_at xs 0) i (rewind-cache xs small c i back) (from_start i)

  at_index_ahead :
      (j i : ℕ)
      → j ≤ count xs
      → j ≤ i
      → at_index (encode (lst xs)) (cache_at xs j) i ≡ ok (nth xs i, cache_at xs (min i (count xs)))
  at_index_ahead j i h ahead =
      let index : (cache_at xs j).last_index ≡ j = unfold cache_at in refl in
      let stay : ltb i (cache_at xs j).last_index ≡ false = rw index (ground arith) in
      let same : j + (i - j) ≡ i = omega arith in
      at_index-found (cache_at xs j) (cache_at xs j) i (unfold rewind in rw stay)
        (simp index (index_loop-cache_at xs small (i - j) j h ∙ rw same))

  -- Between two accesses the cache stands nowhere or at an index of the list: from such a cache,
  -- every index below the largest number of 64 bits gives the item that stands there, or no bytes
  -- behind the last item, and leaves such a cache.
  pub at_index-IsReached :
      (c : Cache) (i : ℕ)
      → IsReached xs c
      → i < 2 ^ 64 - 1
      → (c' : Cache) × (at_index (encode (lst xs)) c i ≡ ok (nth xs i, c')) × IsReached xs c'
  unfolding IsReached
  at_index-IsReached c i reached below =
      let next : IsReached xs (cache_at xs (min i (count xs))) =
        inr (min i (count xs), (omega arith, refl)) in
      let found : at_index (encode (lst xs)) c i ≡ ok (nth xs i, cache_at xs (min i (count xs))) =
        elim reached [
          | inl fresh ↦
              at_index_again c i (omega (arith, below, ap (λ (c : Cache). c.last_index) fresh))
          | inr at ↦ elim (Bool-cases (ltb i at.0)) [
            | inl back ↦
                at_index_again c i
                  (unfold cache_at in ground (arith, ap (λ (c : Cache). c.last_index) at.1.1))
            | inr ahead ↦ rw at.1.1 (at_index_ahead at.0 i at.1.0 (ground arith))
          ]
        ] in
      (cache_at xs (min i (count xs)), found, next)

-- Several accesses to one node, one after the other.
pub lookups : Bytes → Cache → List ℕ → Outcome (List Bytes)
lookups d c [] = ok []
lookups d c (i ∷ is) = do found ← at_index d c i; rest ← lookups d found.1 is; ok (found.0 ∷ rest)

module _ (xs : Items) (small : length (encode (lst xs)) < 2 ^ 64 - 1 - 0x100) where
  lookups-from :
      (is : List ℕ) (c : Cache)
      → IsReached xs c
      → All (λ i. i < 2 ^ 64 - 1) is
      → lookups (encode (lst xs)) c is ≡ ok (map (λ i. nth xs i) is)
  unfolding lookups
  lookups-from [] c reached below = refl
  lookups-from (i ∷ is) c reached below =
      let found = at_index-IsReached xs small c i reached below.0 in
      rw (found.1, lookups-from is found.0 found.2 below.1)

  -- Any accesses to the coding of a list, of fewer than 2 ^ 64 - 257 bytes, at indices below 2 ^ 64 - 1,
  -- in any order, forwards or backwards, find the codings of the items at the indices, and no bytes at
  -- an index behind the last item.
  pub lookups-encode :
      (is : List ℕ)
      → All (λ i. i < 2 ^ 64 - 1) is
      → lookups (encode (lst xs)) no_access is ≡ ok (map (λ i. nth xs i) is)
  lookups-encode is below = lookups-from is no_access (unfold IsReached in inl refl) below

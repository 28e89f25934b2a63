-- ===== src/Abi/ParamSet/Indices.antt =====
-- The index in the head of a coding is the place of the bytes behind it.
use cpp_conflux_sdk.Common.{
  ℕ, ◌+◌, ◌^◌, ◌<◌, ◌≡◌, sym, ap, ◌∙◌, true, some, All, All-append, ◌∷◌, ◌++◌, append_assoc, arith,
  Bytes, length, take, drop, length-append, take-append_length, drop-append_length,
}
use cpp_conflux_sdk.Abi.{Boost, IsExact, encode_uint256, decode_uint256}
use cpp_conflux_sdk.Abi.Param.{Param, is_dynamic, get_size, encode}
use cpp_conflux_sdk.Abi.Param.RoundTrip.{length-encode}
use cpp_conflux_sdk.Abi.ParamSet.{ParamSet, head_size, encode_heads, encode_tails, encode_set}
use cpp_conflux_sdk.Abi.ParamSet.RoundTrip.{IsPlaced, heads_behind, tails_behind, word_at}
use cpp_conflux_sdk.Abi.ParamSet.Layout.{
  length-encode_heads, encode_tails-append, encode_heads-append,
}

module _ (b : Boost) (exact : IsExact b) (xs : ParamSet) (p : Param) (ys : ParamSet) where
  -- The place of the parameter's bytes.
  unfoldable pub place : ℕ
  place = head_size (xs ++ (p ∷ ys)) + length (encode_tails b xs)

  module _ (hx : All IsPlaced xs) (hp : IsPlaced p) (hy : All IsPlaced ys)
      (dynamic : is_dynamic p ≡ true)
      (small : head_size (xs ++ (p ∷ ys)) + length (encode_tails b (xs ++ (p ∷ ys))) < 2 ^ 64) where
    tails_shape :
        encode_tails b (xs ++ (p ∷ ys)) ≡ encode_tails b xs ++ (encode b p ++ encode_tails b ys)
    unfolding IsPlaced
    tails_shape =
        encode_tails-append b exact xs (p ∷ ys)
        ∙ ap (λ (t : Bytes). encode_tails b xs ++ t) (tails_behind b exact p ys (hp.1 ∙ dynamic))

    sizes :
        length (encode_tails b (xs ++ (p ∷ ys)))
        ≡ length (encode_tails b xs) + (get_size p + length (encode_tails b ys))
    unfolding IsPlaced
    sizes =
        ap (λ (t : Bytes). length t) tails_shape
        ∙ omega (
          arith,
          length-append (encode_tails b xs) (encode b p ++ encode_tails b ys),
          length-append (encode b p) (encode_tails b ys),
          length-encode b exact p hp.0,
        )

    -- The heads behind the parameter's index.
    heads_after : Bytes
    heads_after =
        encode_heads b (head_size (xs ++ (p ∷ ys))) (0 + length (encode_tails b xs) + get_size p) ys

    heads_shape :
        encode_heads b (head_size (xs ++ (p ∷ ys))) 0 (xs ++ (p ∷ ys))
        ≡ encode_heads b (head_size (xs ++ (p ∷ ys))) 0 xs
          ++ (encode_uint256 b place ++ heads_after)
    unfolding place IsPlaced heads_after
    heads_shape =
        let head = head_size (xs ++ (p ∷ ys)) in
        let index : head + (0 + length (encode_tails b xs)) ≡ head + length (encode_tails b xs) =
          omega arith in
        encode_heads-append b exact xs (p ∷ ys) head 0 hx
        ∙ ap (λ (t : Bytes). encode_heads b head 0 xs ++ t)
            (heads_behind b exact p ys head (0 + length (encode_tails b xs)) (hp.1 ∙ dynamic)
              ∙ rw index)

    -- With boost's conversions as documented, for a dynamic parameter in a coding of fewer than 2 ^ 64 bytes,
    -- all of whose parameters are held by their types, none of them fixed bytes of more than 32: the word
    -- behind the heads of those before it is the place in the coding at which its bytes stand.
    pub decode_uint256-place :
        (decode_uint256 b (encode_set b (xs ++ (p ∷ ys))) (head_size xs)
          ≡ some (place, head_size xs + 32))
        × (take (get_size p) (drop place (encode_set b (xs ++ (p ∷ ys)))) ≡ encode b p)
    unfolding place encode_set IsPlaced
    decode_uint256-place =
        let head = head_size (xs ++ (p ∷ ys)) in
        let heads = encode_heads b head 0 (xs ++ (p ∷ ys)) in
        let heads_xs = encode_heads b head 0 xs in
        let tails = encode_tails b (xs ++ (p ∷ ys)) in
        let tails_xs = encode_tails b xs in
        let word = encode_uint256 b (head + length tails_xs) in
        let everyone : All IsPlaced (xs ++ (p ∷ ys)) =
          All-append IsPlaced xs (p ∷ ys) hx (hp, hy) in
        let size_heads =
          length-encode_heads b exact (xs ++ (p ∷ ys)) head 0 everyone (omega (arith, small)) in
        let size_xs = length-encode_heads b exact xs head 0 hx (omega (arith, small, sizes)) in
        let front : heads ++ tails ≡ heads_xs ++ (word ++ (heads_after ++ tails)) =
          ap (λ (t : Bytes). t ++ tails) heads_shape
          ∙ append_assoc heads_xs (word ++ heads_after) tails
          ∙ ap (λ (t : Bytes). heads_xs ++ t) (append_assoc word heads_after tails) in
        let back : heads ++ tails ≡ (heads ++ tails_xs) ++ (encode b p ++ encode_tails b ys) =
          ap (λ (t : Bytes). heads ++ t) tails_shape
          ∙ sym (append_assoc heads tails_xs (encode b p ++ encode_tails b ys)) in
        let reached : length (heads ++ tails_xs) ≡ head + length tails_xs =
          omega (arith, length-append heads tails_xs, size_heads) in
        (
          word_at b exact (head + length tails_xs) (heads ++ tails) heads_xs (heads_after ++ tails)
              (head_size xs) (omega (arith, small, sizes)) front (sym size_xs),
          ap (λ (t : Bytes). take (get_size p) (drop (head + length tails_xs) t)) back
              ∙ ap (λ (t : Bytes). take (get_size p) t)
                  (drop-append_length (head + length tails_xs) (heads ++ tails_xs)
                    (encode b p ++ encode_tails b ys) reached)
              ∙ take-append_length (get_size p) (encode b p) (encode_tails b ys)
                  (length-encode b exact p hp.0),
        )

-- ===== src/Abi/ParamSet/Layout.antt =====
-- Where the parameters of a call stand in its coding.
use cpp_conflux_sdk.Common.{
  ℕ, ◌+◌, ◌^◌, ◌<◌, ◌≡◌, refl, sym, ap, ◌∙◌, Bool-cases, inl, inr, some, All, map, [], ◌∷◌, ◌++◌,
  append_assoc, arith, Bytes, length, length-append,
}
use cpp_conflux_sdk.Abi.{Boost, IsExact, encode_uint256}
use cpp_conflux_sdk.Abi.Words.{length-encode_uint256}
use cpp_conflux_sdk.Abi.Param.{fresh, is_dynamic, get_size, encode}
use cpp_conflux_sdk.Abi.Param.RoundTrip.{length-encode}
use cpp_conflux_sdk.Abi.ParamSet.{
  ParamSet, is_behind, head_size, encode_heads, encode_tails, encode_set, decode_set,
}
use cpp_conflux_sdk.Abi.ParamSet.RoundTrip.{
  IsPlaced, cut, heads_behind, heads_within, tails_behind, tails_within, decode_small-encode_heads,
  decode_large-encode_tails,
}

module _ (b : Boost) (exact : IsExact b) where
  -- The first loop writes the head.
  pub length-encode_heads :
      (ps : ParamSet) (head off : ℕ)
      → All IsPlaced ps
      → head + off + length (encode_tails b ps) < 2 ^ 256
      → length (encode_heads b head off ps) ≡ head_size ps
  unfolding IsPlaced head_size
  length-encode_heads [] head off h bound = unfold encode_heads in refl
  length-encode_heads (p ∷ ps) head off h bound = elim (Bool-cases (is_dynamic p)) [
    | inl dynamic ↦
        let behind = h.0.1 ∙ dynamic in
        let room : head + off + (get_size p + length (encode_tails b ps)) < 2 ^ 256 = omega (
          arith,
          bound,
          ap (λ (t : Bytes). length t) (tails_behind b exact p ps behind),
          length-append (encode b p) (encode_tails b ps),
          length-encode b exact p h.0.0,
        ) in
        let size = length-encode_uint256 b exact (head + off) (omega (arith, room)) in
        let ih = length-encode_heads ps head (off + get_size p) h.1 (omega (arith, room)) in
        rw (heads_behind b exact p ps head off behind, dynamic)
          (omega (
            arith,
            size,
            ih,
            length-append (encode_uint256 b (head + off))
                (encode_heads b head (off + get_size p) ps),
          ))
    | inr fixed ↦
        let within = h.0.1 ∙ fixed in
        let ih =
          length-encode_heads ps head off h.1 (
            omega
              (arith, bound, ap (λ (t : Bytes). length t) (tails_within b exact p ps within))) in
        rw (heads_within b exact p ps head off within, fixed)
          (omega (
            arith,
            ih,
            length-encode b exact p h.0.0,
            length-append (encode b p) (encode_heads b head off ps),
          ))
  ]

  length-encode_set :
      (ps : ParamSet)
      → All IsPlaced ps
      → head_size ps + length (encode_tails b ps) < 2 ^ 64
      → length (encode_set b ps) ≡ head_size ps + length (encode_tails b ps)
  unfolding encode_set
  length-encode_set ps h small = omega (
    arith,
    length-append (encode_heads b (head_size ps) 0 ps) (encode_tails b ps),
    length-encode_heads ps (head_size ps) 0 h (omega (arith, small)),
  )

  -- With boost's conversions as documented: parameters that are held by their types, none of them fixed
  -- bytes of more than 32, encoded among any bytes that all have fewer than 2 ^ 64, are decoded into
  -- fresh parameters of the same types, and the offset moves behind them.
  pub decode_set-encode_set :
      (ps : ParamSet) (front rest : Bytes)
      → All IsPlaced ps
      → length front + (head_size ps + length (encode_tails b ps)) + length rest < 2 ^ 64
      → decode_set b (map fresh ps) (front ++ (encode_set b ps ++ rest)) (length front)
        ≡ some (ps, length front + length (encode_set b ps))
  unfolding decode_set encode_set
  decode_set-encode_set ps front rest h small =
      let heads = encode_heads b (head_size ps) 0 ps in
      let tails = encode_tails b ps in
      let d = front ++ ((heads ++ tails) ++ rest) in
      let c = cut d front heads tails rest refl in
      let size = length-encode_set ps h (omega (arith, small)) in
      let sum = length-append heads tails in
      let total : length d < 2 ^ 64 = omega (
        arith,
        small,
        unfold_size ps h (omega (arith, small)),
        length-append front ((heads ++ tails) ++ rest),
        length-append (heads ++ tails) rest,
        sum,
      ) in
      let first =
        decode_small-encode_heads b exact ps d front (tails ++ rest) (head_size ps) 0 (length front)
          h (omega (arith, small)) c.0 refl total in
      let second =
        decode_large-encode_tails b exact ps d (front ++ heads) rest (length front + length heads) h
          c.1 (sym (length-append front heads)) total in
      let place : length front + length heads + length tails
          ≡ length front + length (heads ++ tails) =
        omega (arith, sum) in
      rw (first, second, place)
    where
      unfold_size :
          (ps : ParamSet)
          → All IsPlaced ps
          → head_size ps + length (encode_tails b ps) < 2 ^ 64
          → length (encode_heads b (head_size ps) 0 ps) ≡ head_size ps
      unfold_size ps h small = length-encode_heads ps (head_size ps) 0 h (omega (arith, small))

  pub encode_tails-append :
      (xs ys : ParamSet) → encode_tails b (xs ++ ys) ≡ encode_tails b xs ++ encode_tails b ys
  unfolding encode_tails
  encode_tails-append [] ys = refl
  encode_tails-append (p ∷ xs) ys = elim (Bool-cases (is_behind p)) [
    | inl behind ↦ rw (behind, encode_tails-append xs ys) (sym (append_assoc (encode b p) _ _))
    | inr within ↦ rw (within, encode_tails-append xs ys)
  ]

  head_size-append : (xs ys : ParamSet) → head_size (xs ++ ys) ≡ head_size xs + head_size ys
  unfolding head_size
  head_size-append [] ys = omega arith
  head_size-append (p ∷ xs) ys = omega (arith, head_size-append xs ys)

  pub encode_heads-append :
      (xs ys : ParamSet) (head off : ℕ)
      → All IsPlaced xs
      → encode_heads b head off (xs ++ ys)
        ≡ encode_heads b head off xs ++ encode_heads b head (off + length (encode_tails b xs)) ys
  unfolding encode_heads encode_tails IsPlaced
  encode_heads-append [] ys head off h = ap (λ (n : ℕ). encode_heads b head n ys) (omega arith)
  encode_heads-append (p ∷ xs) ys head off h = elim (Bool-cases (is_behind p)) [
    | inl behind ↦
        let size = length-encode b exact p h.0.0 in
        let sum : off + get_size p + length (encode_tails b xs)
            ≡ off + length (encode b p ++ encode_tails b xs) =
          omega (arith, size, length-append (encode b p) (encode_tails b xs)) in
        rw (behind, encode_heads-append xs ys head (off + get_size p) h.1, sum)
          (sym (append_assoc (encode_uint256 b (head + off)) _ _))
    | inr within ↦
        rw (within, encode_heads-append xs ys head off h.1) (sym (append_assoc (encode b p) _ _))
  ]

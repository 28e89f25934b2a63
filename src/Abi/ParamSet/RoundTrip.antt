-- ===== src/Abi/ParamSet/RoundTrip.antt =====
-- Parameters that were encoded are decoded again, from between any bytes.
use cpp_conflux_sdk.Common.{
  ℕ, ◌+◌, ◌^◌, ◌<◌, ◌≡◌, refl, sym, ap, ◌∙◌, true, false, Bool-cases, inl, inr, some, All, map, [],
  ◌∷◌, ◌++◌, append_assoc, arith, Bytes, length, length-append, if◌then◌else◌,
}
use cpp_conflux_sdk.Abi.{Boost, IsExact, encode_uint256, decode_uint256}
use cpp_conflux_sdk.Abi.Words.{length-encode_uint256, decode_uint256-encode_uint256}
use cpp_conflux_sdk.Abi.Param.{
  Param, number, boolean, uint_n, address, byte_array, byte_array_fix, string, fresh, is_dynamic,
  get_size, encode, decode,
}
use cpp_conflux_sdk.Abi.Param.RoundTrip.{IsHeld, length-encode, decode-encode}
use cpp_conflux_sdk.Abi.ParamSet.{
  ParamSet, is_behind, encode_heads, encode_tails, decode_small, decode_large,
}

-- The parameter's type holds its value, and only a dynamic one takes more than the 32 bytes of a head.
unfoldable pub IsPlaced : Param → Type 0
IsPlaced p = IsHeld p × (is_behind p ≡ is_dynamic p)

-- Between the two loops of `decode` the dynamic parameters are still fresh.
pub half : Param → Param
half p = if is_dynamic p then fresh p else p

is_dynamic-fresh : (p : Param) → is_dynamic (fresh p) ≡ is_dynamic p
unfolding is_dynamic fresh
is_dynamic-fresh (number bits val) = refl
is_dynamic-fresh (boolean val) = refl
is_dynamic-fresh (uint_n bits val) = refl
is_dynamic-fresh (address val) = refl
is_dynamic-fresh (byte_array val) = refl
is_dynamic-fresh (byte_array_fix n val) = refl
is_dynamic-fresh (string val) = refl

is_dynamic-half : (p : Param) → is_dynamic (half p) ≡ is_dynamic p
unfolding half
is_dynamic-half p = elim (Bool-cases (is_dynamic p)) [
  | inl dynamic ↦ rw dynamic (is_dynamic-fresh p ∙ dynamic)
  | inr fixed ↦ rw fixed fixed
]

-- Regrouping at a cut.
pub cut :
    (d front a c rest : Bytes)
    → d ≡ front ++ ((a ++ c) ++ rest)
    → (d ≡ front ++ (a ++ (c ++ rest))) × (d ≡ (front ++ a) ++ (c ++ rest))
cut d front a c rest e =
    let inner = e ∙ ap (λ (t : Bytes). front ++ t) (append_assoc a c rest) in
    (inner, inner ∙ sym (append_assoc front a (c ++ rest)))

module _ (b : Boost) (exact : IsExact b) where
  decode-at :
      (p : Param) (d front rest : Bytes) (o : ℕ)
      → IsHeld p
      → d ≡ front ++ (encode b p ++ rest)
      → o ≡ length front
      → length d < 2 ^ 64
      → decode b (fresh p) d o ≡ some (p, o + get_size p)
  decode-at p d front rest o h e place small =
      let fits : length (front ++ (encode b p ++ rest)) < 2 ^ 64 =
        omega (arith, small, ap (λ (t : Bytes). length t) e) in
      rw (e, place) (decode-encode b exact p front rest h fits)

  pub word_at :
      (v : ℕ) (d front rest : Bytes) (o : ℕ)
      → v < 2 ^ 256
      → d ≡ front ++ (encode_uint256 b v ++ rest)
      → o ≡ length front
      → decode_uint256 b d o ≡ some (v, o + 32)
  word_at v d front rest o h e place =
      rw (e, place) (decode_uint256-encode_uint256 b exact v front rest h)

  pub heads_behind :
      (p : Param) (ps : ParamSet) (head off : ℕ)
      → is_behind p ≡ true
      → encode_heads b head off (p ∷ ps)
        ≡ encode_uint256 b (head + off) ++ encode_heads b head (off + get_size p) ps
  unfolding encode_heads
  heads_behind p ps head off h = rw h

  pub heads_within :
      (p : Param) (ps : ParamSet) (head off : ℕ)
      → is_behind p ≡ false
      → encode_heads b head off (p ∷ ps) ≡ encode b p ++ encode_heads b head off ps
  unfolding encode_heads
  heads_within p ps head off h = rw h

  pub tails_behind :
      (p : Param) (ps : ParamSet)
      → is_behind p ≡ true
      → encode_tails b (p ∷ ps) ≡ encode b p ++ encode_tails b ps
  unfolding encode_tails
  tails_behind p ps h = rw h

  pub tails_within :
      (p : Param) (ps : ParamSet)
      → is_behind p ≡ false
      → encode_tails b (p ∷ ps) ≡ encode_tails b ps
  unfolding encode_tails
  tails_within p ps h = rw h

  pub decode_small-encode_heads :
      (ps : ParamSet) (d front rest : Bytes) (head off o : ℕ)
      → All IsPlaced ps
      → head + off + length (encode_tails b ps) < 2 ^ 256
      → d ≡ front ++ (encode_heads b head off ps ++ rest)
      → o ≡ length front
      → length d < 2 ^ 64
      → decode_small b (map fresh ps) d o
        ≡ some (map half ps, o + length (encode_heads b head off ps))
  unfolding decode_small IsPlaced half
  decode_small-encode_heads [] d front rest head off o h bound e place small =
      let none' : o + 0 ≡ o = omega arith in unfold encode_heads in rw none'
  decode_small-encode_heads (p ∷ ps) d front rest head off o h bound e place small =
      elim (Bool-cases (is_dynamic p)) [
        | inl dynamic ↦
            let behind = h.0.1 ∙ dynamic in
            let word = encode_uint256 b (head + off) in
            let tail = encode_heads b head (off + get_size p) ps in
            let heads = heads_behind p ps head off behind in
            let c =
              cut d front word tail rest (e ∙ ap (λ (t : Bytes). front ++ (t ++ rest)) heads) in
            let room : head + off + (get_size p + length (encode_tails b ps)) < 2 ^ 256 = omega (
              arith,
              bound,
              ap (λ (t : Bytes). length t) (tails_behind p ps behind),
              length-append (encode b p) (encode_tails b ps),
              length-encode b exact p h.0.0,
            ) in
            let size = length-encode_uint256 b exact (head + off) (omega (arith, room)) in
            let ih =
              decode_small-encode_heads ps d (front ++ word) rest head (off + get_size p) (o + 32)
                h.1 (omega (arith, room)) c.1 (omega (arith, place, size, length-append front word))
                small in
            let total : o + 32 + length tail ≡ o + length (word ++ tail) =
              omega (arith, size, length-append word tail) in
            rw (
              is_dynamic-fresh p,
              dynamic,
              word_at (head + off) d front (tail ++ rest) o (omega (arith, room)) c.0 place,
              ih,
              heads,
              total,
            )
        | inr fixed ↦
            let within = h.0.1 ∙ fixed in
            let tail = encode_heads b head off ps in
            let heads = heads_within p ps head off within in
            let c =
              cut d front (encode b p) tail rest
                (e ∙ ap (λ (t : Bytes). front ++ (t ++ rest)) heads) in
            let room : head + off + length (encode_tails b ps) < 2 ^ 256 =
              omega (arith, bound, ap (λ (t : Bytes). length t) (tails_within p ps within)) in
            let size = length-encode b exact p h.0.0 in
            let ih =
              decode_small-encode_heads ps d (front ++ encode b p) rest head off (o + get_size p)
                h.1 room c.1 (omega (arith, place, size, length-append front (encode b p))) small in
            let total : o + get_size p + length tail ≡ o + length (encode b p ++ tail) =
              omega (arith, size, length-append (encode b p) tail) in
            rw (
              is_dynamic-fresh p,
              fixed,
              decode-at p d front (tail ++ rest) o h.0.0 c.0 place small,
              ih,
              heads,
              total,
            )
      ]

  pub decode_large-encode_tails :
      (ps : ParamSet) (d front rest : Bytes) (o : ℕ)
      → All IsPlaced ps
      → d ≡ front ++ (encode_tails b ps ++ rest)
      → o ≡ length front
      → length d < 2 ^ 64
      → decode_large b (map half ps) d o ≡ some (ps, o + length (encode_tails b ps))
  unfolding decode_large IsPlaced
  decode_large-encode_tails [] d front rest o h e place small =
      let none' : o + 0 ≡ o = omega arith in unfold encode_tails in rw none'
  decode_large-encode_tails (p ∷ ps) d front rest o h e place small =
      elim (Bool-cases (is_dynamic p)) [
        | inl dynamic ↦
            let behind = h.0.1 ∙ dynamic in
            let tail = encode_tails b ps in
            let tails = tails_behind p ps behind in
            let c =
              cut d front (encode b p) tail rest
                (e ∙ ap (λ (t : Bytes). front ++ (t ++ rest)) tails) in
            let size = length-encode b exact p h.0.0 in
            let ih =
              decode_large-encode_tails ps d (front ++ encode b p) rest (o + get_size p) h.1 c.1
                (omega (arith, place, size, length-append front (encode b p))) small in
            let total : o + get_size p + length tail ≡ o + length (encode b p ++ tail) =
              omega (arith, size, length-append (encode b p) tail) in
            let now : half p ≡ fresh p = unfold half in rw dynamic in
            rw (
              is_dynamic-half p,
              dynamic,
              now,
              decode-at p d front (tail ++ rest) o h.0.0 c.0 place small,
              ih,
              tails,
              total,
            )
        | inr fixed ↦
            let within = h.0.1 ∙ fixed in
            let tails = tails_within p ps within in
            let ih =
              decode_large-encode_tails ps d front rest o h.1
                (e ∙ ap (λ (t : Bytes). front ++ (t ++ rest)) tails) place small in
            let now : half p ≡ p = unfold half in rw fixed in
            rw (is_dynamic-half p, fixed, now, ih, tails)
      ]

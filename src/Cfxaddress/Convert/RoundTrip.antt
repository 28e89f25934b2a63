-- ===== src/Cfxaddress/Convert/RoundTrip.antt =====
-- `convert` as a whole: the bits of the result, its length, and the way back.
use native.Mathlib.Nat.{mod-eq_of_lt}
use cpp_conflux_sdk.Common.{
  ℕ, zero, suc, ◌+◌, ◌-◌, ◌*◌, ◌%◌, ◌^◌, ◌<◌, ◌≤◌, ◌≡◌, refl, sym, ap, ap₂, ◌∙◌, List, [], ◌∷◌,
  ◌++◌, append_assoc, append-nil, append_parts, arith, Bytes, length, length-append, All-append,
  replicate, length-replicate, true, false, inl, inr, Bool-cases, ltb,
}
use cpp_conflux_sdk.Common.Bits.{shift-lt, pow_mono, pow_pos}
use cpp_conflux_sdk.Cfxaddress.Convert.{Regroup, convert_loop, finish, start, convert}
use cpp_conflux_sdk.Cfxaddress.Convert.BitStream.{
  to_bits, stream, stream-append, stream-single, to_bits_join, Fits, length-stream, length-to_bits,
  stream-injective,
}
use cpp_conflux_sdk.Cfxaddress.Convert.Regroups.{Rests, convert_loop-Rests, start-Rests}

convert_value :
    (bytes : Bytes) (inbits w : ℕ)
    → inbits ≤ 8
    → w ≤ 8
    → convert bytes inbits w ≡ finish inbits w (convert_loop inbits w bytes start)
unfolding convert
convert_value bytes inbits w h h' = ground arith

to_bits-zero : (p : ℕ) → to_bits p 0 ≡ replicate p 0
unfolding to_bits
to_bits-zero zero = refl
to_bits-zero (suc p) = rw (to_bits-zero p) (last p)
  where
    last : (p : ℕ) → replicate p 0 ++ (0 ∷ []) ≡ replicate {A = ℕ} (suc p) 0
    last zero = refl
    last (suc p) = ap (λ (t : List ℕ). 0 ∷ t) (last p)

-- The result of a run that groups `inbits` bits into `w`, `pad` zero bits added.
abbrev pub Padded : ℕ → ℕ → Bytes → Bytes → ℕ → Type 0
Padded inbits w bytes out pad =
    (stream w out ≡ stream inbits bytes ++ replicate pad 0) × Fits w out × (pad < w)

finish_none : (inbits w : ℕ) (s : Regroup) → ltb 0 s.acc_bits ≡ false → finish inbits w s ≡ s.ret
unfolding finish
finish_none inbits w s e = rw e

finish_some :
    (inbits w : ℕ) (s : Regroup)
    → ltb 0 s.acc_bits ≡ true
    → w < inbits
    → finish inbits w s ≡ s.ret ++ (s.acc * 2 ^ (w - s.acc_bits) % 2 ^ 8 ∷ [])
unfolding finish
finish_some inbits w s e h = ground arith

-- A group filled up with zero bits.
filled :
    (w k a : ℕ)
    → k ≤ w
    → w ≤ 8
    → a < 2 ^ k
    → (a * 2 ^ (w - k) % 2 ^ 8 < 2 ^ w)
      × (to_bits w (a * 2 ^ (w - k) % 2 ^ 8) ≡ to_bits k a ++ replicate (w - k) 0)
filled w k a h narrow small = rw (mod-eq_of_lt fits) (below, bits)
  where
    p : ℕ
    p = w - k

    width : w ≡ k + p
    width = omega arith

    below : a * 2 ^ p < 2 ^ w
    below = omega (arith, shift-lt k p a 0 small (pow_pos p), ap (λ (t : ℕ). 2 ^ t) width)

    fits : a * 2 ^ p < 2 ^ 8
    fits = omega (arith, below, pow_mono w 8 narrow)

    bits : to_bits w (a * 2 ^ p) ≡ to_bits k a ++ replicate p 0
    bits =
        ap₂ to_bits width (omega arith)
        ∙ to_bits_join k p a 0 (pow_pos p)
        ∙ ap (λ (t : List ℕ). to_bits k a ++ t) (to_bits-zero p)

finish_narrower :
    (inbits w : ℕ) (s : Regroup) (bits : List ℕ)
    → w < inbits
    → w ≤ 8
    → Rests w s bits
    → (pad : ℕ) × (stream w (finish inbits w s) ≡ bits ++ replicate pad 0)
      × Fits w (finish inbits w s)
      × (pad < w)
finish_narrower inbits w s bits less narrow r = elim (Bool-cases (ltb 0 s.acc_bits)) [
  | inl some ↦
      let (small, padded) =
        filled w s.acc_bits s.acc (omega (arith, r.short)) narrow r.carries.small in
      let held : stream w s.ret ++ to_bits s.acc_bits s.acc ≡ bits = r.carries.held in
      (
        w - s.acc_bits,
        rw (finish_some inbits w s some less, stream-append, stream-single, padded)
            (rw (
              ← append_assoc (stream w s.ret) (to_bits s.acc_bits s.acc)
                  (replicate (w - s.acc_bits) 0),
              held,
            )),
        rw (finish_some inbits w s some less)
            (All-append (λ x. x < 2 ^ w) s.ret _ r.carries.fits (small, tt)),
        ground (arith, r.short),
      )
  | inr none ↦
      let empty : s.acc_bits ≡ 0 = ground arith in
      (
        0,
        rw (finish_none inbits w s none, append-nil)
            (sym (append-nil (stream w s.ret)) ∙ no_bits empty ∙ r.carries.held),
        rw (finish_none inbits w s none) r.carries.fits,
        omega (arith, r.short),
      )
]
  where
    no_bits : s.acc_bits ≡ 0 → stream w s.ret ++ [] ≡ stream w s.ret ++ to_bits s.acc_bits s.acc
    no_bits e = rw e (unfold to_bits in refl)

finish_wider : (inbits w : ℕ) (s : Regroup) → inbits ≤ w → finish inbits w s ≡ s.ret
unfolding finish
finish_wider inbits w s h = ground arith

-- Groups of `inbits` bits regrouped into shorter ones, for `0 < w < inbits ≤ 8` and an input whose
-- groups fit their width: the groups that `convert` returns have `w` bits each, and are the bits of the
-- input, filled up at the end with less than a group of zero bits.
pub convert-Padded :
    (bytes : Bytes) (inbits w : ℕ)
    → 0 < w
    → w < inbits
    → inbits ≤ 8
    → Fits inbits bytes
    → (pad : ℕ) × Padded inbits w bytes (convert bytes inbits w) pad
convert-Padded bytes inbits w pos less narrow h =
    let r =
      convert_loop-Rests inbits w bytes start pos (omega arith) narrow h (start-Rests w pos) in
    let (pad, bits, fits, small) =
      finish_narrower inbits w (convert_loop inbits w bytes start) (stream inbits bytes) less
        (omega arith) r in
    rw (convert_value bytes inbits w narrow (omega arith)) (pad, (bits, fits, small))

-- Bits regrouped into groups that are no shorter: what `convert` returns are the bits of the input,
-- but for less than a group of them at the end.
pub convert_prefix :
    (bytes : Bytes) (inbits w : ℕ)
    → 0 < inbits
    → inbits ≤ w
    → w ≤ 8
    → Fits inbits bytes
    → (dropped : List ℕ) × (stream w (convert bytes inbits w) ++ dropped ≡ stream inbits bytes)
      × Fits w (convert bytes inbits w)
      × (length dropped < w)
convert_prefix bytes inbits w pos le narrow h =
    let s = convert_loop inbits w bytes start in
    let r =
      convert_loop-Rests inbits w bytes start (omega arith) narrow (omega arith) h
        (start-Rests w (omega arith)) in
    rw (convert_value bytes inbits w (omega arith) narrow, finish_wider inbits w s le)
      (
        to_bits s.acc_bits s.acc,
        r.carries.held,
        r.carries.fits,
        omega (arith, length-to_bits s.acc_bits s.acc, r.short),
      )

quotients_agree : (w m n a b : ℕ) → a < w → b < w → w * m + a ≡ w * n + b → m ≡ n
quotients_agree w zero zero a b ha hb e = refl
quotients_agree w zero (suc n) a b ha hb e = absurd (grind arith)
quotients_agree w (suc m) zero a b ha hb e = absurd (grind arith)
quotients_agree w (suc m) (suc n) a b ha hb e =
    ap suc (quotients_agree w m n a b ha hb (omega arith))

-- Whole groups are determined by their bits, whatever stands behind.
same_groups :
    (w pad : ℕ) (xs ys : Bytes) (dropped : List ℕ)
    → Fits w xs
    → Fits w ys
    → length dropped < w
    → pad < w
    → stream w xs ++ dropped ≡ stream w ys ++ replicate pad 0
    → xs ≡ ys
same_groups w pad xs ys dropped hx hy short small e =
    let same : length xs ≡ length ys =
      quotients_agree w (length xs) (length ys) (length dropped) pad short small lengths in
    let widths : length (stream w xs) ≡ length (stream w ys) =
      length-stream w xs ∙ ap (λ (t : ℕ). w * t) same ∙ sym (length-stream w ys) in
    stream-injective w xs ys hx hy same
      (append_parts (stream w xs) (stream w ys) dropped (replicate pad 0) widths e).0
  where
    lengths : w * length xs + length dropped ≡ w * length ys + pad
    lengths = omega (
      arith,
      length-append (stream w xs) dropped,
      length-append (stream w ys) (replicate pad 0),
      length-stream w xs,
      length-stream w ys,
      length-replicate {A = ℕ} pad 0,
      ap length e,
    )

-- Groups cut shorter and put together again are the groups that were cut: for widths
-- `0 < w < inbits ≤ 8`, `convert` from `w` to `inbits` undoes `convert` from `inbits` to `w`.
pub convert-convert :
    (bytes : Bytes) (inbits w : ℕ)
    → 0 < w
    → w < inbits
    → inbits ≤ 8
    → Fits inbits bytes
    → convert (convert bytes inbits w) w inbits ≡ bytes
convert-convert bytes inbits w pos less narrow h =
    let (pad, (bits, fits, small)) = convert-Padded bytes inbits w pos less narrow h in
    let (dropped, bits', fits', short) =
      convert_prefix (convert bytes inbits w) w inbits pos (omega arith) narrow fits in
    same_groups inbits pad _ bytes dropped fits' h short (omega arith) (bits' ∙ bits)

-- The number of groups: one for each `w` bits of the input, rounded up.
pub length-convert :
    (bytes : Bytes) (inbits w : ℕ)
    → 0 < w
    → w < inbits
    → inbits ≤ 8
    → Fits inbits bytes
    → (inbits * length bytes ≤ w * length (convert bytes inbits w))
      × (w * length (convert bytes inbits w) < inbits * length bytes + w)
length-convert bytes inbits w pos less narrow h =
    let (pad, (bits, fits, small)) = convert-Padded bytes inbits w pos less narrow h in
    omega (
      arith,
      length-append (stream inbits bytes) (replicate pad 0),
      length-stream w (convert bytes inbits w),
      length-stream inbits bytes,
      length-replicate {A = ℕ} pad 0,
      ap length bits,
    )

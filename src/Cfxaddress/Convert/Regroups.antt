-- ===== src/Cfxaddress/Convert/Regroups.antt =====
-- What the loops of `convert` keep: the bits that were taken in stand in `ret` and `acc`.
use native.Mathlib.Nat.{mod-lt, mod-eq_of_lt}
use cpp_conflux_sdk.Common.{
  ℕ, zero, suc, ◌+◌, ◌-◌, ◌*◌, ◌/◌, ◌%◌, ◌^◌, ◌<◌, ◌≤◌, ◌≡◌, refl, sym, ap, ◌∙◌, subst, List, [],
  ◌∷◌, ◌++◌, append_assoc, append-nil, arith, Bytes, All-append, true, false, inl, inr, Bool-cases,
  leb,
}
use cpp_conflux_sdk.Common.Bits.{
  bit_or_shift, bit_and_mask, shift-lt, high-lt, parts_join, pow_mono, pow_pos,
}
use cpp_conflux_sdk.Cfxaddress.Convert.{Regroup, emit, drain, absorb, convert_loop, start}
use cpp_conflux_sdk.Cfxaddress.Convert.BitStream.{
  to_bits, stream, stream-append, stream-single, to_bits_join, Fits,
}

-- The groups of `w` bits that were put out and the bits held back are the bits taken in.
pub record Carries (w : ℕ) (s : Regroup) (bits : List ℕ) : Type 0 where
  pub held : stream w s.ret ++ to_bits s.acc_bits s.acc ≡ bits
  pub small : s.acc < 2 ^ s.acc_bits
  pub fits : Fits w s.ret

-- Where the accumulator does not overflow, the round has no wrap-around in it.
absorb_plain :
    (inbits d : ℕ) (s : Regroup)
    → s.acc < 2 ^ s.acc_bits
    → d < 2 ^ inbits
    → s.acc_bits + inbits ≤ 16
    → absorb inbits d s
      ≡ record { ret = s.ret; acc = s.acc * 2 ^ inbits + d; acc_bits = s.acc_bits + inbits }
unfolding absorb
absorb_plain inbits d s small hd room =
    let whole : s.acc * 2 ^ inbits + d < 2 ^ 16 = omega (
      arith,
      shift-lt s.acc_bits inbits s.acc d small hd,
      pow_mono (s.acc_bits + inbits) 16 room,
    ) in
    rw (bit_or_shift inbits s.acc d hd, mod-eq_of_lt whole)

pub absorb-Carries :
    (w inbits d : ℕ) (s : Regroup) {bits : List ℕ}
    → Carries w s bits
    → d < 2 ^ inbits
    → s.acc_bits + inbits ≤ 16
    → Carries w (absorb inbits d s) (bits ++ to_bits inbits d)
absorb-Carries w inbits d s c hd room = rw (absorb_plain inbits d s c.small hd room) (record {
  held =
      rw (to_bits_join s.acc_bits inbits s.acc d hd, ← c.held)
        (sym (append_assoc (stream w s.ret) (to_bits s.acc_bits s.acc) (to_bits inbits d)));
  small = shift-lt s.acc_bits inbits s.acc d c.small hd;
  fits = c.fits;
})

emit_plain :
    (w k : ℕ) (s : Regroup)
    → s.acc_bits ≡ w + k
    → w ≤ 8
    → s.acc_bits ≤ 16
    → s.acc < 2 ^ s.acc_bits
    → emit w s ≡ record { ret = s.ret ++ (s.acc / 2 ^ k ∷ []); acc = s.acc % 2 ^ k; acc_bits = k }
unfolding emit
emit_plain w k s split narrow room small =
    let left : s.acc_bits - w ≡ k = omega arith in
    let high : s.acc / 2 ^ k < 2 ^ 8 =
      omega (arith, high-lt w k s.acc (rw split at small), pow_mono w 8 narrow) in
    let low : s.acc % 2 ^ k < 2 ^ 16 =
      omega (arith, mod-lt s.acc (pow_pos k), pow_mono k 16 (omega arith)) in
    rw (left, bit_and_mask k s.acc, mod-eq_of_lt high, mod-eq_of_lt low)

pub emit-Carries :
    (w k : ℕ) (s : Regroup) {bits : List ℕ}
    → Carries w s bits
    → s.acc_bits ≡ w + k
    → w ≤ 8
    → s.acc_bits ≤ 16
    → Carries w (emit w s) bits
emit-Carries w k s {bits} c split narrow room =
    rw (emit_plain w k s split narrow room c.small) (record {
      held =
          rw (stream-append w s.ret (s.acc / 2 ^ k ∷ []), append_assoc)
            (ap (λ (t : List ℕ). stream w s.ret ++ t) (sym both) ∙ c.held);
      small = mod-lt s.acc (pow_pos k);
      fits =
          All-append (λ x. x < 2 ^ w) s.ret (s.acc / 2 ^ k ∷ []) c.fits
            (high-lt w k s.acc (rw split at c.small), tt);
    })
  where
    both : to_bits s.acc_bits s.acc ≡ stream w (s.acc / 2 ^ k ∷ []) ++ to_bits k (s.acc % 2 ^ k)
    both = rw split (
        ap (to_bits (w + k)) (sym (parts_join k s.acc))
        ∙ to_bits_join w k (s.acc / 2 ^ k) (s.acc % 2 ^ k) (mod-lt s.acc (pow_pos k))
        ∙ rw (stream-single w (s.acc / 2 ^ k)))

emit_bits : (w : ℕ) (s : Regroup) → (emit w s).acc_bits ≡ s.acc_bits - w
unfolding emit
emit_bits w s = refl

drain_stop : (fuel w : ℕ) (s : Regroup) → leb w s.acc_bits ≡ false → drain fuel w s ≡ s
unfolding drain
drain_stop zero w s e = refl
drain_stop (suc fuel) w s e = rw e

drain_step :
    (fuel w : ℕ) (s : Regroup)
    → leb w s.acc_bits ≡ true
    → drain (suc fuel) w s ≡ drain fuel w (emit w s)
unfolding drain
drain_step fuel w s e = rw e

-- Between two bytes less than a group is held back.
pub record Rests (w : ℕ) (s : Regroup) (bits : List ℕ) : Type 0 where
  pub carries : Carries w s bits
  pub short : s.acc_bits < w

-- The inner loop ends by its test, with less than a group held back.
pub drain-Rests :
    (fuel w : ℕ) (s : Regroup) {bits : List ℕ}
    → s.acc_bits ≤ fuel
    → 0 < w
    → w ≤ 8
    → s.acc_bits ≤ 16
    → Carries w s bits
    → Rests w (drain fuel w s) bits
drain-Rests zero w s below pos narrow room c =
    unfold drain in record { carries = c; short = omega arith }
drain-Rests (suc fuel) w s {bits} below pos narrow room c = elim (Bool-cases (leb w s.acc_bits)) [
  | inl more ↦
      let enough : w ≤ s.acc_bits = ground arith in
      let c' = emit-Carries w (s.acc_bits - w) s c (omega arith) narrow room in
      let left = emit_bits w s in
      rw (drain_step fuel w s more)
        (drain-Rests fuel w (emit w s) (omega (arith, left)) pos narrow (omega (arith, left)) c')
  | inr done ↦ rw (drain_stop (suc fuel) w s done) (record { carries = c; short = ground arith })
]

absorb_bits : (inbits d : ℕ) (s : Regroup) → (absorb inbits d s).acc_bits ≡ s.acc_bits + inbits
unfolding absorb
absorb_bits inbits d s = refl

-- The loop over the bytes takes the bits of each of them in.
pub convert_loop-Rests :
    (inbits w : ℕ) (bytes : Bytes) (s : Regroup) {bits : List ℕ}
    → 0 < w
    → w ≤ 8
    → inbits ≤ 8
    → Fits inbits bytes
    → Rests w s bits
    → Rests w (convert_loop inbits w bytes s) (bits ++ stream inbits bytes)
convert_loop-Rests inbits w [] s {bits} pos narrow narrow' h r =
    unfold convert_loop stream in rw (append-nil bits) r
convert_loop-Rests inbits w (d ∷ rest) s {bits} pos narrow narrow' (hd, h) r =
    let short = r.short in
    let t = absorb inbits d s in
    let taken = absorb_bits inbits d s in
    let c = absorb-Carries w inbits d s r.carries hd (omega arith) in
    let r' = drain-Rests t.acc_bits w t (omega arith) pos narrow (omega (arith, taken)) c in
    loop (convert_loop-Rests inbits w rest (drain t.acc_bits w t) pos narrow narrow' h r')
  where
    t : Regroup
    t = absorb inbits d s

    loop :
        Rests w
          (convert_loop inbits w rest (drain t.acc_bits w t))
          ((bits ++ to_bits inbits d) ++ stream inbits rest)
        → Rests w (convert_loop inbits w (d ∷ rest) s) (bits ++ stream inbits (d ∷ rest))
    loop x =
        unfold convert_loop stream in
        subst (λ u. Rests w (convert_loop inbits w rest (drain t.acc_bits w t)) u)
          (append_assoc bits (to_bits inbits d) (stream inbits rest)) x

pub start-Rests : (w : ℕ) → 0 < w → Rests w start []
unfolding stream to_bits
start-Rests w pos = record {
  carries = record { held = refl; small = omega arith; fits = tt };
  short = pos;
}

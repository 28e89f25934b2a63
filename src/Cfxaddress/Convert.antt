-- ===== src/Cfxaddress/Convert.antt =====
-- cfxaddress/lib.cpp: regrouping the bits of a byte vector (`convert`).
pub mod BitStream
pub mod Regroups
pub mod RoundTrip
use cpp_conflux_sdk.Common.{
  ℕ, zero, suc, ◌+◌, ◌-◌, ◌*◌, ◌/◌, ◌%◌, ◌^◌, bit_and, bit_or, Bool, ◌&&◌, ◌||◌, [], ◌∷◌, ◌++◌,
  Bytes, ltb, leb, if◌then◌else◌, bytes_eq,
}

-- The variables of the loops: `acc` is a `uint16_t`, `accBits` a `uint32_t`.
pub record Regroup : Type 0 where
  pub ret : Bytes
  pub acc : ℕ
  pub acc_bits : ℕ

-- One round of `while (accBits >= outbits)`.
unfoldable pub emit : ℕ → Regroup → Regroup
emit outbits s =
    let k = s.acc_bits - outbits in
    record {
      ret = s.ret ++ (s.acc / 2 ^ k % 2 ^ 8 ∷ []);
      acc = bit_and s.acc (2 ^ k - 1) % 2 ^ 16;
      acc_bits = k;
    }

-- The loop takes at most `accBits` rounds, since `outbits` is not 0 in any call; for 0 the source
-- does not terminate.
unfoldable pub drain : ℕ → ℕ → Regroup → Regroup
drain zero outbits s = s
drain (suc fuel) outbits s =
    let more = drain fuel outbits (emit outbits s) in if leb outbits s.acc_bits then more else s

-- `acc = acc << inbits | d; accBits += inbits;`
unfoldable pub absorb : ℕ → ℕ → Regroup → Regroup
absorb inbits d s = record s {
  acc = bit_or (s.acc * 2 ^ inbits) d % 2 ^ 16;
  acc_bits = s.acc_bits + inbits;
}

unfoldable pub convert_loop : ℕ → ℕ → Bytes → Regroup → Regroup
convert_loop inbits outbits [] s = s
convert_loop inbits outbits (d ∷ rest) s =
    let t = absorb inbits d s in convert_loop inbits outbits rest (drain t.acc_bits outbits t)

-- What is left over is padded with zero bits, if the groups get shorter.
unfoldable pub finish : ℕ → ℕ → Regroup → Bytes
finish inbits outbits s =
    if ltb 0 s.acc_bits && ltb outbits inbits
    then s.ret ++ (s.acc * 2 ^ (outbits - s.acc_bits) % 2 ^ 8 ∷ [])
    else s.ret

abbrev pub start : Regroup
start = record { ret = []; acc = 0; acc_bits = 0 }

unfoldable pub convert : Bytes → ℕ → ℕ → Bytes
convert bytes inbits outbits =
    if ltb 8 inbits || ltb 8 outbits
    then []
    else finish inbits outbits (convert_loop inbits outbits bytes start)

pub verify_convert : Bytes → ℕ → ℕ → Bytes → Bool
verify_convert ihnput inbits outbits expect_output =
    bytes_eq (convert ihnput inbits outbits) expect_output

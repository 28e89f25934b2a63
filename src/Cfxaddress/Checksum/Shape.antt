-- ===== src/Cfxaddress/Checksum/Shape.antt =====
-- What the checksum is: eight numbers of five bits, which are the 40 bits of the polynomial.
use cpp_conflux_sdk.Common.{
  ℕ, ◌*◌, ◌≡◌, ap, ◌∙◌, ◌++◌, arith, Bytes, length, length-append, append-nil, replicate,
  length-replicate, drop,
}
use cpp_conflux_sdk.Cfxaddress.Convert.BitStream.{to_bits, stream, Fits, length-stream}
use cpp_conflux_sdk.Cfxaddress.Convert.RoundTrip.{convert-Padded, length-convert}
use cpp_conflux_sdk.Cfxaddress.Convert.{convert}
use cpp_conflux_sdk.Cfxaddress.Polymod.{polymod, uint64_to_bytes}
use cpp_conflux_sdk.Cfxaddress.Polymod.Bounds.{checksum_bytes}
use cpp_conflux_sdk.Cfxaddress.NetworkType.{NetworkType}
use cpp_conflux_sdk.Cfxaddress.Body.{Body}
use cpp_conflux_sdk.Cfxaddress.Checksum.{checksum_input, calc_checksum}

-- Where the groups come out even, no bit is added.
exact_groups :
    (inbits w : ℕ) (bytes out : Bytes) (pad : ℕ)
    → stream w out ≡ stream inbits bytes ++ replicate pad 0
    → w * length out ≡ inbits * length bytes
    → stream w out ≡ stream inbits bytes
exact_groups inbits w bytes out pad e even =
    let none : pad ≡ 0 = omega (
      arith,
      length-append (stream inbits bytes) (replicate pad 0),
      length-stream w out,
      length-stream inbits bytes,
      length-replicate {A = ℕ} pad 0,
      ap length e,
    ) in
    e ∙ rw none (append-nil (stream inbits bytes))

-- The checksum has eight numbers of five bits, and they are the lowest 40 bits of the polynomial's
-- value on the prefix, the separator, the body and the template, highest bit first.
pub calc_checksum_bits :
    (nt : NetworkType) (b : Body)
    → (stream 5 (calc_checksum nt b) ≡ to_bits 40 (polymod (checksum_input nt b)))
      × Fits 5 (calc_checksum nt b)
      × (length (calc_checksum nt b) ≡ 8)
unfolding calc_checksum
calc_checksum_bits nt b =
    let value = polymod (checksum_input nt b) in
    let (bits, bytes, five) = checksum_bytes value in
    let (pad, (padded, fits, small)) =
      convert-Padded _ 8 5 (omega arith) (omega arith) (omega arith) bytes in
    let size = length-convert _ 8 5 (omega arith) (omega arith) (omega arith) bytes in
    let eight : length (convert (drop 3 (uint64_to_bytes value)) 8 5) ≡ 8 =
      omega (arith, size, five) in
    (exact_groups 8 5 _ _ pad padded (omega (arith, five, eight)) ∙ bits, fits, eight)

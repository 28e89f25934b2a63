-- ===== src/Cfxaddress/Checksum/Detects.antt =====
-- The checksum tells payloads apart that differ in one symbol.
use cpp_conflux_sdk.Common.{
  ℕ, ◌^◌, ◌<◌, ◌≡◌, ◌≢◌, refl, sym, ap, ◌∙◌, [], ◌∷◌, ◌++◌, append_assoc, arith, Bytes, All,
  All-append, bit_and, replicate, IsByte, map,
}
use cpp_conflux_sdk.Common.Bits.{bit_and_mask}
use cpp_conflux_sdk.Cfxaddress.Convert.BitStream.{to_bits, stream, to_bits-injective}
use cpp_conflux_sdk.Cfxaddress.NetworkType.{NetworkType}
use cpp_conflux_sdk.Cfxaddress.Body.{Body}
use cpp_conflux_sdk.Cfxaddress.Polymod.{polymod}
use cpp_conflux_sdk.Cfxaddress.Polymod.Bounds.{polymod-lt}
use cpp_conflux_sdk.Cfxaddress.Polymod.Detects.{Fives, polymod_detects}
use cpp_conflux_sdk.Cfxaddress.Checksum.{checksum_input, calc_checksum}
use cpp_conflux_sdk.Cfxaddress.Checksum.Shape.{calc_checksum_bits}

abbrev pub with_symbol : Bytes → ℕ → Bytes → Body
with_symbol front d rest = record { body = front ++ (d ∷ rest) }

prefix_part : NetworkType → Bytes
prefix_part nt = map (λ c. bit_and c 0x1f) nt.net_work_type_str

prefix_part-Fives : (s : Bytes) → Fives (map (λ c. bit_and c 0x1f) s)
prefix_part-Fives [] = tt
prefix_part-Fives (c ∷ s) = (omega (arith, bit_and_mask 5 c), prefix_part-Fives s)

template-Fives : Fives (replicate 8 0)
template-Fives = ground arith

-- What the polynomial is applied to, split at the symbol.
checksum_input-with_symbol :
    (nt : NetworkType) (front rest : Bytes) (d : ℕ)
    → checksum_input nt (with_symbol front d rest)
      ≡ (prefix_part nt ++ (0 ∷ front)) ++ (d ∷ (rest ++ replicate 8 0))
unfolding checksum_input prefix_part
checksum_input-with_symbol nt front rest d =
    rw
      (
        append_assoc front (d ∷ rest) (replicate 8 0),
        append_assoc (prefix_part nt) (0 ∷ front) (d ∷ (rest ++ replicate 8 0)),
      )
      refl

Fives-IsByte : (v : Bytes) → Fives v → All IsByte v
Fives-IsByte [] h = tt
Fives-IsByte (x ∷ v) (hx, h) = (omega arith, Fives-IsByte v h)

-- Two payloads of five-bit symbols that differ in exactly one place have different checksums on each
-- network.
pub calc_checksum_detects :
    (nt : NetworkType) (front rest : Bytes) (d d' : ℕ)
    → Fives front
    → Fives rest
    → d < 2 ^ 5
    → d' < 2 ^ 5
    → d ≢ d'
    → calc_checksum nt (with_symbol front d rest) ≢ calc_checksum nt (with_symbol front d' rest)
calc_checksum_detects nt front rest d d' hf hr hd hd' ne e =
    polymod_detects (prefix_part nt ++ (0 ∷ front)) (rest ++ replicate 8 0) d d' before after hd hd'
      ne
      (to_bits-injective 40 _ _ (small d hd) (small d' hd')
        (sym (bits d) ∙ ap (stream 5) e ∙ bits d'))
  where
    before : Fives (prefix_part nt ++ (0 ∷ front))
    before =
        All-append (λ x. x < 2 ^ 5) (prefix_part nt) (0 ∷ front)
          (unfold prefix_part in prefix_part-Fives nt.net_work_type_str) (omega arith, hf)

    after : Fives (rest ++ replicate 8 0)
    after = All-append (λ x. x < 2 ^ 5) rest (replicate 8 0) hr template-Fives

    input : ℕ → Bytes
    input x = (prefix_part nt ++ (0 ∷ front)) ++ (x ∷ (rest ++ replicate 8 0))

    small : (x : ℕ) → x < 2 ^ 5 → polymod (input x) < 2 ^ 40
    small x hx = polymod-lt (input x) (
        Fives-IsByte _
          (All-append (λ y. y < 2 ^ 5) _ (x ∷ (rest ++ replicate 8 0)) before (hx, after)))

    bits :
        (x : ℕ)
        → stream 5 (calc_checksum nt (with_symbol front x rest)) ≡ to_bits 40 (polymod (input x))
    bits x =
        (calc_checksum_bits nt (with_symbol front x rest)).0
        ∙ ap (λ (t : Bytes). to_bits 40 (polymod t)) (checksum_input-with_symbol nt front rest x)

-- ===== src/CommonData/Endian/Compact.antt =====
-- The fewest bytes that hold a number.
use native.Mathlib.Nat.{mod-eq_of_lt}
use cpp_conflux_sdk.Common.{
  ℕ, zero, suc, ◌+◌, ◌*◌, ◌/◌, ◌^◌, ◌≤◌, ◌<◌, ◌≡◌, ap, ◌∙◌, max, arith, ◌==◌, Bool-cases, inl, inr,
  length, ◌↔◌,
}
use cpp_conflux_sdk.Common.Bits.{pow_add, pow_mono}
use cpp_conflux_sdk.CommonData.Endian.{
  from_big_endian, count_bytes, bytes_required, to_compact_big_endian,
}
use cpp_conflux_sdk.CommonData.Endian.RoundTrip.{
  from_big_endian-to_big_endian, length-to_big_endian,
}

eight_more : (k : ℕ) → 2 ^ (8 * suc k) ≡ 2 ^ (8 * k) * 256
eight_more k =
    let bits : 8 * suc k ≡ 8 * k + 8 = omega arith in ap (λ (n : ℕ). 2 ^ n) bits ∙ pow_add (8 * k) 8

-- The number fits into the counted bytes.
count_bytes-fits : (fuel i : ℕ) → i ≤ fuel → i < 2 ^ (8 * count_bytes fuel i)
unfolding count_bytes
count_bytes-fits zero i h = omega arith
count_bytes-fits (suc fuel) i h = elim (Bool-cases (i == 0)) [
  | inl none ↦ rw none (ground arith)
  | inr some ↦
      let ih = count_bytes-fits fuel (i / 2 ^ 8) (ground arith) in
      rw some (omega (arith, ih, eight_more (count_bytes fuel (i / 2 ^ 8))))
]

-- It does not fit into fewer.
count_bytes-least : (fuel i n : ℕ) → i ≤ fuel → i < 2 ^ (8 * n) → count_bytes fuel i ≤ n
unfolding count_bytes
count_bytes-least zero i n h fits = omega arith
count_bytes-least (suc fuel) i n h fits = elim (Bool-cases (i == 0)) [
  | inl none ↦ rw none (omega arith)
  | inr some ↦ rw some (
      elim n as (λ m. i < 2 ^ (8 * m) → suc (count_bytes fuel (i / 2 ^ 8)) ≤ m) [
        | zero ↦ λ small. absurd (ground arith)
        | suc m ↦ λ small. omega (
          arith,
          count_bytes-least fuel (i / 2 ^ 8) m (ground arith) (omega (arith, small, eight_more m)),
        )
      ]
        fits)
]

-- A number fits into `n` bytes exactly if `n` is no less than what `bytesRequired` answers.
pub bytes_required_iff : (i n : ℕ) → (i < 2 ^ (8 * n)) ↔ (bytes_required i ≤ n)
unfolding bytes_required
bytes_required_iff i n = (
  count_bytes-least i i n (omega arith),
  λ enough. omega (
    arith,
    count_bytes-fits i i (omega arith),
    pow_mono (8 * count_bytes i i) (8 * n) (omega arith),
  ),
)

-- The compact bytes of a number that the type holds are read back as the number, and there are as
-- many as asked for or as the number requires, whichever is more.
pub from_big_endian-to_compact_big_endian :
    (w val least : ℕ)
    → val < 2 ^ w
    → (from_big_endian w (to_compact_big_endian val least) ≡ val)
      × (length (to_compact_big_endian val least) ≡ max least (bytes_required val))
unfolding to_compact_big_endian
from_big_endian-to_compact_big_endian w val least h =
    let fits : val < 2 ^ (8 * max least (bytes_required val)) =
      (bytes_required_iff val (max least (bytes_required val))).1 (omega arith) in
    (from_big_endian-to_big_endian w _ val h ∙ mod-eq_of_lt fits, length-to_big_endian _ val)

-- ===== src/CommonData/Sequences/CommonPrefix.antt =====
-- The common prefix of two collections.
use cpp_conflux_sdk.Common.{
  ℕ, zero, suc, ◌%◌, ◌^◌, ◌≤◌, ◌<◌, ◌≡◌, ◌↔◌, refl, ap, ap₂, ◌∙◌, min, Bool-cases, inl, inr, [],
  ◌∷◌, arith, Bytes, length, take, drop, sym, get_or, ◌==◌,
}
use cpp_conflux_sdk.CommonData.Sequences.{common_prefix_loop, common_prefix}

-- The first `k` elements are there on both sides and are the same.
abbrev pub Shared : ℕ → Bytes → Bytes → Type 0
Shared k t u = (k ≤ length t) × (k ≤ length u) × (take k t ≡ take k u)

loop-Shared :
    (s : ℕ) (t u : Bytes) → s ≤ length t → s ≤ length u → Shared (common_prefix_loop s t u) t u
unfolding common_prefix_loop
loop-Shared zero t u ht hu = (omega arith, omega arith, refl)
loop-Shared (suc s) [] u ht hu = absurd (omega arith)
loop-Shared (suc s) (x ∷ t) [] ht hu = absurd (omega arith)
loop-Shared (suc s) (x ∷ t) (y ∷ u) ht hu = elim (Bool-cases (x == y)) [
  | inl same ↦
      let (a, b, c) = loop-Shared s t u (omega arith) (omega arith) in
      let first : x ≡ y = ground arith in
      rw same (omega arith, omega arith, ap₂ (λ (z : ℕ) (v : Bytes). z ∷ v) first c)
  | inr other ↦ rw other (omega arith, omega arith, refl)
]

loop-longest :
    (s k : ℕ) (t u : Bytes)
    → k ≤ s
    → k ≤ length t
    → k ≤ length u
    → take k t ≡ take k u
    → k ≤ common_prefix_loop s t u
unfolding common_prefix_loop
loop-longest s zero t u le ht hu e = omega arith
loop-longest zero (suc k) t u le ht hu e = absurd (omega arith)
loop-longest (suc s) (suc k) [] u le ht hu e = absurd (omega arith)
loop-longest (suc s) (suc k) (x ∷ t) [] le ht hu e = absurd (omega arith)
loop-longest (suc s) (suc k) (x ∷ t) (y ∷ u) le ht hu e =
    let first : x ≡ y = ap (λ (v : Bytes). get_or v 0 0) e in
    let rest : take k t ≡ take k u = ap (λ (v : Bytes). drop 1 v) e in
    let ih = loop-longest s k t u (omega arith) (omega arith) (omega arith) rest in
    ground (arith, first, ih)

take_fewer : (k n : ℕ) (s : Bytes) → k ≤ n → take k (take n s) ≡ take k s
take_fewer zero n s h = refl
take_fewer (suc k) zero s h = absurd (omega arith)
take_fewer (suc k) (suc n) [] h = refl
take_fewer (suc k) (suc n) (x ∷ s) h =
    ap (λ (v : Bytes). x ∷ v) (take_fewer k n s (omega (arith, h)))

-- For collections of fewer than 2 ^ 32 elements: the first `k` elements are there on both sides and
-- are the same exactly if `k` is at most what `commonPrefix` answers.
pub common_prefix_iff :
    (t u : Bytes) (k : ℕ)
    → length t < 2 ^ 32
    → length u < 2 ^ 32
    → Shared k t u ↔ (k ≤ common_prefix t u)
unfolding common_prefix
common_prefix_iff t u k ht hu =
    let (a, b, c) = loop-Shared size t u (omega arith) (omega arith) in
    (
      λ (p, q, e). loop-longest size k t u (omega arith) p q e,
      λ le. (
        omega arith,
        omega arith,
        sym (take_fewer k _ t le) ∙ ap (take k) c ∙ take_fewer k _ u le,
      ),
    )
  where
    size : ℕ
    size = min (length t % 2 ^ 32) (length u % 2 ^ 32)

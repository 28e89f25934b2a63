-- ===== src/StringUtil/Split.antt =====
-- `split_string` against joining with the separator.
use native.Mathlib.Decide.{ℕ_discrete}
use cpp_conflux_sdk.Common.{
  ℕ, zero, suc, ◌≤◌, ◌<◌, ◌≡◌, refl, ap, ◌∙◌, ◌≢◌, none, some, List, [], ◌∷◌, ◌++◌, arith, Bytes,
  length, length-append, take, drop, take-append_length, subst, drop-suc_append, All,
}
use cpp_conflux_sdk.StringUtil.{find, split_loop, split_string}

abbrev pub Lacks : ℕ → Bytes → Type 0
Lacks a = All (λ c. c ≢ a)

-- The parts with the separator between them.
unfoldable pub join : ℕ → List Bytes → Bytes
join a [] = []
join a (p ∷ []) = p
join a (p ∷ (q ∷ ps)) = p ++ (a ∷ join a (q ∷ ps))

find-append : (a : ℕ) (p rest : Bytes) → Lacks a p → find a (p ++ (a ∷ rest)) ≡ some (length p)
unfolding find
find-append a [] rest h = ground arith
find-append a (c ∷ p) rest (hc, h) = ground (arith, find-append a p rest h)

find-eq-none : (a : ℕ) (s : Bytes) → Lacks a s → find a s ≡ none
unfolding find
find-eq-none a [] h = refl
find-eq-none a (c ∷ s) (hc, h) = ground (arith, find-eq-none a s h)

-- What a search finds: the text has no separator, or it is cut at the first.
data Found (a : ℕ) (s : Bytes) : Type 0 where
  nowhere : find a s ≡ none → Lacks a s → Found a s
  first :
      (p : ℕ)
      → find a s ≡ some p
      → Lacks a (take p s)
      → take p s ++ (a ∷ drop (suc p) s) ≡ s
      → length (drop (suc p) s) < length s
      → Found a s

find-Found : (a : ℕ) (s : Bytes) → Found a s
find-Found a [] = nowhere (unfold find in refl) tt
find-Found a (c ∷ s) = elim (ℕ_discrete c a) [
  | yes e ↦ first 0 (unfold find in ground arith) tt (ground arith) (ground arith)
  | no ne ↦ later (find-Found a s) ne
]
  where
    later : Found a s → c ≢ a → Found a (c ∷ s)
    later (nowhere e h) ne = nowhere (unfold find in ground arith) (ne, h)
    later (first p e h cut shorter) ne =
        first (suc p) (unfold find in ground arith) (ne, h) (ap (λ (t : Bytes). c ∷ t) cut)
          (omega (arith, shorter))

split_loop-none :
    (fuel a : ℕ) (rest : Bytes) → find a rest ≡ none → split_loop fuel a rest ≡ rest ∷ []
unfolding split_loop
split_loop-none zero a rest e = refl
split_loop-none (suc fuel) a rest e = rw (e, split_loop)

split_loop-some :
    (fuel a p : ℕ) (rest : Bytes)
    → find a rest ≡ some p
    → split_loop (suc fuel) a rest ≡ take p rest ∷ split_loop fuel a (drop (suc p) rest)
unfolding split_loop
split_loop-some fuel a p rest e = rw (e, split_loop)

-- With enough fuel the parts have no separator, and joined they give the text.
abbrev Splits : ℕ → Bytes → List Bytes → Type 0
Splits a s parts = All (Lacks a) parts × (join a parts ≡ s) × (0 < length parts)

append_part :
    (a : ℕ) (p r : Bytes) (ps : List Bytes)
    → Lacks a p
    → Splits a r ps
    → Splits a (p ++ (a ∷ r)) (p ∷ ps)
append_part a p r [] hp (h, e, pos) = absurd (omega arith)
append_part a p r (q ∷ ps) hp (h, e, pos) = ((hp, h), unfold join in rw e refl, omega arith)

no_separator : (a : ℕ) (rest : Bytes) → Lacks a rest → Splits a rest (rest ∷ [])
unfolding join
no_separator a rest h = ((h, tt), refl, omega arith)

split_loop-Splits :
    (fuel a : ℕ) (rest : Bytes) → length rest ≤ fuel → Splits a rest (split_loop fuel a rest)
split_loop-Splits zero a [] h = unfold split_loop in no_separator a [] tt
split_loop-Splits zero a (c ∷ rest) h = absurd (omega arith)
split_loop-Splits (suc fuel) a rest h = elim (find-Found a rest) [
  | nowhere e lacks ↦ rw (split_loop-none (suc fuel) a rest e) (no_separator a rest lacks)
  | first p e lacks cut shorter ↦ rw (split_loop-some fuel a p rest e) (
      subst (λ t. Splits a t (take p rest ∷ split_loop fuel a (drop (suc p) rest))) cut
        (append_part a (take p rest) (drop (suc p) rest) _ lacks
          (split_loop-Splits fuel a (drop (suc p) rest) (omega (arith, shorter)))))
]

-- The parts that `split_string` returns are one at least, none of them has the separator in it, and
-- joined by the separator they are the text that was split.
pub join-split_string :
    (s : Bytes) (a : ℕ)
    → All (Lacks a) (split_string s a)
      × (join a (split_string s a) ≡ s)
      × (0 < length (split_string s a))
unfolding split_string
join-split_string s a = split_loop-Splits (length s) a s (omega arith)

join-cons :
    (a : ℕ) (p q : Bytes) (ps : List Bytes) → join a (p ∷ (q ∷ ps)) ≡ p ++ (a ∷ join a (q ∷ ps))
unfolding join
join-cons a p q ps = refl

-- One round of the loop on a part, the separator and a rest.
split_loop_step :
    (fuel a : ℕ) (p rest : Bytes)
    → Lacks a p
    → split_loop (suc fuel) a (p ++ (a ∷ rest)) ≡ p ∷ split_loop fuel a rest
split_loop_step fuel a p rest h =
    split_loop-some fuel a (length p) (p ++ (a ∷ rest)) (find-append a p rest h)
    ∙ rw (take-append_length (length p) p (a ∷ rest) refl, drop-suc_append p a rest)

split_loop-join :
    (fuel a : ℕ) (p : Bytes) (ps : List Bytes)
    → All (Lacks a) (p ∷ ps)
    → length (join a (p ∷ ps)) ≤ fuel
    → split_loop fuel a (join a (p ∷ ps)) ≡ p ∷ ps
split_loop-join fuel a p [] (h, _) enough =
    unfold join in split_loop-none fuel a p (find-eq-none a p h)
split_loop-join zero a p (q ∷ ps) (h, hs) enough =
    let fits : length (p ++ (a ∷ join a (q ∷ ps))) ≤ 0 = rw join-cons at enough in
    absurd (omega (arith, length-append p (a ∷ join a (q ∷ ps))))
split_loop-join (suc fuel) a p (q ∷ ps) (h, hs) enough =
    let fits : length (p ++ (a ∷ join a (q ∷ ps))) ≤ suc fuel = rw join-cons at enough in
    let left =
      split_loop-join fuel a q ps hs (omega (arith, length-append p (a ∷ join a (q ∷ ps)))) in
    rw join-cons
      (split_loop_step fuel a p (join a (q ∷ ps)) h ∙ ap (λ (t : List Bytes). p ∷ t) left)

-- Parts without the separator, one at least, are what splitting their join gives.
pub split_string-join :
    (a : ℕ) (p : Bytes) (ps : List Bytes)
    → All (Lacks a) (p ∷ ps)
    → split_string (join a (p ∷ ps)) a ≡ p ∷ ps
unfolding split_string
split_string-join a p ps h = split_loop-join _ a p ps h (omega arith)

-- ===== src/Cfxaddress/Regex/Forward.antt =====
-- Texts that a pattern matches, one rule for each form of pattern.
use cpp_conflux_sdk.Common.{ℕ, ◌<◌, ◌≡◌, Bool, true, [], ◌∷◌, ◌++◌, arith, Bytes, All, length}
use cpp_conflux_sdk.Cfxaddress.Regex.{
  Regex, literal, seq, alt, times, plus, match_literal, match_times, match_plus, match_with,
}

match_literal-append :
    (w t : Bytes) (k : Bytes → Bool) → k t ≡ true → match_literal w (w ++ t) k ≡ true
unfolding match_literal
match_literal-append [] t k h = h
match_literal-append (c ∷ w) t k h = ground (arith, match_literal-append w t k h)

match_times-append :
    (p : ℕ → Bool) (xs t : Bytes) (k : Bytes → Bool)
    → All (λ c. p c ≡ true) xs
    → k t ≡ true
    → match_times (length xs) p (xs ++ t) k ≡ true
unfolding match_times
match_times-append p [] t k h e = e
match_times-append p (c ∷ xs) t k (hc, h) e = rw (hc, match_times-append p xs t k h e)

match_plus-append :
    (p : ℕ → Bool) (xs t : Bytes) (k : Bytes → Bool)
    → All (λ c. p c ≡ true) xs
    → 0 < length xs
    → k t ≡ true
    → match_plus p (xs ++ t) k ≡ true
unfolding match_plus
match_plus-append p [] t k h some e = absurd (omega arith)
match_plus-append p (c ∷ []) t k (hc, h) some e = rw (hc, e)
match_plus-append p (c ∷ (d ∷ xs)) t k (hc, h) some e =
    rw (hc, match_plus-append p (d ∷ xs) t k h (omega arith) e) (ground arith)

pub matches_literal :
    (w t : Bytes) (k : Bytes → Bool) → k t ≡ true → match_with (literal w) (w ++ t) k ≡ true
unfolding match_with
matches_literal w t k h = match_literal-append w t k h

pub matches_seq :
    (a b : Regex) (s : Bytes) (k : Bytes → Bool)
    → match_with a s (λ t. match_with b t k) ≡ true
    → match_with (seq a b) s k ≡ true
unfolding match_with
matches_seq a b s k h = h

pub matches_left :
    (a b : Regex) (s : Bytes) (k : Bytes → Bool)
    → match_with a s k ≡ true
    → match_with (alt a b) s k ≡ true
unfolding match_with
matches_left a b s k h = rw h

pub matches_right :
    (a b : Regex) (s : Bytes) (k : Bytes → Bool)
    → match_with b s k ≡ true
    → match_with (alt a b) s k ≡ true
unfolding match_with
matches_right a b s k h = ground arith

pub matches_times :
    (n : ℕ) (p : ℕ → Bool) (xs t : Bytes) (k : Bytes → Bool)
    → length xs ≡ n
    → All (λ c. p c ≡ true) xs
    → k t ≡ true
    → match_with (times n p) (xs ++ t) k ≡ true
unfolding match_with
matches_times n p xs t k size h e = rw (← size) (match_times-append p xs t k h e)

pub matches_plus :
    (p : ℕ → Bool) (xs t : Bytes) (k : Bytes → Bool)
    → All (λ c. p c ≡ true) xs
    → 0 < length xs
    → k t ≡ true
    → match_with (plus p) (xs ++ t) k ≡ true
unfolding match_with
matches_plus p xs t k h some e = match_plus-append p xs t k h some e

-- ===== src/Cfxaddress/Regex.antt =====
-- The part of `std::regex` (ECMAScript) that address.cpp uses, as a backtracking matcher: what is
-- matched, and a test on the text that is left.
pub mod Forward
use cpp_conflux_sdk.Common.{ℕ, zero, suc, Bool, true, false, ◌&&◌, ◌||◌, [], ◌∷◌, Bytes, leb, ◌==◌}

pub data Regex : Type 0 where
  literal : Bytes → Regex
  seq : Regex → Regex → Regex
  alt : Regex → Regex → Regex
  times : ℕ → (ℕ → Bool) → Regex
  plus : (ℕ → Bool) → Regex

unfoldable pub match_literal : Bytes → Bytes → (Bytes → Bool) → Bool
match_literal [] s k = k s
match_literal (w ∷ ws) [] k = false
match_literal (w ∷ ws) (c ∷ s) k = c == w && match_literal ws s k

pub match_times : ℕ → (ℕ → Bool) → Bytes → (Bytes → Bool) → Bool
match_times zero p s k = k s
match_times (suc n) p [] k = false
match_times (suc n) p (c ∷ s) k = p c && match_times n p s k

pub match_plus : (ℕ → Bool) → Bytes → (Bytes → Bool) → Bool
match_plus p [] k = false
match_plus p (c ∷ s) k = p c && (k s || match_plus p s k)

unfoldable pub match_with : Regex → Bytes → (Bytes → Bool) → Bool
match_with (literal w) s k = match_literal w s k
match_with (seq a b) s k = match_with a s (λ t. match_with b t k)
match_with (alt a b) s k = match_with a s k || match_with b s k
match_with (times n p) s k = match_times n p s k
match_with (plus p) s k = match_plus p s k

abbrev pub at_end : Bytes → Bool
at_end [] = true
at_end (c ∷ s) = false

-- `std::regex_match`: the whole text is matched.
unfoldable pub regex_match : Bytes → Regex → Bool
regex_match s r = match_with r s at_end

-- `\d` and `\w` in the "C" locale.
abbrev pub digit_class : ℕ → Bool
digit_class c = leb b'0' c && leb c b'9'

abbrev pub word_class : ℕ → Bool
word_class c =
    (leb b'a' c && leb c b'z') || ((leb b'A' c && leb c b'Z') || (digit_class c || c == b'_'))

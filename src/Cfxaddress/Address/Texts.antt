-- ===== src/Cfxaddress/Address/Texts.antt =====
-- The texts of the address that twenty bytes make: their characters, and the patterns they match.
use cpp_conflux_sdk.Common.{
  ℕ, ◌≡◌, refl, sym, ap, ◌∙◌, Bool, true, false, [], ◌∷◌, ◌++◌, arith, Bytes, codes, length,
  length-append, All, All-append, append-nil,
}
use cpp_conflux_sdk.Common.Outcome.{ok}
use cpp_conflux_sdk.StringUtil.{starts_with}
use cpp_conflux_sdk.StringUtil.Affix.{starts_with_value}
use cpp_conflux_sdk.Cfxaddress.Regex.{
  times, match_with, match_literal, regex_match, at_end, word_class,
}
use cpp_conflux_sdk.Cfxaddress.Regex.Forward.{
  matches_literal, matches_seq, matches_left, matches_right, matches_times, matches_plus,
}
use cpp_conflux_sdk.Cfxaddress.NetworkType
use cpp_conflux_sdk.Cfxaddress.NetworkType.Prefix.{Prefix, mainnet, testnet, numbered, IsPlain}
use cpp_conflux_sdk.Cfxaddress.Body.{bits5s_to_string}
use cpp_conflux_sdk.Cfxaddress.Body.RoundTrip.{
  IsSymbol, bits5s_to_string-IsSymbol, length-bits5s_to_string,
}
use cpp_conflux_sdk.Cfxaddress.Checksum.{calc_checksum}
use cpp_conflux_sdk.Cfxaddress.Checksum.Shape.{calc_checksum_bits}
use cpp_conflux_sdk.Cfxaddress.Address.{hex_pattern, network_pattern, type_pattern, base32_pattern}
use cpp_conflux_sdk.Cfxaddress.Address.Made.{payload, IsHex20, payload-Fits}

-- The symbols of the payload and of its checksum, as they stand behind the last separator.
unfoldable pub payload_symbols : Bytes → Bytes
payload_symbols hex = bits5s_to_string (payload hex).body

unfoldable pub checksum_symbols : Bytes → ℕ → Bytes
checksum_symbols hex id = bits5s_to_string (calc_checksum (NetworkType.of_id id) (payload hex))

pub length-payload_symbols : (hex : Bytes) → IsHex20 hex → length (payload_symbols hex) ≡ 34
unfolding payload_symbols
length-payload_symbols hex h = length-bits5s_to_string (payload hex).body ∙ (payload-Fits hex h).1

-- Eight symbols, such as the checksum's.
abbrev pub IsCheck : Bytes → Type 0
IsCheck chk = All IsSymbol chk × (length chk ≡ 8)

pub checksum_symbols-IsCheck : (hex : Bytes) (id : ℕ) → IsCheck (checksum_symbols hex id)
unfolding checksum_symbols
checksum_symbols-IsCheck hex id =
    let (bits, fits, eight) = calc_checksum_bits (NetworkType.of_id id) (payload hex) in
    (bits5s_to_string-IsSymbol _ fits, length-bits5s_to_string _ ∙ eight)

pub symbols_facts :
    (hex chk : Bytes)
    → IsHex20 hex
    → IsCheck chk
    → All IsSymbol (payload_symbols hex ++ chk) × (length (payload_symbols hex ++ chk) ≡ 42)
symbols_facts hex chk h (syms, eight) = (
  All-append IsSymbol (payload_symbols hex) chk
      (unfold payload_symbols in bits5s_to_string-IsSymbol _ (payload-Fits hex h).0) syms,
  omega (arith, length-append (payload_symbols hex) chk, length-payload_symbols hex h, eight),
)

word_symbols : (s : Bytes) → All IsSymbol s → All (λ c. word_class c ≡ true) s
word_symbols [] h = tt
word_symbols (c ∷ s) ((word, _, _), h) = (word, word_symbols s h)

pub symbols-IsPlain : (s : Bytes) → All IsSymbol s → All IsPlain s
symbols-IsPlain [] h = tt
symbols-IsPlain (c ∷ s) ((_, lower, separator), h) = ((lower, separator), symbols-IsPlain s h)

-- The pattern's first group on a prefix.
network_matches :
    {nt : Bytes} (t : Bytes) (k : Bytes → Bool)
    → Prefix nt
    → k t ≡ true
    → match_with network_pattern (nt ++ t) k ≡ true
unfolding network_pattern
network_matches t k mainnet h = matches_left _ _ _ k (matches_literal (codes "cfx") t k h)
network_matches t k testnet h =
    matches_right _ _ _ k (matches_left _ _ _ k (matches_literal (codes "cfxtest") t k h))
network_matches t k (numbered ds digits some) h = matches_right _ _ _ k (
    matches_right _ _ _ k (
      matches_seq _ _ _ k
        (matches_literal (codes "net") (ds ++ t) _ (matches_plus _ ds t k digits some h))))

symbols_match :
    (s : Bytes) → All IsSymbol s → length s ≡ 42 → match_with (times 42 word_class) s at_end ≡ true
symbols_match s h size =
    ap (λ (t : Bytes). match_with (times 42 word_class) t at_end) (sym (append-nil s))
    ∙ matches_times 42 _ s [] at_end size (word_symbols s h) refl

-- A type that the pattern names, with its separator; without a type there is nothing.
pub data TypePart : Bytes → Type 0 where
  no_type : TypePart []
  null : TypePart (codes "type.null:")
  builtin : TypePart (codes "type.builtin:")
  user : TypePart (codes "type.user:")
  contract : TypePart (codes "type.contract:")

type_matches :
    {ty : Bytes} (t : Bytes) (k : Bytes → Bool)
    → TypePart ty
    → k t ≡ true
    → match_with type_pattern (ty ++ t) k ≡ true
unfolding type_pattern
type_matches t k user h = matches_left _ _ _ k (matches_literal (codes "type.user:") t k h)
type_matches t k builtin h =
    matches_right _ _ _ k (matches_left _ _ _ k (matches_literal (codes "type.builtin:") t k h))
type_matches t k contract h =
    matches_right _ _ _ k (
      matches_right _ _ _ k (matches_left _ _ _ k (matches_literal (codes "type.contract:") t k h)))
type_matches t k null h = matches_right _ _ _ k (
    matches_right _ _ _ k
      (matches_right _ _ _ k (matches_left _ _ _ k (matches_literal (codes "type.null:") t k h))))
type_matches t k no_type h = matches_right _ _ _ k (
    matches_right _ _ _ k
      (matches_right _ _ _ k (matches_right _ _ _ k (matches_literal [] t k h))))

pub base32_matches :
    {nt ty : Bytes} (s : Bytes)
    → Prefix nt
    → TypePart ty
    → All IsSymbol s
    → length s ≡ 42
    → regex_match (nt ++ (b':' ∷ (ty ++ s))) base32_pattern ≡ true
unfolding regex_match base32_pattern
base32_matches {nt} {ty} s net type h size = matches_seq _ _ _ at_end (
    network_matches (b':' ∷ (ty ++ s)) _ net (
      matches_seq _ _ _ at_end (
        matches_literal (codes ":") (ty ++ s) _
          (matches_seq _ _ _ at_end (type_matches s _ type (symbols_match s h size))))))

-- No prefix begins like hexadecimal text.
pub hex_differs : {nt : Bytes} (t : Bytes) → Prefix nt → regex_match (nt ++ t) hex_pattern ≡ false
unfolding regex_match hex_pattern match_with match_literal
hex_differs t mainnet = refl
hex_differs t testnet = refl
hex_differs t (numbered ds digits some) = refl

pub unprefixed :
    {nt : Bytes} (t : Bytes) → Prefix nt → starts_with (nt ++ t) (codes "0x") ≡ ok false
unprefixed t mainnet = starts_with_value (codes "cfx" ++ t) (codes "0x") (omega arith)
unprefixed t testnet = starts_with_value (codes "cfxtest" ++ t) (codes "0x") (omega arith)
unprefixed t (numbered ds digits some) =
    starts_with_value (codes "net" ++ (ds ++ t)) (codes "0x") (omega arith)

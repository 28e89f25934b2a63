-- ===== src/CommonData/Sequences.antt =====
-- libdevcore/CommonData: nibbles, common prefixes, escaped text, and the ends of a collection.
pub mod CommonPrefix
use cpp_conflux_sdk.Common.{
  ℕ, zero, suc, ◌/◌, ◌%◌, ◌^◌, min, Bool, true, false, not, ◌&&◌, ◌||◌, [], ◌∷◌, ◌++◌, Bytes, codes,
  length, drop, get_or, ltb, leb, ◌==◌, if◌then◌else◌,
}

-- `asNibbles`.
pub as_nibbles : Bytes → Bytes
as_nibbles [] = []
as_nibbles (i ∷ s) = i / 16 ∷ (i % 16 ∷ as_nibbles s)

-- The loop of `commonPrefix`, for `s - i` elements that are left to compare.
unfoldable pub common_prefix_loop : ℕ → Bytes → Bytes → ℕ
common_prefix_loop zero t u = 0
common_prefix_loop (suc s) [] u = 0
common_prefix_loop (suc s) (x ∷ t) [] = 0
common_prefix_loop (suc s) (x ∷ t) (y ∷ u) =
    let more = common_prefix_loop s t u in if x == y then suc more else 0

-- `commonPrefix`: the sizes are taken as `unsigned`.
unfoldable pub common_prefix : Bytes → Bytes → ℕ
common_prefix t u = common_prefix_loop (min (length t % 2 ^ 32) (length u % 2 ^ 32)) t u

-- `trimFront`, for no more elements than there are; the source moves memory out of bounds otherwise.
pub trim_front : Bytes → ℕ → Bytes
trim_front t elements = drop elements t

-- `pushFront`.
pub push_front : Bytes → ℕ → Bytes
push_front t e = e ∷ t

-- `prettyEscapes`: what stands for a character behind the backslash, or 0.
pub pretty_escape : ℕ → ℕ
pretty_escape i =
    if i == 13
    then b'r'
    else if i == 10
    then b'n'
    else if i == 9
    then b't'
    else if i == 11
    then b'v'
    else 0

-- `i < ' '` for a `char`, which is signed on the platforms that are built for.
pub is_control : ℕ → Bool
is_control i = ltb i b' ' || leb 128 i

-- What `escaped` writes for a character.
pub escaped_char : Bool → ℕ → Bytes
escaped_char all i =
    if i == 34 && not all
    then 92 ∷ (34 ∷ [])
    else if i == 92 && not all
    then 92 ∷ (92 ∷ [])
    else if not (pretty_escape i == 0) && not all
    then 92 ∷ (pretty_escape i ∷ [])
    else if is_control i || all
    then 92
      ∷ (b'x'
          ∷ (get_or (codes "0123456789abcdef") (i / 16) 0
              ∷ (get_or (codes "0123456789abcdef") (i % 16) 0 ∷ [])))
    else i ∷ []

escaped_chars : Bool → Bytes → Bytes
escaped_chars all [] = []
escaped_chars all (i ∷ s) = escaped_char all i ++ escaped_chars all s

-- `escaped`, with the quotes around it.
pub escaped : Bytes → Bool → Bytes
escaped s all = 34 ∷ (escaped_chars all s ++ (34 ∷ []))

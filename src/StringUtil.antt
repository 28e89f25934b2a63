-- ===== src/StringUtil.antt =====
-- libcfxcore/common/util/string_util: splitting and letter case.
pub mod Split
pub mod Affix
use cpp_conflux_sdk.Common.Outcome.{Outcome, ok, throw, out_of_range, ◌>>=◌}
use cpp_conflux_sdk.Common.{
  ℕ, zero, suc, ◌+◌, ◌-◌, ◌%◌, ◌^◌, Bool, ◌&&◌, Option, none, some, List, [], ◌∷◌, map, Bytes,
  length, take, drop, ltb, leb, ◌==◌, if◌then◌else◌, bytes_eq,
}

-- `std::string::find` of a character: the first position, or npos.
pub find : ℕ → Bytes → Option ℕ
find a [] = none
find a (c ∷ s) = if c == a then some 0 else elim (find a s) [ none ↦ none | some i ↦ some (suc i) ]

-- The loop of `split_string`; `rest` is `strtem.substr(pos1)`, so a position in it counts from `pos1`.
pub split_loop : ℕ → ℕ → Bytes → List Bytes
split_loop zero a rest = rest ∷ []
split_loop (suc fuel) a rest = elim (find a rest) [
  | none ↦ rest ∷ []
  | some p ↦ take p rest ∷ split_loop fuel a (drop (suc p) rest)
]

-- Each round takes a character at least.
pub split_string : Bytes → ℕ → List Bytes
split_string strtem a = split_loop (length strtem) a strtem

-- `::tolower` and `::toupper` in the "C" locale.
unfoldable pub tolower : ℕ → ℕ
tolower c = if leb b'A' c && leb c b'Z' then c + 32 else c

pub toupper : ℕ → ℕ
toupper c = if leb b'a' c && leb c b'z' then c - 32 else c

unfoldable pub tolower_string : Bytes → Bytes
tolower_string = map tolower

pub toupper_string : Bytes → Bytes
toupper_string = map toupper

-- `s.compare(pos, len, other) == 0`; a position behind the end throws.
pub compares_equal : ℕ → ℕ → Bytes → Bytes → Outcome Bool
compares_equal pos len s other =
    if ltb (length s) pos then throw out_of_range else ok (bytes_eq (take len (drop pos s)) other)

-- The templates of string_util.h. An argument compared with itself answers true at once, which is
-- the answer of the comparison too, so addresses are left out. `size_t` subtraction wraps.
pub starts_with : Bytes → Bytes → Outcome Bool
starts_with big smallstr = do
  let valid = leb (length smallstr) (length big)
  matches ← compares_equal 0 (length smallstr) big smallstr
  ok (valid && matches)

pub ends_with : Bytes → Bytes → Outcome Bool
ends_with big smallstr = do
  let valid = leb (length smallstr) (length big)
  let pos = (length big + 2 ^ 64 - length smallstr) % 2 ^ 64
  matches ← compares_equal pos (length smallstr) big smallstr
  ok (valid && matches)

-- ===== src/Rlp/Reader.antt =====
-- libdevcore/RLP: the class `RLP`, which reads. A node is the bytes it views; a view that is null and
-- a view of no bytes are the same here, since none of these operations tells them apart. `size_t` has
-- 64 bits.
pub mod Heads
pub mod Sizes
pub mod Items
pub mod Index
pub mod Values
pub mod Unique
use cpp_conflux_sdk.Common.Outcome.{
  Outcome, ok, throw, bad_rlp, undersize_rlp, oversize_rlp, bad_cast, ◌>>=◌,
}
use cpp_conflux_sdk.Common.{
  ℕ, suc, ◌+◌, ◌-◌, ◌^◌, bit_and, bit_or, Bool, true, false, not, ◌&&◌, ◌||◌, [], ◌∷◌, Bytes,
  length, get_or, take, drop, ltb, leb, ◌==◌, if◌then◌else◌,
}
use cpp_conflux_sdk.CommonData.Endian.{from_big_endian}
use cpp_conflux_sdk.Rlp.{
  max_length_bytes, data_imm_len_start, data_ind_len_zero, list_start, list_ind_len_zero,
}

-- `Strictness`, a set of flags.
abbrev pub Strictness : Type 0
Strictness = ℕ

abbrev pub allow_non_canon : Strictness
allow_non_canon = 1

abbrev pub throw_on_fail : Strictness
throw_on_fail = 4

abbrev pub fail_if_too_big : Strictness
fail_if_too_big = 8

abbrev pub fail_if_too_small : Strictness
fail_if_too_small = 16

abbrev pub strict : Strictness
strict = bit_or throw_on_fail fail_if_too_big

abbrev pub very_strict : Strictness
very_strict = bit_or (bit_or throw_on_fail fail_if_too_big) fail_if_too_small

abbrev pub laissez_faire : Strictness
laissez_faire = allow_non_canon

-- `_s & flag`, as a condition.
pub has : Strictness → Strictness → Bool
has s flag = not (bit_and s flag == 0)

-- `cropped(_begin, _count)` and `cropped(_begin)` of a view.
pub cropped : Bytes → ℕ → ℕ → Bytes
cropped d begin count =
    if leb begin (length d) && leb count (length d) && leb (begin + count) (length d)
    then take count (drop begin d)
    else []

pub cropped_from : Bytes → ℕ → Bytes
cropped_from d begin = if leb begin (length d) then drop begin d else []

pub is_null : Bytes → Bool
is_null d = length d == 0

pub is_empty : Bytes → Bool
is_empty d = not (is_null d) && (get_or d 0 0 == data_imm_len_start || get_or d 0 0 == list_start)

pub is_data : Bytes → Bool
is_data d = not (is_null d) && ltb (get_or d 0 0) list_start

pub is_list : Bytes → Bool
is_list d = not (is_null d) && leb list_start (get_or d 0 0)

pub is_single_byte : Bytes → Bool
is_single_byte d = not (is_null d) && ltb (get_or d 0 0) data_imm_len_start

-- `requireGood`, which throws or answers nothing.
pub require_good : Bytes → Outcome (Unit {0})
require_good d =
    if is_null d
    then throw bad_rlp
    else if not (get_or d 0 0 == data_imm_len_start + 1)
    then ok tt
    else if ltb (length d) 2
    then throw bad_rlp
    else if ltb (get_or d 1 0) data_imm_len_start
    then throw bad_rlp
    else ok tt

pub length_size : Bytes → ℕ
length_size d =
    if is_data d && ltb data_ind_len_zero (get_or d 0 0)
    then get_or d 0 0 - data_ind_len_zero
    else if is_list d && ltb list_ind_len_zero (get_or d 0 0)
    then get_or d 0 0 - list_ind_len_zero
    else 0

pub payload_offset : Bytes → ℕ
payload_offset d = if is_single_byte d then 0 else 1 + length_size d

-- In `length`: a length of `size` bytes behind the first one, which has to be `least` or more.
pub indirect_length : Bytes → ℕ → ℕ → Outcome ℕ
indirect_length d size least =
    let ret = from_big_endian 64 (take size (drop 1 d)) in
    if leb (length d) size
    then throw bad_rlp
    else if ltb 1 (length d) && get_or d 1 0 == 0
    then throw bad_rlp
    else if ltb 8 size
    then throw undersize_rlp
    else if get_or d 1 0 == 0
    then throw bad_rlp
    else if ltb ret least
    then throw bad_rlp
    else ok ret

-- At the end of `length`: there is room for the payload's offset.
pub addable_length : ℕ → Outcome ℕ
addable_length ret = if leb (2 ^ 64 - 1 - 0x100) ret then throw undersize_rlp else ok ret

-- `length`, of a node that is not null and is good.
pub good_length : Bytes → Outcome ℕ
good_length d =
    let n = get_or d 0 0 in
    let data_size = n - data_ind_len_zero in
    let list_size = n - list_ind_len_zero in
    if ltb n data_imm_len_start
    then ok 1
    else if leb n data_ind_len_zero
    then ok (n - data_imm_len_start)
    else if ltb n list_start
    then indirect_length d data_size (list_start - data_imm_len_start - max_length_bytes)
      >>= addable_length
    else if leb n list_ind_len_zero
    then ok (n - list_start)
    else indirect_length d list_size (0x100 - list_start - max_length_bytes) >>= addable_length

-- `length()`.
pub payload_length : Bytes → Outcome ℕ
payload_length d = if is_null d then ok 0 else require_good d >>= λ u. good_length d

pub actual_size : Bytes → Outcome ℕ
actual_size d =
    if is_null d
    then ok 0
    else if is_single_byte d
    then ok 1
    else if is_data d || is_list d
    then (payload_length d >>= λ l. ok (payload_offset d + l))
    else ok 0

-- `if ((_s & FailIfTooBig) && …)` of the constructor, and the bytes that are left.
pub refuse_too_big : Bytes → Strictness → Outcome Bytes
refuse_too_big d s =
    let refused = if has s throw_on_fail then throw oversize_rlp else ok [] in
    let compared = actual_size d >>= λ n. if ltb n (length d) then refused else ok d in
    if has s fail_if_too_big then compared else ok d

-- `if ((_s & FailIfTooSmall) && …)`: `size` bytes were given.
pub refuse_too_small : ℕ → Strictness → Bytes → Outcome Bytes
refuse_too_small size s d =
    let refused = if has s throw_on_fail then throw undersize_rlp else ok [] in
    let compared = actual_size d >>= λ n. if ltb size n then refused else ok d in
    if has s fail_if_too_small then compared else ok d

-- `RLP(bytesConstRef, Strictness)`.
unfoldable pub construct : Bytes → Strictness → Outcome Bytes
construct d s = refuse_too_big d s >>= refuse_too_small (length d) s

pub size_as_encoded : Bytes → Outcome ℕ
size_as_encoded d = construct d (bit_or throw_on_fail fail_if_too_small) >>= actual_size

unfoldable pub payload : Bytes → Outcome Bytes
payload d = payload_length d >>= λ l.
    if ltb (length d) l then throw bad_rlp else ok (cropped d (payload_offset d) l)

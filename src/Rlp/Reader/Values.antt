-- ===== src/Rlp/Reader/Values.antt =====
-- libdevcore/RLP: what a node that is no list holds, as a string, an integer or a hash.
pub mod Strings
pub mod Integers
pub mod Hashes
use cpp_conflux_sdk.Common.Outcome.{Outcome, ok, throw, bad_rlp, bad_cast, ◌>>=◌}
use cpp_conflux_sdk.Common.{
  ℕ, zero, suc, ◌+◌, ◌-◌, min, Bool, true, false, not, ◌&&◌, ◌||◌, List, [], ◌∷◌, ◌++◌, Bytes,
  length, take, drop, replicate, get_or, ltb, leb, ◌==◌, if◌then◌else◌,
}
use cpp_conflux_sdk.CommonData.Endian.{from_big_endian}
use cpp_conflux_sdk.Rlp.{data_imm_len_start, data_ind_len_zero, list_start}
use cpp_conflux_sdk.Rlp.Reader.{
  Strictness, has, allow_non_canon, throw_on_fail, fail_if_too_big, fail_if_too_small, strict,
  cropped, require_good, is_null, is_data, is_list, payload_length, payload,
}

-- `_flags & ThrowOnFail` decides what a value of the wrong shape comes to.
pub failed {ℓ} : {A : Type ℓ} → Strictness → A → Outcome A
failed flags default = if has flags throw_on_fail then throw bad_cast else ok default

-- `size()` and `sizeStrict()`: the bytes of a string.
pub size : Bytes → Outcome ℕ
size d = if is_data d then payload_length d else ok 0

pub size_strict : Bytes → Outcome ℕ
size_strict d = if not (is_data d) then throw bad_cast else payload_length d

-- `toBytes`: as many bytes from the payload on as the head says.
pub to_bytes : Bytes → Strictness → Outcome Bytes
to_bytes d flags =
    let value = payload d >>= λ p. payload_length d >>= λ l. ok (take l p) in
    if not (is_data d) then failed flags [] else value

-- `toBytesConstRef`, and `toString`, which copies the same view.
pub to_bytes_const_ref : Bytes → Strictness → Outcome Bytes
to_bytes_const_ref d flags =
    let value = payload d >>= λ p. payload_length d >>= λ l. ok (cropped p 0 l) in
    if not (is_data d) then failed flags [] else value

pub to_string : Bytes → Strictness → Outcome Bytes
to_string d flags =
    let value = payload d >>= λ p. payload_length d >>= λ l. ok (cropped p 0 l) in
    if not (is_data d) then failed flags [] else value

pub to_string_strict : Bytes → Outcome Bytes
to_string_strict d = to_string d strict

-- In `isInt`, the byte at an offset is tested, or is missing.
pub nonzero_at : Bytes → ℕ → Outcome Bool
nonzero_at d offset =
    if leb (length d) offset then throw bad_rlp else ok (not (get_or d offset 0 == 0))

pub is_int : Bytes → Outcome Bool
is_int d =
    let n = get_or d 0 0 in
    let behind = 1 + n - data_ind_len_zero in
    let tested =
      if ltb n data_imm_len_start
      then ok (not (n == 0))
      else if n == data_imm_len_start
      then ok true
      else if leb n data_ind_len_zero
      then nonzero_at d 1
      else if ltb n list_start
      then nonzero_at d behind
      else ok false in
    if is_null d then ok false else require_good d >>= λ u. tested

-- `toInt`, into an unsigned type of `w` bits and `max_size` bytes.
pub to_int : ℕ → ℕ → Bytes → Strictness → Outcome ℕ
to_int w max_size d flags =
    let value = payload d >>= λ p.
    if ltb max_size (length p) && has flags fail_if_too_big
    then failed flags 0
    else ok (from_big_endian w p) in
    require_good d >>= λ u. is_int d >>= λ int.
    if (not int && not (has flags allow_non_canon)) || (is_list d || is_null d)
    then failed flags 0
    else value

-- `toHash`, into `n` bytes: the payload stands at their end, cut behind if it is too long.
pub to_hash : ℕ → Bytes → Strictness → Outcome Bytes
to_hash n d flags = require_good d >>= λ u. payload d >>= λ p.
    let l = length p in
    let s = min n l in
    if not (is_data d)
      || ((ltb n l && has flags fail_if_too_big) || (ltb l n && has flags fail_if_too_small))
    then failed flags (replicate n 0)
    else ok (replicate (n - s) 0 ++ take s p)

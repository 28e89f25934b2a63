-- ===== src/Rlp/Stream.antt =====
-- libdevcore/RLP: `RLPStream`, which writes. A list that has been announced but is not complete
-- stands on `list_stack`, the innermost first, with the items it still waits for and the position of
-- its first byte. A `size_t` is not bounded here: each count is the size of something in memory.
pub mod Refines
pub mod Integers
use cpp_conflux_sdk.Common.Outcome.{Outcome, ok, throw, rlp_exception, ◌>>=◌}
use cpp_conflux_sdk.Common.{
  ℕ, zero, suc, ◌+◌, ◌-◌, ◌*◌, Bool, true, false, ◌&&◌, List, [], ◌∷◌, ◌++◌, Bytes, length, take,
  drop, ltb, ◌==◌, if◌then◌else◌,
}
use cpp_conflux_sdk.CommonData.Endian.{bytes_required, to_big_endian}
use cpp_conflux_sdk.Rlp.Item.{Item, Items, str, lst, nil, cons, count}
use cpp_conflux_sdk.Rlp.{
  data_imm_len_start, data_imm_len_count, data_ind_len_zero, list_start, list_imm_len_count,
  list_ind_len_zero,
}

pub record Stream : Type 0 where
  pub out : Bytes
  pub list_stack : List (ℕ × ℕ)

-- `RLPStream()`.
abbrev pub empty : Stream
empty = record { out = []; list_stack = [] }

-- `pushInt(_i, _br)`: no more than `_br` bytes are written, since every caller has counted them.
pub push_int : Bytes → ℕ → ℕ → Bytes
push_int out i br = out ++ to_big_endian br i

pub push_count : Bytes → ℕ → ℕ → Outcome Bytes
push_count out count base =
    let br = bytes_required count in
    if ltb 0xff (br + base)
    then throw rlp_exception
    else ok (push_int (out ++ ((br + base) ∷ [])) count br)

-- The bytes that `noteAppended` puts in front of a list of `s` bytes when it is complete.
pub list_head : ℕ → Outcome Bytes
list_head s =
    let brs = bytes_required s in
    if ltb s list_imm_len_count
    then ok ((list_start + s) ∷ [])
    else if ltb 0xff (list_ind_len_zero + brs)
    then throw rlp_exception
    else ok ((list_ind_len_zero + brs) ∷ to_big_endian brs s)

-- `resize` and `memmove` make room at `p`, and the head is written there.
pub insert_at : ℕ → Bytes → Bytes → Bytes
insert_at p front out = take p out ++ (front ++ drop p out)

-- The loop of `noteAppended` over the open lists.
unfoldable pub note_loop : Bytes → List (ℕ × ℕ) → ℕ → Outcome Stream
note_loop out [] item_count = ok (record { out = out; list_stack = [] })
note_loop out ((left, p) ∷ stack) item_count =
    let closed =
      list_head (length out - p) >>= λ front. note_loop (insert_at p front out) stack 1 in
    if ltb left item_count
    then throw rlp_exception
    else if ltb 0 (left - item_count)
    then ok (record { out = out; list_stack = (left - item_count, p) ∷ stack })
    else closed

unfoldable pub note_appended : Stream → ℕ → Outcome Stream
note_appended s item_count =
    if item_count == 0 then ok s else note_loop s.out s.list_stack item_count

pub append_raw : Stream → Bytes → ℕ → Outcome Stream
append_raw s rlp item_count = note_appended (record s { out = s.out ++ rlp }) item_count

-- `appendList(bytesConstRef)`.
pub append_list_bytes : Stream → Bytes → Outcome Stream
append_list_bytes s rlp =
    let short = ok (s.out ++ ((length rlp + list_start) ∷ [])) in
    let long = push_count s.out (length rlp) list_ind_len_zero in
    do
      out ← if ltb (length rlp) list_imm_len_count then short else long
      append_raw (record s { out = out }) rlp 1

-- `appendList(size_t)`.
pub append_list : Stream → ℕ → Outcome Stream
append_list s items =
    if ltb 0 items
    then ok (record s { list_stack = (items, length s.out) ∷ s.list_stack })
    else append_list_bytes s []

-- The leading zeros that `append` skips if it is told to be compact.
pub skip_zeros : Bytes → Bytes
skip_zeros [] = []
skip_zeros (b ∷ s) = let rest = skip_zeros s in if b == 0 then rest else b ∷ s

-- `s == 1 && *d < c_rlpDataImmLenStart`.
pub is_own_code : Bytes → Bool
is_own_code [] = false
is_own_code (b ∷ []) = ltb b data_imm_len_start
is_own_code (b ∷ (c ∷ s)) = false

-- `append(bytesConstRef, bool)`.
pub append : Stream → Bytes → Bool → Outcome Stream
append st bytes compact =
    let d = if compact then skip_zeros bytes else bytes in
    let short = ok (st.out ++ ((length d + data_imm_len_start) ∷ [])) in
    let long = push_count st.out (length d) data_ind_len_zero in
    let framed =
      ((if ltb (length d) data_imm_len_count then short else long) >>= λ out.
      append_raw (record st { out = out }) d 0)
      >>= λ st'. note_appended st' 1 in
    if is_own_code d then note_appended (record st { out = st.out ++ d }) 1 else framed

-- `append(bigint)`.
pub append_int : Stream → ℕ → Outcome Stream
append_int st i =
    let br = bytes_required i in
    let brbr = bytes_required br in
    let short = ok (st.out ++ ((br + data_imm_len_start) ∷ [])) in
    let long =
      if ltb 0xff (data_ind_len_zero + brbr)
      then throw rlp_exception
      else ok (push_int (st.out ++ ((data_ind_len_zero + brbr) ∷ [])) br brbr) in
    let framed = (if ltb br data_imm_len_count then short else long) >>= λ out.
    note_appended (record st { out = push_int out i br }) 1 in
    if i == 0
    then note_appended (record st { out = st.out ++ (data_imm_len_start ∷ []) }) 1
    else if ltb i data_imm_len_start
    then note_appended (record st { out = st.out ++ (i ∷ []) }) 1
    else framed

-- `out()`.
unfoldable pub finished : Stream → Outcome Bytes
finished s = elim s.list_stack [ [] ↦ ok s.out | x ∷ rest ↦ throw rlp_exception ]

-- `append` of a vector and of vectors of vectors: the list is announced, then each item is appended.
unfoldable mutual
  pub write : Item → Stream → Outcome Stream
  write (str s) st = append st s false
  write (lst items) st = append_list st (count items) >>= λ st'. write_items items st'

  pub write_items : Items → Stream → Outcome Stream
  write_items nil st = ok st
  write_items (cons x items) st = write x st >>= λ st'. write_items items st'

-- `rlp`: one item on an empty stream.
unfoldable pub rlp : Item → Outcome Bytes
rlp x = write x empty >>= finished

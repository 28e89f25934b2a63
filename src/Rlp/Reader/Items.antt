-- ===== src/Rlp/Reader/Items.antt =====
-- libdevcore/RLP: the items of a list, counted and walked through.
pub mod Walk
use cpp_conflux_sdk.Common.Outcome.{Outcome, ok, throw, bad_cast, ◌>>=◌}
use cpp_conflux_sdk.Common.{
  ℕ, zero, suc, ◌+◌, ◌-◌, min, Bool, true, false, not, ◌&&◌, List, [], ◌∷◌, ◌++◌, Bytes, length,
  take, drop, ltb, leb, ◌==◌, if◌then◌else◌,
}
use cpp_conflux_sdk.Rlp.Reader.{
  Strictness, has, throw_on_fail, very_strict, cropped, cropped_from, is_null, is_list,
  payload_length, payload_offset, construct, size_as_encoded, payload,
}

-- The loop of `items`: an item takes one byte at least, so as many rounds as there are bytes are enough.
pub items_loop : ℕ → Bytes → Outcome ℕ
items_loop zero d = ok 0
items_loop (suc fuel) d =
    let rest = size_as_encoded d >>= λ n. items_loop fuel (cropped_from d n) >>= λ i. ok (suc i) in
    if is_null d then ok 0 else rest

pub items : Bytes → Outcome ℕ
items d = if is_list d then (payload d >>= λ p. items_loop (length p) p) else ok 0

pub item_count : Bytes → Outcome ℕ
item_count d = if is_list d then items d else ok 0

pub item_count_strict : Bytes → Outcome ℕ
item_count_strict d = if not (is_list d) then throw bad_cast else items d

-- `RLP::iterator` of a node: where its current item begins in the node's data, the item's size, and
-- the bytes that remain behind it.
pub record Iterator : Type 0 where
  pub at : ℕ
  pub size : ℕ
  pub remaining : ℕ

pub current_item : Bytes → Iterator → Bytes
current_item d it = take it.size (drop it.at d)

-- `begin()`, of a node that holds its whole payload.
pub begin : Bytes → Outcome Iterator
begin d =
    let first = (do
      pl ← payload d
      n ← size_as_encoded pl
      let size = length (cropped pl 0 n)
      ok (record { at = payload_offset d; size = size; remaining = length pl - size })) in
    let past = ok (record { at = length d; size = 0; remaining = 0 }) in
    if is_list d then first else past

pub end_of : Bytes → Iterator
end_of d = record { at = length d; size = 0; remaining = 0 }

-- `operator++`: what remains is viewed, and cropped to its first item.
pub advance : Bytes → Iterator → Outcome Iterator
advance d it =
    let next = it.at + it.size in
    let view = take it.remaining (drop next d) in
    let moved = size_as_encoded view >>= λ n.
    let size = length (cropped view 0 n) in
    ok (record { at = next; size = size; remaining = it.remaining - min it.remaining size }) in
    if it.remaining == 0 then ok (record { at = next; size = 0; remaining = 0 }) else moved

pub same_place : Iterator → Iterator → Bool
same_place a b = a.at == b.at && a.size == b.size

-- `for (auto const& i: *this)`: what the loop's body is given, in order. An item takes one byte at
-- least, so the node's size bounds the rounds.
pub visit : ℕ → Bytes → Iterator → Outcome (List Bytes)
visit zero d it = ok []
visit (suc fuel) d it =
    let rest = (do
      item ← construct (current_item d it) very_strict
      it' ← advance d it
      items ← visit fuel d it'
      ok (item ∷ items)) in
    if same_place it (end_of d) then ok [] else rest

pub visited : Bytes → Outcome (List Bytes)
visited d = begin d >>= λ it. visit (length d) d it

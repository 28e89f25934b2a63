-- ===== src/Rlp/Reader/Index.antt =====
-- libdevcore/RLP: `operator[]`, with the last item that it found.
pub mod History
use cpp_conflux_sdk.Common.Outcome.{Outcome, ok, throw, ◌>>=◌}
use cpp_conflux_sdk.Common.{
  ℕ, zero, suc, ◌+◌, ◌-◌, ◌^◌, bit_or, [], ◌∷◌, Bytes, length, ltb, ◌==◌, if◌then◌else◌,
}
use cpp_conflux_sdk.Rlp.Reader.{
  throw_on_fail, fail_if_too_small, cropped, cropped_from, is_null, construct, size_as_encoded,
  payload,
}

-- `m_lastIndex`, `m_lastEnd`, `m_lastItem`.
pub record Cache : Type 0 where
  pub last_index : ℕ
  pub last_end : ℕ
  pub last_item : Bytes

-- Before the first access.
abbrev pub no_access : Cache
no_access = record { last_index = 2 ^ 64 - 1; last_end = 0; last_item = [] }

-- The first statement of `operator[]`: going back is starting again.
pub rewind : Bytes → Cache → ℕ → Outcome Cache
rewind d c i =
    let first = (do
      p ← payload d
      last_end ← size_as_encoded p
      ok (record { last_index = 0; last_end = last_end; last_item = cropped p 0 last_end })) in
    if ltb i c.last_index then first else ok c

-- The body of its loop.
pub next_item : Bytes → Cache → Outcome Cache
next_item d c = do
  p ← payload d
  let view = cropped_from p c.last_end
  n ← size_as_encoded view
  let item = cropped view 0 n
  ok (record {
    last_index = suc c.last_index;
    last_end = c.last_end + length item;
    last_item = item;
  })

-- The loop, with as many rounds left as indices are ahead.
pub index_loop : ℕ → Bytes → Cache → Outcome Cache
index_loop zero d c = ok c
index_loop (suc ahead) d c =
    let onward = next_item d c >>= λ c'. index_loop ahead d c' in
    if is_null c.last_item then ok c else onward

-- The item, and the cache it leaves; what a call that throws leaves in the cache is not modelled.
pub at_index : Bytes → Cache → ℕ → Outcome (Bytes × Cache)
at_index d c i = do
  started ← rewind d c i
  found ← index_loop (i - started.last_index) d started
  item ← construct found.last_item (bit_or throw_on_fail fail_if_too_small)
  ok (item, found)

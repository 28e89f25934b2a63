-- ===== src/Rlp/Stream/Refines.antt =====
-- What is written item by item is the canonical coding.
use cpp_conflux_sdk.Common.Outcome.{Outcome, ok, bind-ok, ◌>>=◌}
use cpp_conflux_sdk.Common.{
  ℕ, suc, ◌+◌, ◌-◌, ◌^◌, ◌≤◌, ◌<◌, ◌≡◌, refl, sym, ap, ◌∙◌, true, false, Bool-cases, inl, inr, List,
  [], ◌∷◌, ◌++◌, append_assoc, append-nil, arith, Bytes, length, length-append, take-append_length,
  if◌then◌else◌, drop-append_length, ltb, ◌==◌,
}
use cpp_conflux_sdk.CommonData.Endian.{bytes_required}
use cpp_conflux_sdk.CommonData.Endian.Compact.{bytes_required_iff}
use cpp_conflux_sdk.Rlp.Item.{
  Item, Items, str, lst, nil, cons, count, head, encode_str, encode, encode_items,
}
use cpp_conflux_sdk.Rlp.Stream.{
  Stream, push_int, push_count, list_head, insert_at, note_loop, note_appended, append_raw,
  append_list_bytes, append_list, is_own_code, append, finished, write, write_items, rlp,
}

-- The size of something in memory takes eight bytes at most.
few_bytes : (n : ℕ) → n < 2 ^ 64 → bytes_required n ≤ 8
few_bytes n h = (bytes_required_iff n 8).0 h

-- What is pushed in front of `n` bytes is their head.
frame :
    (out : Bytes) (n start : ℕ)
    → n < 2 ^ 64
    → start ≤ 0xc0
    → (if ltb n 56 then ok (out ++ ((n + start) ∷ [])) else push_count out n (start + 55))
      ≡ ok (out ++ head start n)
unfolding push_count push_int head
frame out n start h le = elim (Bool-cases (ltb n 56)) [
  | inl short ↦ rw short (ap (λ (b : ℕ). ok (out ++ (b ∷ []))) (omega arith))
  | inr long ↦
      let few = few_bytes n h in
      let fits : ltb 0xff (bytes_required n + (start + 55)) ≡ false = ground arith in
      let first : bytes_required n + (start + 55) ≡ start + 55 + bytes_required n = omega arith in
      rw (long, fits, first, append_assoc)
]

list_head_value : (n : ℕ) → n < 2 ^ 64 → list_head n ≡ ok (head 0xc0 n)
unfolding list_head head
list_head_value n h = ground (arith, few_bytes n h)

-- A list that is complete gets its head.
closes :
    (out body : Bytes) (stack : List (ℕ × ℕ)) (k : ℕ)
    → length body < 2 ^ 64
    → note_loop (out ++ body) ((k, length out) ∷ stack) k
      ≡ note_loop (out ++ (head 0xc0 (length body) ++ body)) stack 1
unfolding note_loop insert_at
closes out body stack k small =
    let size : length (out ++ body) - length out ≡ length body =
      omega (arith, length-append out body) in
    rw
      (
        size,
        list_head_value (length body) small,
        take-append_length (length out) out body refl,
        drop-append_length (length out) out body refl,
      )
      (ground arith)

-- The innermost list still waits for `k` items, or there is no list.
Room : ℕ → List (ℕ × ℕ) → Type 0
Room k [] = Unit {0}
Room k ((left, p) ∷ stack) = k ≤ left

Room-fewer : (k : ℕ) (stack : List (ℕ × ℕ)) → Room (suc k) stack → Room 1 stack
unfolding Room
Room-fewer k [] h = tt
Room-fewer k ((left, p) ∷ stack) h = omega arith

pub append-encode_str :
    (out s : Bytes) (stack : List (ℕ × ℕ))
    → length s < 2 ^ 64
    → append (record { out = out; list_stack = stack }) s false
      ≡ note_appended (record { out = out ++ encode_str s; list_stack = stack }) 1
unfolding append is_own_code encode_str head append_raw note_appended
append-encode_str out [] stack h = rw append-nil
append-encode_str out (b ∷ []) stack h = elim (Bool-cases (ltb b 0x80)) [
  | inl own ↦ rw own
  | inr other ↦ rw (other, append_assoc)
]
append-encode_str out (b ∷ (c ∷ s)) stack h =
    rw (frame out (length (b ∷ (c ∷ s))) 0x80 h (omega arith), append_assoc)

-- Writing an item, or some of the items that a list waits for, is appending their coding and noting
-- that so many were appended.
append-list_of_none :
    (out : Bytes) (stack : List (ℕ × ℕ))
    → append_list (record { out = out; list_stack = stack }) 0
      ≡ note_appended (record { out = out ++ (0xc0 ∷ []); list_stack = stack }) 1
unfolding append_list append_list_bytes append_raw
append-list_of_none out stack = rw append-nil

-- Items that are noted one by one, with the list still open in between.
note-next :
    (out : Bytes) (stack : List (ℕ × ℕ)) (x : Bytes) (k : ℕ) (f : Stream → Outcome Stream)
    → Room (suc (suc k)) stack
    → ((stack' : List (ℕ × ℕ))
        → Room (suc k) stack'
        → f (record { out = out; list_stack = stack' })
          ≡ note_appended (record { out = out ++ x; list_stack = stack' }) (suc k))
    → (note_appended (record { out = out; list_stack = stack }) 1 >>= f)
      ≡ note_appended (record { out = out ++ x; list_stack = stack }) (suc (suc k))
unfolding note_appended note_loop Room
note-next out [] x k f room then' = then' [] tt ∙ ground arith
note-next out ((left, p) ∷ stack) x k f room then' =
    let more : ltb left 1 ≡ false = ground arith in
    let open_yet : ltb 0 (left - 1) ≡ true = ground arith in
    rw (more, open_yet) (then' ((left - 1, p) ∷ stack) (omega arith) ∙ later)
  where
    later :
        note_appended (record { out = out ++ x; list_stack = (left - 1, p) ∷ stack }) (suc k)
        ≡ note_appended (record { out = out ++ x; list_stack = (left, p) ∷ stack }) (suc (suc k))
    later =
        let count : left - 1 - suc k ≡ left - suc (suc k) = omega arith in rw count (ground arith)

append-list_of_some :
    (out : Bytes) (stack : List (ℕ × ℕ)) (n : ℕ)
    → append_list (record { out = out; list_stack = stack }) (suc n)
      ≡ ok (record { out = out; list_stack = (suc n, length out) ∷ stack })
unfolding append_list
append-list_of_some out stack n = ground arith

length-encode_str : (s : Bytes) → length s ≤ length (encode_str s)
unfolding encode_str
length-encode_str [] = omega arith
length-encode_str (b ∷ []) = elim (Bool-cases (ltb b 0x80)) [
  | inl own ↦ rw own (omega arith)
  | inr other ↦ rw other (omega (arith, length-append (head 0x80 1) (b ∷ [])))
]
length-encode_str (b ∷ (c ∷ s)) =
    omega (arith, length-append (head 0x80 (length (b ∷ (c ∷ s)))) (b ∷ (c ∷ s)))

no_items : head 0xc0 0 ++ [] ≡ 0xc0 ∷ []
unfolding head
no_items = refl

-- A list that has just been completed is one item of the list around it.
note_complete :
    (out body : Bytes) (stack : List (ℕ × ℕ)) (k : ℕ)
    → length body < 2 ^ 64
    → note_appended (record { out = out ++ body; list_stack = (suc k, length out) ∷ stack }) (suc k)
      ≡ note_appended
          (record { out = out ++ (head 0xc0 (length body) ++ body); list_stack = stack })
          1
unfolding note_appended
note_complete out body stack k small =
    let some : (suc k == 0) ≡ false = ground arith in rw some (closes out body stack (suc k) small)

note-none : (st : Stream) → note_appended st 0 ≡ ok st
unfolding note_appended
note-none st = refl

mutual
  unfolding write encode count Room

  write-note :
      (x : Item) (out : Bytes) (stack : List (ℕ × ℕ))
      → Room 1 stack
      → length (encode x) < 2 ^ 64
      → write x (record { out = out; list_stack = stack })
        ≡ note_appended (record { out = out ++ encode x; list_stack = stack }) 1
  write-note (str s) out stack room small =
      append-encode_str out s stack (omega (arith, small, length-encode_str s))
  write-note (lst nil) out stack room small =
      rw (append-list_of_none out stack) (bind-ok _ ∙ rw no_items)
  write-note (lst (cons x items)) out stack room small =
      let body = encode_items (cons x items) in
      let fits : length body < 2 ^ 64 =
        omega (arith, small, length-append (head 0xc0 (length body)) body) in
      rw (append-list_of_some out stack (count items)) (
        write_items-note (cons x items) out ((suc (count items), length out) ∷ stack) (omega arith)
          fits
        ∙ note_complete out body stack (count items) fits)

  write_items-note :
      (items : Items) (out : Bytes) (stack : List (ℕ × ℕ))
      → Room (count items) stack
      → length (encode_items items) < 2 ^ 64
      → write_items items (record { out = out; list_stack = stack })
        ≡ note_appended
            (record { out = out ++ encode_items items; list_stack = stack })
            (count items)
  write_items-note nil out stack room small = rw append-nil (sym (note-none _))
  write_items-note (cons x nil) out stack room small =
      let fits : length (encode x) < 2 ^ 64 = omega (arith, small, length-append (encode x) []) in
      rw (write-note x out stack room fits, append-nil) (bind-ok _)
  write_items-note (cons x (cons y items)) out stack room small =
      let rest = encode_items (cons y items) in
      let sizes = length-append (encode x) rest in
      let fits : length (encode x) < 2 ^ 64 = omega (arith, small, sizes) in
      let fits' : length rest < 2 ^ 64 = omega (arith, small, sizes) in
      rw (write-note x out stack (Room-fewer (suc (count items)) stack room) fits) (
        note-next (out ++ encode x) stack rest (count items) (write_items (cons y items)) room
          (λ stack' room'. write_items-note (cons y items) (out ++ encode x) stack' room' fits')
        ∙ ap
            (λ (t : Bytes).
              note_appended (record { out = t; list_stack = stack }) (suc (suc (count items))))
            (append_assoc out (encode x) rest))

-- An item written on an empty stream, with the lists announced and closed as its parts are appended,
-- gives the canonical coding of the item, if that has fewer than 2 ^ 64 bytes.
pub rlp-encode : (x : Item) → length (encode x) < 2 ^ 64 → rlp x ≡ ok (encode x)
unfolding rlp Room
rlp-encode x small =
    rw (write-note x [] [] tt small) (unfold note_appended note_loop finished in refl)

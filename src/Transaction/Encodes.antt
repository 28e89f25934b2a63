-- ===== src/Transaction/Encodes.antt =====
-- A transaction's bytes are the canonical coding of its fields.
use cpp_conflux_sdk.Common.Outcome.{Outcome, ok, bind-ok, ◌>>=◌}
use cpp_conflux_sdk.Common.{[], refl, ℕ, ◌^◌, ◌<◌, ◌≡◌, sym, ap, ◌∙◌, false, some, Bytes, length}
use cpp_conflux_sdk.CommonData.Endian.{from_big_endian, to_compact_big_endian}
use cpp_conflux_sdk.Rlp.Item.{Item, Items, str, lst, nil, cons, count, encode}
use cpp_conflux_sdk.Rlp.Stream.{
  Stream, empty, append, append_int, append_list, write, write_items, rlp,
}
use cpp_conflux_sdk.Rlp.Stream.Refines.{rlp-encode}
use cpp_conflux_sdk.Rlp.Stream.Integers.{append_int-to_compact_big_endian}
use cpp_conflux_sdk.Transaction.{
  Transaction, Signature, Kind, message_call, contract_creation, null_transaction,
  without_signature, with_signature, receiver_bytes, stream_fields, stream_signature, stream_rlp,
}
use cpp_conflux_sdk.Transaction.Signing.{streamed}

-- What stands for the receiver: its address in a message call, and nothing in any other transaction.
abbrev pub receiver : Kind → Bytes → Bytes
receiver message_call address = address
receiver contract_creation address = []
receiver null_transaction address = []

receiver_bytes-receiver : (t : Transaction) → receiver_bytes t ≡ receiver t.kind t.receive_address
unfolding receiver_bytes
receiver_bytes-receiver t = go t.kind
  where
    go :
        (k : Kind)
        → (elim k [ message_call ↦ t.receive_address | _ ↦ [] ]) ≡ receiver k t.receive_address
    go message_call = refl
    go contract_creation = refl
    go null_transaction = refl

-- The fields as items: an integer is the string of its bytes without leading zeros.
abbrev number : ℕ → Item
number i = str (to_compact_big_endian i 0)

unfoldable pub fields : Transaction → Item
fields t = lst (
    cons (number t.nonce) (
      cons (number t.gas_price) (
        cons (number t.gas) (
          cons (str (receiver t.kind t.receive_address)) (
            cons (number t.value) (
              cons (number t.storage_limit) (
                cons (number t.epoch_height)
                  (cons (number t.chain_id) (cons (str t.data_bytes) nil)))))))))

-- With a signature: the fields, then its three numbers.
unfoldable pub signed_fields : Transaction → Signature → Item
signed_fields t sig = lst (
    cons (fields t) (
      cons (number sig.v) (
        cons (number (from_big_endian 256 sig.r)) (cons (number (from_big_endian 256 sig.s)) nil))))

append_int_str : append_int ≡ λ st i. append st (to_compact_big_endian i 0) false
append_int_str = λ t st i. append_int-to_compact_big_endian st i t

-- The last step of a list's items hands on what it comes to.
abbrev plain_step : Bytes → Stream → Outcome Stream
plain_step d st = append st d false

abbrev item_step : Bytes → Stream → Outcome Stream
item_step d st = append st d false >>= λ st'. ok st'

last_step : (d : Bytes) → plain_step d ≡ item_step d
last_step d = λ t st. sym (bind-ok (append st d false)) t

pub stream_fields-write : (t : Transaction) (st : Stream) → stream_fields t st ≡ write (fields t) st
unfolding stream_fields fields write count
stream_fields-write t st =
    rw (append_int_str, receiver_bytes-receiver t)
      (ap
        (λ (last : Stream → Outcome Stream). append_list st 9 >>= λ st.
          append st (to_compact_big_endian t.nonce 0) false >>= λ st.
          append st (to_compact_big_endian t.gas_price 0) false >>= λ st.
          append st (to_compact_big_endian t.gas 0) false >>= λ st.
          append st (receiver t.kind t.receive_address) false >>= λ st.
          append st (to_compact_big_endian t.value 0) false >>= λ st.
          append st (to_compact_big_endian t.storage_limit 0) false >>= λ st.
          append st (to_compact_big_endian t.epoch_height 0) false >>= λ st.
          append st (to_compact_big_endian t.chain_id 0) false >>= λ st. last st)
        (last_step t.data_bytes))

stream_signature-some :
    (t : Transaction) (sig : Signature)
    → t.vrs ≡ some sig
    → (st : Stream)
    → stream_signature t st ≡ (
        append_int st sig.v >>= λ st. append_int st (from_big_endian 256 sig.r) >>= λ st.
        append_int st (from_big_endian 256 sig.s))
unfolding stream_signature
stream_signature-some t sig e st = rw e

signature_items : Signature → Items
signature_items sig =
    cons (number sig.v)
      (cons (number (from_big_endian 256 sig.r)) (cons (number (from_big_endian 256 sig.s)) nil))

stream_signature-write :
    (t : Transaction) (sig : Signature)
    → t.vrs ≡ some sig
    → (st : Stream) → stream_signature t st ≡ write_items (signature_items sig) st
unfolding write signature_items
stream_signature-write t sig e st =
    stream_signature-some t sig e st
    ∙ rw append_int_str (
        ap
          (λ (last : Stream → Outcome Stream).
            append st (to_compact_big_endian sig.v 0) false >>= λ st.
            append st (to_compact_big_endian (from_big_endian 256 sig.r) 0) false >>= λ st. last st)
          (last_step (to_compact_big_endian (from_big_endian 256 sig.s) 0)))

stream_rlp-write :
    (t : Transaction) (sig : Signature) (st : Stream)
    → t.vrs ≡ some sig
    → stream_rlp t with_signature st ≡ write (signed_fields t sig) st
unfolding stream_rlp signed_fields write count signature_items
stream_rlp-write t sig st e =
    let inner : stream_fields t ≡ write (fields t) = λ i s. stream_fields-write t s i in
    let outer : stream_signature t ≡ write_items (signature_items sig) =
      λ i s. stream_signature-write t sig e s i in
    rw (inner, outer)

-- The bytes to be signed are the canonical coding of the nine fields.
pub streamed-fields :
    (t : Transaction)
    → length (encode (fields t)) < 2 ^ 64
    → streamed t without_signature ≡ ok (encode (fields t))
unfolding streamed stream_rlp
streamed-fields t small =
    rw (stream_fields-write t empty) (unfold rlp in rlp-encode (fields t) small)

-- The bytes of a signed transaction are the canonical coding of the list of the nine fields, where the
-- receiver is the address for a message call and no bytes otherwise, and of the signature's three
-- numbers, if that coding has fewer than 2 ^ 64 bytes.
pub streamed-signed_fields :
    (t : Transaction) (sig : Signature)
    → t.vrs ≡ some sig
    → length (encode (signed_fields t sig)) < 2 ^ 64
    → streamed t with_signature ≡ ok (encode (signed_fields t sig))
unfolding streamed
streamed-signed_fields t sig e small =
    rw (stream_rlp-write t sig empty e) (unfold rlp in rlp-encode (signed_fields t sig) small)

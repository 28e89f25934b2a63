-- ===== src/Transaction/Determines.antt =====
-- The bytes to be signed determine what is signed.
use cpp_conflux_sdk.Common.{
  Option, some, none, refl, ℕ, zero, suc, ◌-◌, ◌^◌, ◌<◌, ◌≡◌, sym, ap, ◌∙◌, [], ◌++◌, arith, Bytes,
  length,
}
use cpp_conflux_sdk.CommonData.Endian.{from_big_endian, to_compact_big_endian}
use cpp_conflux_sdk.CommonData.Endian.Compact.{from_big_endian-to_compact_big_endian}
use cpp_conflux_sdk.Rlp.Item.{Item, Items, str, lst, nil, cons, encode}
use cpp_conflux_sdk.Rlp.Reader.Unique.{encode_prefix_free, ok_eq}
use cpp_conflux_sdk.Transaction.{
  Transaction, Kind, message_call, contract_creation, null_transaction, without_signature,
}
use cpp_conflux_sdk.Transaction.Signing.{streamed}
use cpp_conflux_sdk.Transaction.Encodes.{receiver, fields, streamed-fields}

-- The members that are `u256` hold numbers of 256 bits, and the receiver's address has 20 bytes.
pub record IsWide (t : Transaction) : Type 0 where
  pub nonce_lt : t.nonce < 2 ^ 256
  pub gas_price_lt : t.gas_price < 2 ^ 256
  pub gas_lt : t.gas < 2 ^ 256
  pub value_lt : t.value < 2 ^ 256
  pub storage_limit_lt : t.storage_limit < 2 ^ 256
  pub epoch_height_lt : t.epoch_height < 2 ^ 256
  pub chain_id_lt : t.chain_id < 2 ^ 256
  pub address_length : length t.receive_address ≡ 20

-- The string at a place in a list.
string_of : Items → ℕ → Bytes
string_of nil j = []
string_of (cons (str s) xs) zero = s
string_of (cons (lst ys) xs) zero = []
string_of (cons x xs) (suc j) = string_of xs j

string_at : Item → ℕ → Bytes
string_at (str s) j = []
string_at (lst xs) j = string_of xs j

number_eq :
    (i j : ℕ)
    → i < 2 ^ 256
    → j < 2 ^ 256
    → to_compact_big_endian i 0 ≡ to_compact_big_endian j 0
    → i ≡ j
number_eq i j hi hj e =
    sym (from_big_endian-to_compact_big_endian 256 i 0 hi).0
    ∙ ap (λ (d : Bytes). from_big_endian 256 d) e
    ∙ (from_big_endian-to_compact_big_endian 256 j 0 hj).0

-- The one that receives a transaction: an address for a message call, and none otherwise.
abbrev pub recipient : Kind → Bytes → Option Bytes
recipient message_call address = some address
recipient contract_creation address = none
recipient null_transaction address = none

-- An address of 20 bytes is not nothing.
recipient_eq :
    (k j : Kind) (a b : Bytes)
    → length a ≡ 20
    → length b ≡ 20
    → receiver k a ≡ receiver j b
    → recipient k a ≡ recipient j b
recipient_eq message_call message_call a b ha hb e = ap some e
recipient_eq message_call contract_creation a b ha hb e =
    absurd (omega (arith, ha, ap (λ (x : Bytes). length x) e))
recipient_eq message_call null_transaction a b ha hb e =
    absurd (omega (arith, ha, ap (λ (x : Bytes). length x) e))
recipient_eq contract_creation message_call a b ha hb e =
    absurd (omega (arith, hb, ap (λ (x : Bytes). length x) e))
recipient_eq contract_creation contract_creation a b ha hb e = refl
recipient_eq contract_creation null_transaction a b ha hb e = refl
recipient_eq null_transaction message_call a b ha hb e =
    absurd (omega (arith, hb, ap (λ (x : Bytes). length x) e))
recipient_eq null_transaction contract_creation a b ha hb e = refl
recipient_eq null_transaction null_transaction a b ha hb e = refl

-- Two transactions whose numbers have 256 bits and whose receiver's addresses have 20 bytes, and whose
-- codings have fewer than 2 ^ 64 - 257 bytes: if the bytes to be signed are the same, they agree on
-- the seven numbers, on the data, and on the address that receives them or that there is none.
pub streamed_determines :
    (t u : Transaction)
    → IsWide t
    → IsWide u
    → length (encode (fields t)) < 2 ^ 64 - 1 - 0x100
    → length (encode (fields u)) < 2 ^ 64 - 1 - 0x100
    → streamed t without_signature ≡ streamed u without_signature
    → (t.nonce ≡ u.nonce)
      × (t.gas_price ≡ u.gas_price)
      × (t.gas ≡ u.gas)
      × (recipient t.kind t.receive_address ≡ recipient u.kind u.receive_address)
      × (t.value ≡ u.value)
      × (t.storage_limit ≡ u.storage_limit)
      × (t.epoch_height ≡ u.epoch_height)
      × (t.chain_id ≡ u.chain_id)
      × (t.data_bytes ≡ u.data_bytes)
unfolding fields string_at string_of
streamed_determines t u ht hu st su e =
    let bytes : encode (fields t) ≡ encode (fields u) =
      ok_eq _ _
        (sym (streamed-fields t (omega (arith, st))) ∙ e ∙ streamed-fields u (omega (arith, su))) in
    let same : fields t ≡ fields u =
      (encode_prefix_free (fields t) (fields u) [] [] st su
        (ap (λ (d : Bytes). d ++ []) bytes)).0 in
    let at : (j : ℕ) → string_at (fields t) j ≡ string_at (fields u) j =
      λ j. ap (λ (x : Item). string_at x j) same in
    (
      number_eq _ _ ht.nonce_lt hu.nonce_lt (at 0),
      number_eq _ _ ht.gas_price_lt hu.gas_price_lt (at 1),
      number_eq _ _ ht.gas_lt hu.gas_lt (at 2),
      recipient_eq t.kind u.kind _ _ ht.address_length hu.address_length (at 3),
      number_eq _ _ ht.value_lt hu.value_lt (at 4),
      number_eq _ _ ht.storage_limit_lt hu.storage_limit_lt (at 5),
      number_eq _ _ ht.epoch_height_lt hu.epoch_height_lt (at 6),
      number_eq _ _ ht.chain_id_lt hu.chain_id_lt (at 7),
      at 8,
    )

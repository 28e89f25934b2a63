-- ===== src/Transaction/Signed.antt =====
-- What signing, hashing and the setters leave in a transaction.
use cpp_conflux_sdk.Common.Outcome.{
  Exception, Outcome, ok, throw, secret_is_empty, transaction_is_unsigned, ◌>>=◌,
}
use cpp_conflux_sdk.Common.{
  ℕ, ◌^◌, ◌<◌, ◌≡◌, refl, ap, ◌∙◌, true, false, Bool-cases, inl, inr, Option, none, some, arith,
  Bytes, replicate, length, length-append, ◌⊎◌,
}
use cpp_conflux_sdk.Rlp.Item.{encode, encode_items, content, length-content}
use cpp_conflux_sdk.Cfxaddress.Address.{Address}
use cpp_conflux_sdk.Transaction.{
  Transaction, Signature, Crypto, IncludeSignature, without_signature, with_signature, stream_rlp,
  stream_fields, stream_signature, with_to, with_receive, with_nonce, receiver_bytes,
}
use cpp_conflux_sdk.Transaction.Signing.{
  nonzero, is_valid, streamed, sha3, sign, sign_transaction, sender, sender_with, sender_by,
  recovered, has_zero_signature,
}
use cpp_conflux_sdk.Transaction.Encodes.{
  fields, signed_fields, streamed-fields, streamed-signed_fields,
}

fields_small :
    (t : Transaction) (sig : Signature)
    → length (encode (signed_fields t sig)) < 2 ^ 64
    → length (encode (fields t)) < 2 ^ 64
unfolding signed_fields content encode_items
fields_small t sig small =
    let inside = length-content (signed_fields t sig) in
    omega (arith, small, inside, length-append (encode (fields t)) _)

-- The fields do not depend on the signature.
signed_bytes :
    (t : Transaction) (sig : Signature)
    → length (encode (signed_fields t sig)) < 2 ^ 64
    → streamed (record t { vrs = some sig }) with_signature ≡ ok (encode (signed_fields t sig))
unfolding signed_fields fields
signed_bytes t sig small = streamed-signed_fields (record t { vrs = some sig }) sig refl small

option_cases {ℓ} : {A : Type ℓ} (o : Option A) → (o ≡ none) ⊎ ((a : A) × (o ≡ some a))
option_cases none = inl refl
option_cases (some a) = inr (a, refl)

outcome_cases {ℓ} :
    {A : Type ℓ} (m : Outcome A) → ((a : A) × (m ≡ ok a)) ⊎ ((e : Exception) × (m ≡ throw e))
outcome_cases (ok a) = inl (a, refl)
outcome_cases (throw e) = inr (e, refl)

module _ (c : Crypto) where
  -- The signature over the hash of the nine fields.
  unfoldable pub signature_of : Transaction → Signature
  signature_of t = c.sign_hash t.secret (c.keccak (encode (fields t)))

  -- Signing with a secret that is not all zeros, where the curve gives a valid signature and the coding
  -- has fewer than 2 ^ 64 bytes: the bytes are the coding of the fields with that signature, which is over the hash of the coded fields, and only
  -- the signature changes in the transaction.
  pub sign_transaction-signed_fields :
      (t : Transaction)
      → nonzero t.secret ≡ true
      → is_valid (signature_of t) ≡ true
      → length (encode (signed_fields t (signature_of t))) < 2 ^ 64
      → sign_transaction c t
        ≡ ok (encode (signed_fields t (signature_of t)), record t { vrs = some (signature_of t) })
  unfolding sign_transaction sign sha3 signature_of
  sign_transaction-signed_fields t secret valid small =
      let unsigned = streamed-fields t (fields_small t (signature_of t) small) in
      let signed = signed_bytes t (signature_of t) small in rw (secret, unsigned, valid, signed)

  -- Without a secret nothing is signed.
  pub sign_transaction_no_secret :
      (t : Transaction) → nonzero t.secret ≡ false → sign_transaction c t ≡ throw secret_is_empty
  unfolding sign_transaction
  sign_transaction_no_secret t h = rw h

  sender_known :
      (t : Transaction) (addr : Bytes)
      → sender c (record t { sender_cache = some addr })
        ≡ ok (addr, record t { sender_cache = some addr })
  unfolding sender sender_with sender_by
  sender_known t addr = refl

  sender_of_known : (t : Transaction) (a : Bytes) → t.sender_cache ≡ some a → sender c t ≡ ok (a, t)
  unfolding sender sender_with sender_by
  sender_of_known t a e = ap (λ (o : Option Bytes). sender_with c t o) e

  sender_of_zero :
      (t : Transaction)
      → t.sender_cache ≡ none
      → has_zero_signature t ≡ true
      → sender c t ≡ ok (replicate 20 0xff, record t { sender_cache = some (replicate 20 0xff) })
  unfolding sender sender_with sender_by
  sender_of_zero t e zero = ap (λ (o : Option Bytes). sender_with c t o) e ∙ rw zero

  sender_unsigned :
      (t : Transaction)
      → t.sender_cache ≡ none
      → has_zero_signature t ≡ false
      → t.vrs ≡ none
      → sender c t ≡ throw transaction_is_unsigned
  unfolding sender sender_with sender_by
  sender_unsigned t e other unsigned =
      ap (λ (o : Option Bytes). sender_with c t o) e
      ∙ rw other (ap (λ (o : Option Signature). sender_by c t o) unsigned)

  sender-recovered :
      (t : Transaction) (sig : Signature)
      → t.sender_cache ≡ none
      → has_zero_signature t ≡ false
      → t.vrs ≡ some sig
      → sender c t ≡ recovered c t sig
  unfolding sender sender_with sender_by
  sender-recovered t sig e other signed =
      ap (λ (o : Option Bytes). sender_with c t o) e
      ∙ rw other (ap (λ (o : Option Signature). sender_by c t o) signed)

  recovered_again :
      (t : Transaction) (sig : Signature)
      → (recovered c t sig >>= λ first. sender c first.1) ≡ recovered c t sig
  unfolding recovered sha3
  recovered_again t sig = elim (outcome_cases (streamed t without_signature)) [
    | inr failed ↦ rw failed.1
    | inl d ↦ elim (Bool-cases (nonzero (c.recover sig (c.keccak d.0)))) [
      | inl public ↦ rw (d.1, public) (sender_known t _)
      | inr none' ↦ rw (d.1, none')
    ]
  ]

  -- Asking for the sender twice answers the same as asking once, whether the sender was known, is the
  -- one of the zero signature, is recovered, or cannot be told; and the transaction that the first call
  -- leaves is the one that the second leaves.
  pub sender_again : (t : Transaction) → (sender c t >>= λ first. sender c first.1) ≡ sender c t
  sender_again t = elim (option_cases t.sender_cache) [
    | inr known ↦ let h = sender_of_known t known.0 known.1 in rw h h
    | inl unknown ↦ elim (Bool-cases (has_zero_signature t)) [
      | inl zero ↦ rw (sender_of_zero t unknown zero) (sender_known t _)
      | inr other ↦ elim (option_cases t.vrs) [
        | inl unsigned ↦ rw (sender_unsigned t unknown other unsigned)
        | inr sig ↦ rw (sender-recovered t sig.0 unknown other sig.1) (recovered_again t sig.0)
      ]
    ]
  ]

  -- The hash of the signed transaction is not taken anew when a member is set: it stays the hash that
  -- was taken first.
  pub sha3_stale :
      (t : Transaction) (d : Bytes) (n : ℕ)
      → streamed t with_signature ≡ ok d
      → nonzero t.hash_with ≡ false
      → nonzero (c.keccak d) ≡ true
      → (sha3 c t with_signature >>= λ first.
          sha3 c (with_nonce first.1 n) with_signature >>= λ again. ok again.0)
        ≡ ok (c.keccak d)
  unfolding sha3 with_nonce
  sha3_stale t d n e fresh h = rw (fresh, e, h)

-- `withTo` and `withReceive` set no member that is streamed: the bytes, signed or not, and so the
-- receiver in them, are as before.
pub streamed-with_to :
    (t : Transaction) (addr : Address) (sig : IncludeSignature)
    → (streamed (with_to t addr) sig ≡ streamed t sig)
      × (streamed (with_receive t addr) sig ≡ streamed t sig)
unfolding streamed stream_rlp stream_fields stream_signature with_to with_receive receiver_bytes
streamed-with_to t addr without_signature = (refl, refl)
streamed-with_to t addr with_signature = (refl, refl)

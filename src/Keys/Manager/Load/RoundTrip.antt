-- ===== src/Keys/Manager/Load/RoundTrip.antt =====
-- What `write` has written is loaded again.
use cpp_conflux_sdk.Common.Outcome.{ok}
use cpp_conflux_sdk.Common.{
  some, ◌-◌, ◌^◌, ◌≤◌, ◌<◌, ◌≡◌, refl, Bool, false, [], ◌∷◌, arith, Bytes, length, replicate,
  length-append, ◌==◌, if◌then◌else◌, Bool-cases, inl, inr,
}
use cpp_conflux_sdk.Rlp.Item.{
  Item, Items, str, lst, nil, cons, count, encode, encode_items, nth, skip, first, codings,
}
use cpp_conflux_sdk.Rlp.Reader.{strict, very_strict, construct}
use cpp_conflux_sdk.Rlp.Reader.Sizes.{construct-encode_whole}
use cpp_conflux_sdk.Rlp.Reader.Items.{item_count}
use cpp_conflux_sdk.Rlp.Reader.Items.Walk.{encode_items-small, item_count-encode, visited-encode}
use cpp_conflux_sdk.Rlp.Reader.Index.{no_access}
use cpp_conflux_sdk.Rlp.Reader.Index.History.{IsReached, at_index-IsReached}
use cpp_conflux_sdk.Rlp.Reader.Values.{to_int}
use cpp_conflux_sdk.Rlp.Reader.Values.Hashes.{to_hash-encode, to_string-encode, to_int-one}
use cpp_conflux_sdk.CommonData.Endian.{
  to_compact_big_endian, to_big_endian, bytes_required, count_bytes,
}
use cpp_conflux_sdk.FixedHash.{is_set, of_bytes, fail_if_different}
use cpp_conflux_sdk.Keys.{Libraries}
use cpp_conflux_sdk.Keys.Store.{save}
use cpp_conflux_sdk.Keys.Envelope.{encrypt_sym, pbkdf2}
use cpp_conflux_sdk.Keys.Envelope.RoundTrip.{IsDocumented, decrypt_sym-encrypt_sym}
use cpp_conflux_sdk.Keys.Table.{Table, contains, insert}
use cpp_conflux_sdk.Keys.Manager.{KeyInfo, KeyManager, uuid_of}
use cpp_conflux_sdk.Keys.Manager.KeysFile.{hint_items, info_items, contents}
use cpp_conflux_sdk.Keys.Manager.Load.{
  read_info, read_hints, adopted, read_key, read_keys, read_file, unlocked, load,
}

-- The items of a list are smaller than its coding.
abbrev Small : Bytes → Type 0
Small d = length d < 2 ^ 64 - 1 - 0x100

Small-items : (xs : Items) → Small (encode (lst xs)) → Small (encode_items xs)
Small-items xs small = encode_items-small xs _ small

Small-first : (x : Item) (xs : Items) → Small (encode_items (cons x xs)) → Small (encode x)
unfolding encode_items
Small-first x xs small = omega (arith, small, length-append (encode x) (encode_items xs))

Small-rest : (x : Item) (xs : Items) → Small (encode_items (cons x xs)) → Small (encode_items xs)
unfolding encode_items
Small-rest x xs small = omega (arith, small, length-append (encode x) (encode_items xs))

-- The hints stand under hashes of 32 bytes.
abbrev pub AreHashes : Table Bytes → Type 0
AreHashes [] = Unit
AreHashes ((h, hint) ∷ t) = (length h ≡ 32) × AreHashes t

-- What is written of a key.
abbrev five : Bytes → Bytes → KeyInfo → Items
five address uuid k = cons (str address) (
    cons (str uuid)
      (cons (str k.pass_hash) (cons (str k.account_name) (cons (str k.password_hint) nil))))

module _ {Text : Type 0} where
  abbrev with_hints : Table Bytes → KeyManager Text → KeyManager Text
  with_hints [] m = m
  with_hints ((h, hint) ∷ t) m =
      with_hints t (record m { password_hints = insert h hint m.password_hints })

  read_hints-codings :
      (t : Table Bytes) (m : KeyManager Text)
      → AreHashes t
      → Small (encode_items (hint_items t))
      → read_hints (codings (hint_items t)) m ≡ ok (with_hints t m)
  unfolding read_hints codings hint_items
  read_hints-codings [] m sizes small = refl
  read_hints-codings ((h, hint) ∷ t) m sizes small =
      let pair : Items = cons (str h) (cons (str hint) nil) in
      let small_pair : Small (encode (lst pair)) = Small-first (lst pair) (hint_items t) small in
      let parts = Small-items pair small_pair in
      let (c1, e0, r1) =
        at_index-IsReached pair small_pair no_access 0 (unfold IsReached in inl refl)
          (omega arith) in
      let (c2, e1, r2) = at_index-IsReached pair small_pair c1 1 r1 (omega arith) in
      let n0 : nth pair 0 ≡ encode (str h) = unfold nth skip first in refl in
      let n1 : nth pair 1 ≡ encode (str hint) = unfold nth skip first in refl in
      rw
        (
          e0,
          n0,
          to_hash-encode 32 h sizes.0 (Small-first (str h) _ parts),
          e1,
          n1,
          to_string-encode hint (Small-first (str hint) nil (Small-rest (str h) _ parts)),
        )
        (read_hints-codings t (record m { password_hints = insert h hint m.password_hints }) sizes.1
          (Small-rest (lst pair) (hint_items t) small))

  -- The sizes that the hashes of a key have.
  abbrev pub AreKeys : KeyManager Text → Table KeyInfo → Type 0
  AreKeys m [] = Unit
  AreKeys m ((address, k) ∷ t) =
      (length address ≡ 20)
      × (length (uuid_of address m) ≡ 16)
      × (length k.pass_hash ≡ 32)
      × AreKeys m t

  -- A key that is loaded: with an identifier it has to be in the store, without one its name is kept.
  abbrev pub entered : Bytes → Bytes → KeyInfo → Bool → KeyManager Text → Bool × KeyManager Text
  entered uuid address k required m =
      if is_set uuid
      then (if contains uuid m.store.keys then adopted uuid address k required m else (required, m))
      else (required, record m { key_info = insert address k m.key_info })

  abbrev pub with_keys :
      KeyManager Text → Table KeyInfo → Bool → KeyManager Text → Bool × KeyManager Text
  with_keys old [] required m = (required, m)
  with_keys old ((address, k) ∷ t) required m =
      let e = entered (uuid_of address old) address k required m in with_keys old t e.0 e.1

  read_key-encode :
      (address uuid : Bytes) (k : KeyInfo) (required : Bool) (m : KeyManager Text)
      → length address ≡ 20
      → length uuid ≡ 16
      → length k.pass_hash ≡ 32
      → Small (encode (lst (five address uuid k)))
      → read_key (encode (lst (five address uuid k))) required m
        ≡ ok (entered uuid address k required m)
  unfolding read_key count
  read_key-encode address uuid k required m asize usize hsize small =
      let xs : Items = five address uuid k in
      let s0 = Small-items xs small in
      let s1 = Small-rest (str address) _ s0 in
      let s2 = Small-rest (str uuid) _ s1 in
      let s3 = Small-rest (str k.pass_hash) _ s2 in
      let s4 = Small-rest (str k.account_name) _ s3 in
      let (c1, e1, r1) =
        at_index-IsReached xs small no_access 1 (unfold IsReached in inl refl) (omega arith) in
      let (c0, e0, r0) = at_index-IsReached xs small c1 0 r1 (omega arith) in
      let (c2, e2, r2) = at_index-IsReached xs small c0 2 r0 (omega arith) in
      let (c3, e3, r3) = at_index-IsReached xs small c2 3 r2 (omega arith) in
      let (c4, e4, r4) = at_index-IsReached xs small c3 4 r3 (omega arith) in
      let n0 : nth xs 0 ≡ encode (str address) = unfold nth skip first in refl in
      let n1 : nth xs 1 ≡ encode (str uuid) = unfold nth skip first in refl in
      let n2 : nth xs 2 ≡ encode (str k.pass_hash) = unfold nth skip first in refl in
      let n3 : nth xs 3 ≡ encode (str k.account_name) = unfold nth skip first in refl in
      let n4 : nth xs 4 ≡ encode (str k.password_hint) = unfold nth skip first in refl in
      let five_items : item_count (encode (lst xs)) ≡ ok 5 = item_count-encode xs small in
      let info : read_info (encode (lst xs)) c0 ≡ ok k =
        unfold read_info in
        rw (
          e2,
          n2,
          to_hash-encode 32 k.pass_hash hsize (Small-first (str k.pass_hash) _ s2),
          e3,
          n3,
          to_string-encode k.account_name (Small-first (str k.account_name) _ s3),
          five_items,
          e4,
          n4,
          to_string-encode k.password_hint (Small-first (str k.password_hint) _ s4),
        ) in
      rw
        (
          e1,
          n1,
          to_hash-encode 16 uuid usize (Small-first (str uuid) _ s1),
          e0,
          n0,
          to_hash-encode 20 address asize (Small-first (str address) _ s0),
          info,
        )
        (elim (Bool-cases (is_set uuid)) [
          | inl given ↦ elim (Bool-cases (contains uuid m.store.keys)) [
            | inl stored ↦ rw (given, stored)
            | inr missing ↦ rw (given, missing)
          ]
          | inr absent ↦ rw absent
        ])

  read_keys-codings :
      (old : KeyManager Text) (t : Table KeyInfo) (required : Bool) (m : KeyManager Text)
      → AreKeys old t
      → Small (encode_items (info_items old t))
      → read_keys (codings (info_items old t)) required m ≡ ok (with_keys old t required m)
  unfolding read_keys codings info_items
  read_keys-codings old [] required m sizes small = refl
  read_keys-codings old ((address, k) ∷ t) required m sizes small =
      let uuid = uuid_of address old in
      let one =
        read_key-encode address uuid k required m sizes.0 sizes.1 sizes.2
          (Small-first (lst (five address uuid k)) (info_items old t) small) in
      let e = entered uuid address k required m in
      rw one (
        read_keys-codings old t e.0 e.1 sizes.3
          (Small-rest (lst (five address uuid k)) (info_items old t) small))

module _ {Text : Type 0} (l : Libraries Text) (equivalent : Bytes → Bytes → Bool) where
  -- What a manager knows when it has read the file that another one, `old`, has written.
  abbrev pub restored : KeyManager Text → KeyManager Text → KeyManager Text
  restored old m =
      let r = with_keys old old.key_info false m in
      let saved = record r.1 { store = save l equivalent r.1.store.path r.1.store } in
      let m' = with_hints old.password_hints (if r.0 then saved else r.1) in
      record m' { default_password_deprecated = old.default_password_deprecated }

  -- The decrypted file is read as the manager that wrote it.
  pub read_file-encode :
      (old m : KeyManager Text)
      → AreKeys old old.key_info
      → AreHashes old.password_hints
      → Small (encode (contents old))
      → read_file l equivalent (encode (contents old)) m ≡ ok (restored old m)
  unfolding read_file contents
  read_file-encode old m keys hints small =
      let infos : Items = info_items old old.key_info in
      let hinted : Items = hint_items old.password_hints in
      let version : Bytes = to_compact_big_endian 1 0 in
      let default : Bytes = old.default_password_deprecated in
      let xs : Items =
        cons (str version) (cons (lst infos) (cons (lst hinted) (cons (str default) nil))) in
      let s0 = Small-items xs small in
      let s1 = Small-rest (str version) _ s0 in
      let s2 = Small-rest (lst infos) _ s1 in
      let s3 = Small-rest (lst hinted) _ s2 in
      let small_infos = Small-first (lst infos) _ s1 in
      let small_hints = Small-first (lst hinted) _ s2 in
      let whole : construct (encode (lst xs)) very_strict ≡ ok (encode (lst xs)) =
        construct-encode_whole (lst xs) small in
      let (c0, e0, r0) =
        at_index-IsReached xs small no_access 0 (unfold IsReached in inl refl) (omega arith) in
      let (c1, e1, r1) = at_index-IsReached xs small c0 1 r0 (omega arith) in
      let (c2, e2, r2) = at_index-IsReached xs small c1 2 r1 (omega arith) in
      let (c3, e3, r3) = at_index-IsReached xs small c2 3 r2 (omega arith) in
      let n0 : nth xs 0 ≡ encode (str version) = unfold nth skip first in refl in
      let n1 : nth xs 1 ≡ encode (lst infos) = unfold nth skip first in refl in
      let n2 : nth xs 2 ≡ encode (lst hinted) = unfold nth skip first in refl in
      let n3 : nth xs 3 ≡ encode (str default) = unfold nth skip first in refl in
      let is_one : to_int 32 4 (encode (str version)) strict ≡ ok 1 =
        (let one : version ≡ 1 ∷ [] =
            unfold to_compact_big_endian to_big_endian bytes_required count_bytes in refl in
          rw one to_int-one) in
      rw
        (
          whole,
          e0,
          n0,
          is_one,
          e1,
          n1,
          visited-encode infos small_infos,
          read_keys-codings old old.key_info false m keys (Small-items infos small_infos),
          e2,
          n2,
          visited-encode hinted small_hints,
          read_hints-codings old.password_hints _ hints (Small-items hinted small_hints),
          e3,
          n3,
          to_string-encode default (Small-first (str default) nil s3),
        )
        refl

  -- If the libraries do what they document, and the identifiers, addresses and hashes of a manager have
  -- their sizes: the coding of what it knows, encrypted under the key of a password and a salt,
  -- if that has some bytes and the coding fewer than 2 ^ 64 - 257, is loaded by any manager with that
  -- password and salt as the keys, the hints and the default password of the manager that wrote: a
  -- key with an identifier is entered if the store has it, one without is entered by its name.
  pub load-encode :
      (documented : IsDocumented l) (old m : KeyManager Text) (pass salt key : Bytes)
      → AreKeys old old.key_info
      → AreHashes old.password_hints
      → Small (encode (contents old))
      → l.pbkdf2_derive pass salt 262144 16 ≡ some key
      → 1 ≤ length (encrypt_sym l key (replicate 16 0) (encode (contents old)))
      → load l equivalent pass salt (encrypt_sym l key (replicate 16 0) (encode (contents old))) m
        ≡ unlocked l equivalent pass key (restored old (record m { keys_file_key = key }))
  unfolding load pbkdf2
  load-encode documented old m pass salt key keys hints small derived some_bytes =
      let size : length key ≡ 16 = documented.pbkdf2_length pass salt 262144 16 key derived in
      let plain = encode (contents old) in
      let cipher = encrypt_sym l key (replicate 16 0) plain in
      let undone =
        decrypt_sym-encrypt_sym l documented key (replicate 16 0) plain cipher size refl
          some_bytes in
      let not_empty : (length cipher == 0) ≡ false = ground (arith, some_bytes) in
      let same : of_bytes 16 key fail_if_different ≡ key =
        unfold of_bytes in rw size (ground arith) in
      rw
        (
          not_empty,
          derived,
          same,
          undone.0,
          read_file-encode old (record m { keys_file_key = key }) keys hints small,
        )
        refl

-- ===== src/Keys/Manager/KeysFile.antt =====
-- The keys file is the canonical coding of what the manager knows.
use cpp_conflux_sdk.Common.Outcome.{Outcome, ok, bind-ok, bind_assoc, ◌>>=◌}
use cpp_conflux_sdk.Common.{
  ◌^◌, ◌<◌, suc, ◌≡◌, refl, sym, ap, ◌∙◌, false, List, [], ◌∷◌, Bytes, length,
}
use cpp_conflux_sdk.CommonData.Endian.{to_compact_big_endian}
use cpp_conflux_sdk.Rlp.Item.{Item, Items, str, lst, nil, cons, count, encode}
use cpp_conflux_sdk.Rlp.Stream.{
  Stream, empty, append, append_int, append_list, finished, write, write_items, rlp,
}
use cpp_conflux_sdk.Rlp.Stream.Refines.{rlp-encode}
use cpp_conflux_sdk.Rlp.Stream.Integers.{append_int-to_compact_big_endian}
use cpp_conflux_sdk.Keys.Table.{Table}
use cpp_conflux_sdk.Keys.Manager.{
  KeyManager, KeyInfo, uuid_of, stream_infos, stream_hints, stream_keys,
}

then_same :
    (m : Outcome Stream) (f g : Stream → Outcome Stream)
    → ((st : Stream) → f st ≡ g st)
    → (m >>= f) ≡ (m >>= g)
then_same m f g same = ap (λ k. m >>= k) (λ i st. same st i)

grouped :
    (m : Outcome Stream) (f k g : Stream → Outcome Stream)
    → ((st : Stream) → k st ≡ g st)
    → (m >>= λ st. f st >>= k) ≡ (m >>= f >>= g)
grouped m f k g same = ap (λ k. m >>= λ st. f st >>= k) (λ i st. same st i) ∙ sym (bind_assoc m f g)

-- Steps that write, one after the other, and what follows them.
abbrev steps : List (Stream → Outcome Stream) → (Stream → Outcome Stream) → Stream → Outcome Stream
steps [] next st = next st
steps (f ∷ fs) next st = f st >>= steps fs next

steps-then :
    (fs : List (Stream → Outcome Stream)) (next g : Stream → Outcome Stream)
    → ((st : Stream) → next st ≡ g st)
    → (st : Stream) → steps fs next st ≡ (steps fs (λ st. ok st) st >>= g)
steps-then [] next g same st = same st
steps-then (f ∷ fs) next g same st =
    then_same (f st) (steps fs next) (λ st. steps fs (λ st. ok st) st >>= g)
      (steps-then fs next g same)
    ∙ sym (bind_assoc (f st) (steps fs (λ st. ok st)) g)

-- The step that appends a string.
abbrev string : Bytes → Stream → Outcome Stream
string b st = append st b false

unfoldable pub hint_items : Table Bytes → Items
hint_items [] = nil
hint_items ((hash, hint) ∷ t) = cons (lst (cons (str hash) (cons (str hint) nil))) (hint_items t)

stream_hints-write :
    (t : Table Bytes) (st : Stream) → stream_hints t st ≡ write_items (hint_items t) st
unfolding stream_hints hint_items write count
stream_hints-write [] st = refl
stream_hints-write ((hash, hint) ∷ t) st =
    steps-then ((λ st. append_list st 2) ∷ (string hash ∷ (string hint ∷ []))) (stream_hints t)
      (write_items (hint_items t)) (stream_hints-write t) st

count-hint_items : (t : Table Bytes) → count (hint_items t) ≡ length t
unfolding hint_items count
count-hint_items [] = refl
count-hint_items ((hash, hint) ∷ t) = ap suc (count-hint_items t)

module _ {Text : Type 0} where
  unfoldable pub info_items : KeyManager Text → Table KeyInfo → Items
  info_items m [] = nil
  info_items m ((address, k) ∷ t) =
      cons
        (lst (
          cons (str address) (
            cons (str (uuid_of address m)) (
              cons (str k.pass_hash)
                (cons (str k.account_name) (cons (str k.password_hint) nil))))))
        (info_items m t)

  stream_infos-write :
      (m : KeyManager Text) (t : Table KeyInfo) (st : Stream)
      → stream_infos m t st ≡ write_items (info_items m t) st
  unfolding stream_infos info_items write count
  stream_infos-write m [] st = refl
  stream_infos-write m ((address, k) ∷ t) st =
      steps-then
        ((λ st. append_list st 5)
          ∷ (string address
              ∷ (string (uuid_of address m)
                  ∷ (string k.pass_hash
                      ∷ (string k.account_name ∷ (string k.password_hint ∷ []))))))
        (stream_infos m t) (write_items (info_items m t)) (stream_infos-write m t) st

  count-info_items : (m : KeyManager Text) (t : Table KeyInfo) → count (info_items m t) ≡ length t
  unfolding info_items count
  count-info_items m [] = refl
  count-info_items m ((address, k) ∷ t) = ap suc (count-info_items m t)

  -- What the file holds: the version, the keys, the hints by the hash of their password, the default password.
  unfoldable pub contents : KeyManager Text → Item
  contents m = lst (
      cons (str (to_compact_big_endian 1 0)) (
        cons (lst (info_items m m.key_info)) (
          cons (lst (hint_items m.password_hints)) (cons (str m.default_password_deprecated) nil))))

  stream_keys-write : (m : KeyManager Text) (st : Stream) → stream_keys m st ≡ write (contents m) st
  unfolding stream_keys contents write count
  stream_keys-write m st =
      let infos : stream_infos m m.key_info ≡ write_items (info_items m m.key_info) =
        λ i st. stream_infos-write m m.key_info st i in
      let hints : stream_hints m.password_hints ≡ write_items (hint_items m.password_hints) =
        λ i st. stream_hints-write m.password_hints st i in
      let int : append_int ≡ λ st i. append st (to_compact_big_endian i 0) false =
        λ t st i. append_int-to_compact_big_endian st i t in
      rw (infos, hints, int, count-info_items m m.key_info, count-hint_items m.password_hints)
        (then_same (append_list st 4) _ _ (λ st.
          then_same (append st (to_compact_big_endian 1 0) false) _ _ (λ st.
            grouped (append_list st (length m.key_info)) (write_items (info_items m m.key_info)) _ _
              (λ st.
                grouped (append_list st (length m.password_hints))
                  (write_items (hint_items m.password_hints)) _ _
                  (λ st. sym (bind-ok (append st m.default_password_deprecated false)))))))

  -- The bytes that `write` encrypts for the keys file are the canonical coding of its contents, if that
  -- has fewer than 2 ^ 64 bytes.
  pub stream_keys-encode :
      (m : KeyManager Text)
      → length (encode (contents m)) < 2 ^ 64
      → (stream_keys m empty >>= finished) ≡ ok (encode (contents m))
  stream_keys-encode m small =
      rw (stream_keys-write m empty) (unfold rlp in rlp-encode (contents m) small)

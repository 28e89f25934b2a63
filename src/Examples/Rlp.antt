-- ===== src/Examples/Rlp.antt =====
-- RLP at concrete items: what is written, and what is read from it.
use cpp_conflux_sdk.Common.Outcome.{ok, throw, ◌>>=◌, oversize_rlp}
use cpp_conflux_sdk.Common.{
  ◌-◌, ◌^◌, ◌<◌, ◌≤◌, ◌≡◌, refl, inl, if◌then◌else◌, [], ◌∷◌, ◌++◌, map, arith, codes, length,
}
use cpp_conflux_sdk.CommonData.Endian.{bytes_required}
use cpp_conflux_sdk.CommonData.Endian.Compact.{bytes_required_iff}
use cpp_conflux_sdk.Rlp.Item.{
  Item, Items, str, lst, nil, cons, head, encode, encode_str, codings, nth,
}
use cpp_conflux_sdk.Rlp.Stream.{empty, append_int, finished, rlp}
use cpp_conflux_sdk.Rlp.Stream.Refines.{rlp-encode}
use cpp_conflux_sdk.Rlp.Reader.{strict, very_strict, construct, is_null}
use cpp_conflux_sdk.Rlp.Reader.Sizes.{construct-encode}
use cpp_conflux_sdk.Rlp.Reader.Items.{visited}
use cpp_conflux_sdk.Rlp.Reader.Items.Walk.{visited-encode}
use cpp_conflux_sdk.Rlp.Reader.Index.{Cache, no_access, at_index}
use cpp_conflux_sdk.Rlp.Reader.Index.History.{
  IsReached, lookups, at_index-IsReached, lookups-encode,
}
use cpp_conflux_sdk.Rlp.Reader.Values.{to_int}
use cpp_conflux_sdk.Rlp.Reader.Values.Integers.{to_int-append_int}
use cpp_conflux_sdk.Rlp.Reader.Unique.{rlp_injective}

-- The list of "cat", "dog" and an inner list of one empty string.
abbrev cat : Item
cat = str (codes "cat")

abbrev pets : Items
pets = cons cat (cons (str (codes "dog")) (cons (lst (cons (str []) nil)) nil))

pets_small : length (encode (lst pets)) < 2 ^ 64 - 1 - 0x100
unfolding encode encode_str head
pets_small = omega arith

cat_small : length (encode cat) < 2 ^ 64 - 1 - 0x100
unfolding encode encode_str head
cat_small = omega arith

rlp-encode_example : rlp (lst pets) ≡ ok (encode (lst pets))
rlp-encode_example = rlp-encode (lst pets) (omega (arith, pets_small))

construct-encode_example :
    construct (encode (lst pets) ++ (1 ∷ [])) very_strict
    ≡ (if is_null (1 ∷ []) then ok (encode (lst pets)) else throw oversize_rlp)
construct-encode_example = construct-encode (lst pets) (1 ∷ []) pets_small

visited-encode_example : visited (encode (lst pets)) ≡ ok (codings pets)
visited-encode_example = visited-encode pets pets_small

at_index-IsReached_example :
    (c' : Cache) × (at_index (encode (lst pets)) no_access 2 ≡ ok (nth pets 2, c'))
    × IsReached pets c'
at_index-IsReached_example =
    at_index-IsReached pets pets_small no_access 2 (unfold IsReached in inl refl) (omega arith)

lookups-encode_example :
    lookups (encode (lst pets)) no_access (2 ∷ (0 ∷ (5 ∷ [])))
    ≡ ok (map (λ i. nth pets i) (2 ∷ (0 ∷ (5 ∷ []))))
lookups-encode_example = lookups-encode pets pets_small (2 ∷ (0 ∷ (5 ∷ []))) (ground arith)

three_hundred : bytes_required 300 ≤ 32
three_hundred = (bytes_required_iff 300 32).0 (omega arith)

to_int-append_int_example :
    (append_int empty 300 >>= finished >>= λ d. to_int 256 32 d strict) ≡ ok 300
to_int-append_int_example = to_int-append_int 256 32 300 (omega arith) three_hundred (omega arith)

rlp_injective_example : cat ≡ cat
rlp_injective_example = rlp_injective cat cat cat_small cat_small refl

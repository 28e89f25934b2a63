-- ===== src/FixedHash.antt =====
-- libdevcore/FixedHash.h: arrays of a fixed number of bytes. The bytes are a list of that length; the
-- number N of the template is an argument where the list does not tell it.
pub mod Order
pub mod Bloom
pub mod Uuid
use mathlib.Core.List.{reverse}
use cpp_conflux_sdk.Common.Outcome.{Outcome, ok, throw, ◌>>=◌}
use cpp_conflux_sdk.Common.{
  ℕ, zero, suc, ◌+◌, ◌-◌, ◌*◌, ◌/◌, ◌%◌, ◌^◌, bit_and, bit_or, bit_xor, Bool, true, false, not,
  ◌||◌, List, [], ◌∷◌, ◌++◌, Bytes, codes, length, take, drop, replicate, get_or, bytes_eq, ltb,
  ◌==◌, if◌then◌else◌,
}
use cpp_conflux_sdk.CommonData.HexText.{throw_error, from_hex, to_hex}

-- `ConstructFromHashType`.
pub data ConstructFromHashType : Type 0 where
  align_left align_right fail_if_different : ConstructFromHashType

-- The loop of the constructors that goes up: the first bytes, filled with zeros.
unfoldable pub copy_left : ℕ → Bytes → Bytes
copy_left zero b = []
copy_left (suc n) [] = 0 ∷ copy_left n []
copy_left (suc n) (x ∷ b) = x ∷ copy_left n b

-- The one that goes down from the last bytes.
unfoldable pub copy_right : ℕ → Bytes → Bytes
copy_right n b = reverse (copy_left n (reverse b))

-- `FixedHash(bytes, type)`, also for a `bytesConstRef`.
unfoldable pub of_bytes : ℕ → Bytes → ConstructFromHashType → Bytes
of_bytes n b align_left = if length b == n then b else copy_left n b
of_bytes n b align_right = if length b == n then b else copy_right n b
of_bytes n b fail_if_different = if length b == n then b else replicate n 0

-- `FixedHash(string)`, the text in hexadecimal.
unfoldable pub of_hex : ℕ → Bytes → ConstructFromHashType → Outcome Bytes
of_hex n s t = from_hex s throw_error >>= λ b. ok (of_bytes n b t)

-- `FixedHash(FixedHash)`.
unfoldable pub of_hash : ℕ → Bytes → ConstructFromHashType → Bytes
of_hash n h align_right = copy_right n h
of_hash n h align_left = copy_left n h
of_hash n h fail_if_different = copy_left n h

-- `operator bool`.
unfoldable pub is_set : Bytes → Bool
is_set [] = false
is_set (b ∷ h) = not (b == 0) || is_set h

-- `operator<`: the loop over both arrays.
unfoldable pub less : Bytes → Bytes → Bool
less [] c = false
less (x ∷ h) [] = false
less (x ∷ h) (y ∷ c) = if ltb x y then true else if ltb y x then false else less h c

-- The binary operators.
unfoldable pub zip_with : (ℕ → ℕ → ℕ) → Bytes → Bytes → Bytes
zip_with f [] c = []
zip_with f (x ∷ h) [] = []
zip_with f (x ∷ h) (y ∷ c) = f x y ∷ zip_with f h c

unfoldable pub hash_xor : Bytes → Bytes → Bytes
hash_xor h c = zip_with bit_xor h c

pub hash_or : Bytes → Bytes → Bytes
hash_or h c = zip_with bit_or h c

pub hash_and : Bytes → Bytes → Bytes
hash_and h c = zip_with bit_and h c

unfoldable pub hash_not : Bytes → Bytes
hash_not [] = []
hash_not (x ∷ h) = (255 - x) ∷ hash_not h

-- `SecureFixedHash`: all three compound operators call the exclusive or.
unfoldable pub secure_or : Bytes → Bytes → Bytes
secure_or h c = hash_xor h c

unfoldable pub secure_and : Bytes → Bytes → Bytes
secure_and h c = hash_xor h c

-- `operator++`: the loop from the last byte, over the bytes in that order.
unfoldable pub carry : Bytes → Bytes
carry [] = []
carry (x ∷ h) =
    let rest = carry h in
    if (x + 1) % 2 ^ 8 == 0 then (x + 1) % 2 ^ 8 ∷ rest else (x + 1) % 2 ^ 8 ∷ h

unfoldable pub increment : Bytes → Bytes
increment h = reverse (carry (reverse h))

-- `contains`: all bits of the other are set.
pub contains : Bytes → Bytes → Bool
contains h c = bytes_eq (hash_and h c) c

-- `StaticLog2<N>`, on as much fuel as N, since a half is smaller.
unfoldable pub static_log2 : ℕ → ℕ → ℕ
static_log2 zero n = 0
static_log2 (suc fuel) n = let rest = 1 + static_log2 fuel (n / 2) in if n == 1 then 0 else rest

-- `ret[place] |= bits`.
pub set_bits : ℕ → ℕ → Bytes → Bytes
set_bits place bits [] = []
set_bits zero bits (x ∷ h) = bit_or x bits ∷ h
set_bits (suc place) bits (x ∷ h) = x ∷ set_bits place bits h

-- The inner loop of `bloomPart`, over the bytes it reads; an `unsigned` has 32 bits.
pub bloom_index : ℕ → Bytes → ℕ
bloom_index index [] = index
bloom_index index (x ∷ p) = bloom_index (bit_or (index * 2 ^ 8 % 2 ^ 32) x) p

-- The outer loop, with the rounds that are left: `p` is what has not been read.
pub bloom_loop : ℕ → ℕ → ℕ → Bytes → Bytes → Bytes
bloom_loop zero m bloom_bytes p ret = ret
bloom_loop (suc rounds) m bloom_bytes p ret =
    let index = bit_and (bloom_index 0 (take bloom_bytes p)) (m * 8 - 1) in
    bloom_loop rounds m bloom_bytes (drop bloom_bytes p)
      (set_bits (m - 1 - index / 8) (2 ^ (index % 8)) ret)

-- `bloomPart<P, M>`.
pub bloom_part : ℕ → ℕ → Bytes → Bytes
bloom_part rounds m h =
    bloom_loop rounds m ((static_log2 (m * 8) (m * 8) + 7) / 8) h (replicate m 0)

-- `shiftBloom<P>` and `containsBloom<P>`, of a filter of M bytes.
pub shift_bloom : ℕ → ℕ → Bytes → Bytes → Bytes
shift_bloom rounds m bloom h = hash_or bloom (bloom_part rounds m h)

pub contains_bloom : ℕ → ℕ → Bytes → Bytes → Bool
contains_bloom rounds m bloom h = contains bloom (bloom_part rounds m h)

-- `firstBitSet`: the loop over one byte, whose 8 bits bound its rounds, and over all.
unfoldable pub first_bit_of : ℕ → ℕ → ℕ → ℕ
first_bit_of zero d ret = ret
first_bit_of (suc rounds) d ret =
    let rest = first_bit_of rounds (d * 2 % 2 ^ 8) (ret + 1) in
    if bit_and d 0x80 == 0 then rest else ret

unfoldable pub first_bit_set : Bytes → ℕ → ℕ
first_bit_set [] ret = ret
first_bit_set (d ∷ h) ret =
    let rest = first_bit_set h (ret + 8) in if d == 0 then rest else first_bit_of 8 d ret

-- `right160`.
unfoldable pub right160 : Bytes → Bytes
right160 t = take 20 (drop 12 t)

-- `toUUID`: a dash before each of four places, the last one first.
unfoldable pub insert_at : ℕ → ℕ → Bytes → Bytes
insert_at place c s = take place s ++ (c ∷ drop place s)

pub to_uuid : Bytes → Bytes
to_uuid uuid =
    insert_at 8 b'-' (insert_at 12 b'-' (insert_at 16 b'-' (insert_at 20 b'-' (to_hex uuid))))

-- `fromUUID`; `boost::replace_all_copy` of dashes by nothing is a parameter, and what throws is caught.
pub or_zeros : Outcome Bytes → Bytes
or_zeros (ok h) = h
or_zeros (throw e) = replicate 16 0

pub from_uuid : (Bytes → Bytes) → Bytes → Bytes
from_uuid without_dashes uuid = or_zeros (of_hex 16 (without_dashes uuid) fail_if_different)

-- bloom_filter.h: `Add` and `Contains` of a string, with the hash as a parameter. The filter has 256
-- bytes, and three bits are set for each string.
module _ (keccak : Bytes → Bytes) where
  unfoldable pub add : Bytes → Bytes → Bytes
  add bloom str = shift_bloom 3 256 bloom (keccak str)

  unfoldable pub contains_string : Bytes → Bytes → Bool
  contains_string bloom str = contains_bloom 3 256 bloom (keccak str)

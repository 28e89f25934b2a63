-- ===== src/Keys/Json.antt =====
-- The values of json_spirit that the store of keys uses. An object is a `std::map`: its fields stand
-- in the order of their names. Numbers are not negative; lists and other values are not looked into.
use cpp_conflux_sdk.Common.Outcome.{Outcome, ok, throw, runtime_error}
use cpp_conflux_sdk.Common.{
  ℕ, ◌+◌, ◌-◌, ◌%◌, ◌^◌, Bool, true, false, ◌≡◌, refl, arith, Option, none, some, Bytes, bytes_eq,
  bytes_eq_iff, ltb, if◌then◌else◌,
}
use cpp_conflux_sdk.FixedHash.{less}

mutual
  pub data Value : Type 0 where
    null : Value
    other : ℕ → Value
    num : ℕ → Value
    str : Bytes → Value
    obj : Fields → Value

  pub data Fields : Type 0 where
    end : Fields
    field : Bytes → Value → Fields → Fields

-- `find`.
abbrev pub find : Bytes → Fields → Option Value
find k end = none
find k (field j v o) = if bytes_eq j k then some v else find k o

-- `count`, as a condition.
abbrev pub has : Bytes → Fields → Bool
has k end = false
has k (field j v o) = if bytes_eq j k then true else has k o

-- `o[k]`, read: null where there is no such field.
abbrev pub at : Bytes → Fields → Value
at k end = null
at k (field j v o) = if bytes_eq j k then v else at k o

-- `o[k] = v`.
abbrev pub set : Bytes → Value → Fields → Fields
set k v end = field k v end
set k v (field j w o) =
    if bytes_eq j k
    then field k v o
    else if less k j
    then field k v (field j w o)
    else field j w (set k v o)

abbrev pub erase : Bytes → Fields → Fields
erase k end = end
erase k (field j v o) = if bytes_eq j k then o else field j v (erase k o)

-- What has another type than the one asked for throws.
abbrev pub get_str : Value → Outcome Bytes
get_str (str s) = ok s
get_str null = throw runtime_error
get_str (other n) = throw runtime_error
get_str (num n) = throw runtime_error
get_str (obj o) = throw runtime_error

abbrev pub get_obj : Value → Outcome Fields
get_obj (obj o) = ok o
get_obj null = throw runtime_error
get_obj (other n) = throw runtime_error
get_obj (num n) = throw runtime_error
get_obj (str s) = throw runtime_error

-- `get_int`, as the 32 bits of the `int`.
abbrev pub get_int : Value → Outcome ℕ
get_int (num n) = ok (n % 2 ^ 32)
get_int null = throw runtime_error
get_int (other n) = throw runtime_error
get_int (str s) = throw runtime_error
get_int (obj o) = throw runtime_error

-- An `int`, by its 32 bits, as a `uint64_t`.
abbrev pub widened : ℕ → ℕ
widened n = if ltb n (2 ^ 31) then n else n + (2 ^ 64 - 2 ^ 32)

-- A field that has been set is read, and the others are as before.
pub at-set :
    (j k : Bytes) (v : Value) (o : Fields) → at j (set k v o) ≡ (if bytes_eq k j then v else at j o)
at-set j k v end = refl
at-set j k v (field i w o) =
    ground (arith, bytes_eq_iff k j, bytes_eq_iff i k, bytes_eq_iff i j, at-set j k v o)

pub has-set :
    (j k : Bytes) (v : Value) (o : Fields)
    → has j (set k v o) ≡ (if bytes_eq k j then true else has j o)
has-set j k v end = refl
has-set j k v (field i w o) =
    ground (arith, bytes_eq_iff k j, bytes_eq_iff i k, bytes_eq_iff i j, has-set j k v o)

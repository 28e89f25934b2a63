-- ===== src/Cfxaddress/Convert/BitStream.antt =====
-- The bits that a sequence of groups stands for, highest first.
use native.Mathlib.Nat.{two-pow-succ}
use cpp_conflux_sdk.Common.{
  ℕ, zero, suc, ◌+◌, ◌*◌, ◌/◌, ◌%◌, ◌^◌, ◌<◌, ◌≡◌, refl, sym, ap, ap₂, ◌∙◌, List, [], ◌∷◌, ◌++◌,
  append_assoc, append-nil, append_parts, arith, Bytes, length, length-append, All,
}

-- The lowest `w` bits of `x`.
unfoldable pub to_bits : ℕ → ℕ → List ℕ
to_bits zero x = []
to_bits (suc w) x = to_bits w (x / 2) ++ (x % 2 ∷ [])

-- The bits of a sequence of groups of `w` bits.
unfoldable pub stream : ℕ → Bytes → List ℕ
stream w [] = []
stream w (x ∷ xs) = to_bits w x ++ stream w xs

pub stream-append : (w : ℕ) (xs ys : Bytes) → stream w (xs ++ ys) ≡ stream w xs ++ stream w ys
unfolding stream
stream-append w [] ys = refl
stream-append w (x ∷ xs) ys = rw (stream-append w xs ys, append_assoc)

pub stream-single : (w x : ℕ) → stream w (x ∷ []) ≡ to_bits w x
unfolding stream
stream-single w x = append-nil (to_bits w x)

pub length-to_bits : (w x : ℕ) → length (to_bits w x) ≡ w
unfolding to_bits
length-to_bits zero x = refl
length-to_bits (suc w) x =
    omega (arith, length-append (to_bits w (x / 2)) (x % 2 ∷ []), length-to_bits w (x / 2))

pub length-stream : (w : ℕ) (xs : Bytes) → length (stream w xs) ≡ w * length xs
unfolding stream
length-stream w [] = omega arith
length-stream w (x ∷ xs) =
    omega (arith, length-append (to_bits w x) (stream w xs), length-to_bits w x, length-stream w xs)

half_join :
    (k x y : ℕ) → ((x * 2 ^ suc k + y) / 2 ≡ x * 2 ^ k + y / 2) × ((x * 2 ^ suc k + y) % 2 ≡ y % 2)
half_join k x y = omega (arith, ap (λ (t : ℕ). x * t) (two-pow-succ k))

-- The bits of a number put together from `x` and the `k` bits of `y`.
pub to_bits_join :
    (w k x y : ℕ) → y < 2 ^ k → to_bits (w + k) (x * 2 ^ k + y) ≡ to_bits w x ++ to_bits k y
to_bits_join w zero x y h =
    let none_left : x * 1 + y ≡ x = omega arith in
    let width : w + 0 ≡ w = omega arith in rw (none_left, width) (unfold to_bits in rw append-nil)
to_bits_join w (suc k) x y h =
    let width : w + suc k ≡ suc (w + k) = omega arith in
    let (half, low) = half_join k x y in
    let ih = to_bits_join w k x (y / 2) (omega (arith, two-pow-succ k)) in
    rw width (last_bit ih half low)
  where
    last_bit :
        to_bits (w + k) (x * 2 ^ k + y / 2) ≡ to_bits w x ++ to_bits k (y / 2)
        → (x * 2 ^ suc k + y) / 2 ≡ x * 2 ^ k + y / 2
        → (x * 2 ^ suc k + y) % 2 ≡ y % 2
        → to_bits (suc (w + k)) (x * 2 ^ suc k + y) ≡ to_bits w x ++ to_bits (suc k) y
    last_bit ih half low = unfold to_bits in rw (half, low, ih, append_assoc)

-- The number that bits stand for, behind `acc`.
value : ℕ → List ℕ → ℕ
value acc [] = acc
value acc (b ∷ bs) = value (2 * acc + b) bs

value-append_last :
    (acc : ℕ) (bs : List ℕ) (b : ℕ) → value acc (bs ++ (b ∷ [])) ≡ 2 * value acc bs + b
unfolding value
value-append_last acc [] b = refl
value-append_last acc (c ∷ bs) b = value-append_last (2 * acc + c) bs b

value-to_bits : (w x : ℕ) → x < 2 ^ w → value 0 (to_bits w x) ≡ x
unfolding to_bits
value-to_bits zero x h = unfold value in omega arith
value-to_bits (suc w) x h =
    value-append_last 0 (to_bits w (x / 2)) (x % 2)
    ∙ omega (arith, value-to_bits w (x / 2) (omega (arith, two-pow-succ w)))

pub to_bits-injective : (w x y : ℕ) → x < 2 ^ w → y < 2 ^ w → to_bits w x ≡ to_bits w y → x ≡ y
to_bits-injective w x y hx hy e = sym (value-to_bits w x hx) ∙ ap (value 0) e ∙ value-to_bits w y hy

abbrev pub Fits : ℕ → Bytes → Type 0
Fits w = All (λ x. x < 2 ^ w)

-- Groups of one width are determined by their number and their bits.
pub stream-injective :
    (w : ℕ) (xs ys : Bytes)
    → Fits w xs
    → Fits w ys
    → length xs ≡ length ys
    → stream w xs ≡ stream w ys
    → xs ≡ ys
stream-injective w [] [] hx hy n e = refl
stream-injective w [] (y ∷ ys) hx hy n e = absurd (omega arith)
stream-injective w (x ∷ xs) [] hx hy n e = absurd (omega arith)
stream-injective w (x ∷ xs) (y ∷ ys) (hx, hxs) (hy, hys) n e =
    let widths : length (to_bits w x) ≡ length (to_bits w y) =
      length-to_bits w x ∙ sym (length-to_bits w y) in
    let (head, tail) =
      append_parts (to_bits w x) (to_bits w y) (stream w xs) (stream w ys) widths
        (unfold stream in e) in
    ap₂ (λ (a : ℕ) (t : Bytes). a ∷ t) (to_bits-injective w x y hx hy head)
      (stream-injective w xs ys hxs hys (omega arith) tail)

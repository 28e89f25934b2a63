-- ===== src/StringUtil/Affix.antt =====
-- `starts_with` and `ends_with` against concatenation.
use cpp_conflux_sdk.Common.Outcome.{ok, throw, out_of_range}
use cpp_conflux_sdk.Common.{
  ℕ, ◌-◌, ◌^◌, ◌≤◌, ◌<◌, ◌≡◌, refl, sym, ap, ◌∙◌, ◌↔◌, true, ◌++◌, arith, Bytes, length,
  length-append, take, drop, bytes_eq, bytes_eq_iff, take-append-drop, take_all, take-append_length,
  drop-append_length, length-drop,
}
use cpp_conflux_sdk.StringUtil.{compares_equal, starts_with, ends_with}

compares_at :
    (pos len : ℕ) (s other : Bytes)
    → pos ≤ length s
    → compares_equal pos len s other ≡ ok (bytes_eq (take len (drop pos s)) other)
unfolding compares_equal
compares_at pos len s other h = ground arith

pub starts_with_value :
    (big smallstr : Bytes)
    → length smallstr ≤ length big
    → starts_with big smallstr ≡ ok (bytes_eq (take (length smallstr) big) smallstr)
unfolding starts_with
starts_with_value big smallstr h = ground (arith, compares_at 0 (length smallstr) big smallstr)

ends_with_value :
    (big smallstr : Bytes)
    → length smallstr ≤ length big
    → length big < 2 ^ 64
    → ends_with big smallstr
      ≡ ok (bytes_eq (take (length smallstr) (drop (length big - length smallstr) big)) smallstr)
unfolding ends_with
ends_with_value big smallstr h fits =
    ground (arith, compares_at (length big - length smallstr) (length smallstr) big smallstr)

-- A text that is no shorter than the ending: `ends_with` answers true exactly if the text is some
-- front followed by the ending.
pub ends_with_iff :
    (big smallstr : Bytes)
    → length big < 2 ^ 64
    → length smallstr ≤ length big
    → (ends_with big smallstr ≡ ok true) ↔ ((p : Bytes) × (big ≡ p ++ smallstr))
ends_with_iff big smallstr fits h = (cut, back)
  where
    at : ℕ
    at = length big - length smallstr

    whole : take (length smallstr) (drop at big) ≡ drop at big
    whole = take_all (length smallstr) (drop at big) (omega (arith, length-drop at big))

    cut : ends_with big smallstr ≡ ok true → (p : Bytes) × (big ≡ p ++ smallstr)
    cut e =
        let same = bytes_eq_iff _ smallstr in
        let tail : drop at big ≡ smallstr =
          sym whole ∙ same.0 (cc (ends_with_value big smallstr h fits)) in
        (take at big, sym (take-append-drop at big) ∙ ap (λ (t : Bytes). take at big ++ t) tail)

    back : ((p : Bytes) × (big ≡ p ++ smallstr)) → ends_with big smallstr ≡ ok true
    back (p, e) =
        let front : length p ≡ at = omega (arith, ap length e, length-append p smallstr) in
        let tail : drop at big ≡ smallstr =
          ap (drop at) e ∙ drop-append_length at p smallstr front in
        ends_with_value big smallstr h fits ∙ ap ok ((bytes_eq_iff _ smallstr).1 (whole ∙ tail))

-- A text that is shorter than the ending makes `ends_with` throw: the position wraps round.
pub ends_with_short :
    (big smallstr : Bytes)
    → length smallstr < 2 ^ 64
    → length big < length smallstr
    → ends_with big smallstr ≡ throw out_of_range
unfolding ends_with compares_equal
ends_with_short big smallstr fits h = ground arith

-- A text starts with each of its fronts.
pub starts_with-append : (p s : Bytes) → starts_with (p ++ s) p ≡ ok true
starts_with-append p s =
    starts_with_value (p ++ s) p (omega (arith, length-append p s))
    ∙ ap ok ((bytes_eq_iff _ p).1 (take-append_length (length p) p s refl))

-- ===== src/Http/Numbers/Dec.antt =====
-- The value of a Content-Length: which digits `parse_dec` takes, and that no value wraps.
use beast_asio_standalone.Prelude.{
  ℕ, ◌+◌, ◌-◌, ◌*◌, ◌^◌, ◌<◌, ◌≤◌, ◌≡◌, ◌∙◌, refl, ap, Bool, true, false, ◌&&◌, Option, none, some,
  List, [], ◌∷◌, leb, ltb, if◌then◌else◌, arith, All, Bool-cases, inl, inr, ltb→lt, ltb_false→le,
  lt→leb_false, le→leb,
}
use beast_asio_standalone.Prelude.Bits.{IsByte}
use beast_asio_standalone.Http.Chars.{is_digit}
use beast_asio_standalone.Http.Numbers.{parse_dec, parse_dec_loop, dec_limit}

unfoldable pub all_digits : List ℕ → Bool
all_digits [] = true
all_digits (c ∷ s) = is_digit c && all_digits s

-- the number that digits write behind the ones of `v`
unfoldable pub dec_from : ℕ → List ℕ → ℕ
dec_from v [] = v
dec_from v (c ∷ s) = dec_from (10 * v + (c - b'0')) s

-- the largest number that is taken
abbrev pub dec_max : ℕ
dec_max = 2 ^ 64 - 7

-- the number, where all are digits and it is small enough
abbrev pub bounded : ℕ → List ℕ → Option ℕ
bounded v s = if all_digits s && leb (dec_from v s) dec_max then some (dec_from v s) else none

dec_from-grows : (v : ℕ) (s : List ℕ) → v ≤ dec_from v s
unfolding dec_from
dec_from-grows v [] = omega arith
dec_from-grows v (c ∷ s) = omega (arith, dec_from-grows (10 * v + (c - b'0')) s)

digit_range : (c : ℕ) → IsByte c → is_digit c ≡ true → c - b'0' ≤ 9
unfolding is_digit
digit_range c h e = ground arith

too_large :
    (b : Bool) (v : ℕ) (s : List ℕ)
    → dec_max < dec_from v s
    → none ≡ (if b && leb (dec_from v s) dec_max then some (dec_from v s) else none)
too_large true v s h = rw (lt→leb_false (dec_from v s) dec_max h) refl
too_large false v s h = refl

loop_bounded :
    (s : List ℕ) (c : ℕ) (beyond : List ℕ) (v : ℕ)
    → All IsByte s
    → is_digit c ≡ false
    → v ≤ dec_max
    → parse_dec_loop s (c ∷ beyond) v ≡ bounded v s
unfolding parse_dec_loop all_digits dec_from
loop_bounded [] c beyond v bytes e small = rw (e, le→leb v dec_max small) refl
loop_bounded (d ∷ s) c beyond v (byte, bytes) e small = elim (Bool-cases (is_digit d)) [
  | inr other ↦ rw other refl
  | inl digit ↦ elim (Bool-cases (ltb dec_limit v)) [
    | inl over ↦
        rw (digit, over)
          (too_large (all_digits s) (10 * v + (d - b'0')) s
            (omega (arith, ltb→lt dec_limit v over, dec_from-grows (10 * v + (d - b'0')) s)))
    | inr under ↦
        rw (digit, under)
          (let next : ℕ = 10 * v + (d - b'0') in
            let room : next ≤ dec_max =
              omega (arith, ltb_false→le dec_limit v under, digit_range d byte digit) in
            ap (parse_dec_loop s (c ∷ beyond)) (omega arith)
            ∙ loop_bounded s c beyond next bytes e room)
  ]
]

abbrev pub content_length_of : List ℕ → Option ℕ
content_length_of [] = none
content_length_of (d ∷ s) = bounded 0 (d ∷ s)

-- On a field value with a character behind it that is no digit, `parse_dec` gives the number that the
-- value writes where it is not empty, has only digits and is at most 2 to the power 64 less 7, and
-- otherwise refuses.
pub parse_dec-bounded :
    (s : List ℕ) (c : ℕ) (beyond : List ℕ)
    → All IsByte s
    → is_digit c ≡ false
    → parse_dec s (c ∷ beyond) ≡ content_length_of s
unfolding parse_dec all_digits dec_from
parse_dec-bounded [] c beyond bytes e = refl
parse_dec-bounded (d ∷ s) c beyond (byte, bytes) e = elim (Bool-cases (is_digit d)) [
  | inr other ↦ rw other refl
  | inl digit ↦ rw digit (
      ap (parse_dec_loop s (c ∷ beyond)) (omega arith)
      ∙ loop_bounded s c beyond (10 * 0 + (d - b'0')) bytes e
          (omega (arith, digit_range d byte digit)))
]

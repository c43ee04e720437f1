-- ===== src/Http/Numbers/Hex.antt =====
-- The size of a chunk in hexadecimal: what is written is read back, and what is read is exact as
-- long as it fits into 64 bits.
use mathlib.Core.WellFounded.{Acc}
use mathlib.Core.Logic.{dif_pos, dif_neg}
use native.Mathlib.Decide.{dec_lt}
use native.Mathlib.Bridge.{le_prop}
use native.Mathlib.Nat.{pow-suc}
use beast_asio_standalone.Prelude.{
  ℕ, zero, suc, ◌+◌, ◌*◌, ◌/◌, ◌%◌, ◌^◌, ◌<◌, ◌≤◌, ◌≡◌, ◌∙◌, refl, ap, ap₂, Bool, true, false, ◌&&◌,
  some, List, [], ◌∷◌, ◌++◌, ◌==◌, if◌then◌else◌, arith, lt_wf, length, All, get_or, bit_and,
}
use beast_asio_standalone.Prelude.Bits.{IsByte, all_below, all_below_sound, and_low_four}
use beast_asio_standalone.Http.Chars.{unhex}
use beast_asio_standalone.Http.Chars.Classes.{is_hexdig, hexdig}
use beast_asio_standalone.Http.Numbers.{
  parse_hex_loop, parse_hex, to_hex_loop, to_hex, lower_digits,
}

abbrev pub IsHexdig : ℕ → Type 0
IsHexdig c = IsByte c × (is_hexdig c ≡ true)

-- the number that digits write behind the ones of `v`
unfoldable pub hex_from : ℕ → List ℕ → ℕ
hex_from v [] = v
hex_from v (c ∷ s) = hex_from (16 * v + hexdig c) s

is_pair : (p : ℕ × Bool) (d : ℕ) → (p.0 == d && p.1) ≡ true → p ≡ (d, true)
is_pair (e, b) d h = ap₂ (λ (x : ℕ) (y : Bool). (x, y)) (ground arith) (ground arith)

hex_table :
    (c : ℕ) → IsByte c → is_hexdig c ≡ true → ((unhex c).0 == hexdig c && (unhex c).1) ≡ true
unfolding all_below unhex
hex_table c h e = ground (
  arith,
  e,
  all_below_sound 256 (λ y. if is_hexdig y then (unhex y).0 == hexdig y && (unhex y).1 else true) c
      h refl,
)

hexdig-unhex : (c : ℕ) → IsHexdig c → unhex c ≡ (hexdig c, true)
hexdig-unhex c (h, e) = is_pair (unhex c) (hexdig c) (hex_table c h e)

hex_from-grows : (v : ℕ) (s : List ℕ) → v ≤ hex_from v s
unfolding hex_from
hex_from-grows v [] = omega arith
hex_from-grows v (c ∷ s) = omega (arith, hex_from-grows (16 * v + hexdig c) s)

-- a round of the loop on a digit whose number still fits
digit_round :
    (c d v : ℕ) (s : List ℕ)
    → unhex c ≡ (d, true)
    → 16 * v + d < 2 ^ 64
    → parse_hex_loop (c ∷ s) v ≡ parse_hex_loop s (16 * v + d)
unfolding parse_hex_loop
digit_round c d v s e h = ground (arith, e)

loop_ends :
    (c v : ℕ) (s : List ℕ) → (unhex c).1 ≡ false → parse_hex_loop (c ∷ s) v ≡ some (v, c ∷ s)
unfolding parse_hex_loop
loop_ends c v s e = rw e refl

parse_hex_loop-exact :
    (v : ℕ) (s : List ℕ) (c : ℕ) (rest : List ℕ)
    → All IsHexdig s
    → (unhex c).1 ≡ false
    → hex_from v s < 2 ^ 64
    → parse_hex_loop (s ++ c ∷ rest) v ≡ some (hex_from v s, c ∷ rest)
unfolding hex_from
parse_hex_loop-exact v [] c rest h e fits = loop_ends c v rest e
parse_hex_loop-exact v (d ∷ s) c rest (hd, h) e fits =
    digit_round d (hexdig d) v (s ++ c ∷ rest) (hexdig-unhex d hd)
      (omega (arith, hex_from-grows (16 * v + hexdig d) s))
    ∙ parse_hex_loop-exact (16 * v + hexdig d) s c rest h e fits

parse_hex_first :
    (c d : ℕ) (s : List ℕ) → unhex c ≡ (d, true) → parse_hex (c ∷ s) ≡ parse_hex_loop s (16 * 0 + d)
unfolding parse_hex
parse_hex_first c d s e = rw e (ap (parse_hex_loop s) (omega arith))

-- Digits whose number is below 2 to the power 64, as many as they are, with a character behind them
-- that is no digit: the number, at that character.
pub parse_hex-exact :
    (d : ℕ) (s : List ℕ) (c : ℕ) (rest : List ℕ)
    → All IsHexdig (d ∷ s)
    → (unhex c).1 ≡ false
    → hex_from 0 (d ∷ s) < 2 ^ 64
    → parse_hex (d ∷ s ++ c ∷ rest) ≡ some (hex_from 0 (d ∷ s), c ∷ rest)
unfolding parse_hex hex_from
parse_hex-exact d s c rest (hd, h) e fits =
    parse_hex_first d (hexdig d) (s ++ c ∷ rest) (hexdig-unhex d hd)
    ∙ parse_hex_loop-exact (16 * 0 + hexdig d) s c rest h e fits

-- Writing: the digit of 16 values is read back, and one round of the writer is one of the reader.
digit_of : (i : ℕ) → i < 16 → unhex (get_or lower_digits i 0) ≡ (i, true)
unfolding all_below unhex
digit_of i h = is_pair (unhex (get_or lower_digits i 0)) i (
    all_below_sound 16
      (λ y. (unhex (get_or lower_digits y 0)).0 == y && (unhex (get_or lower_digits y 0)).1) i h
      refl)

digit_written : (n : ℕ) → unhex (get_or lower_digits (bit_and n 0xf) 0) ≡ (n % 16, true)
digit_written n = rw (and_low_four n) (digit_of (n % 16) (omega arith))

nothing_written : (n : ℕ) (last : List ℕ) (w : Acc ◌<◌ n) → n ≡ 0 → to_hex_loop n last w ≡ last
unfolding to_hex_loop
nothing_written n last (Acc.intro _ smaller) e = rw (dif_neg _ (λ (p : 0 < n). omega arith)) refl

-- the writer's loop on a number that is not 0, read back
read_written :
    (n : ℕ) (last : List ℕ) (w : Acc ◌<◌ n)
    → 0 < n
    → n < 2 ^ 64
    → parse_hex (to_hex_loop n last w) ≡ parse_hex_loop last n
unfolding to_hex_loop
read_written n last (Acc.intro _ smaller) p h =
    let d : ℕ = get_or lower_digits (bit_and n 0xf) 0 in
    rw (dif_pos _ le_prop p) (elim (dec_lt 0 (n / 16)) [
      | yes more ↦
          read_written (n / 16) (d ∷ last) (smaller (n / 16) _) more (omega arith)
          ∙ digit_round d (n % 16) (n / 16) last (digit_written n) (omega arith)
          ∙ ap (parse_hex_loop last) (omega arith)
      | no last_one ↦
          ap parse_hex (nothing_written (n / 16) (d ∷ last) (smaller (n / 16) _) (omega arith))
          ∙ parse_hex_first d (n % 16) last (digit_written n)
          ∙ ap (parse_hex_loop last) (omega arith)
    ])

written_append :
    (n : ℕ) (last more : List ℕ) (w : Acc ◌<◌ n)
    → to_hex_loop n last w ++ more ≡ to_hex_loop n (last ++ more) w
unfolding to_hex_loop
written_append n last more (Acc.intro _ smaller) = elim (dec_lt 0 n) [
  | yes p ↦
      let d : ℕ = get_or lower_digits (bit_and n 0xf) 0 in
      rw (dif_pos _ le_prop p, dif_pos _ le_prop p)
        (written_append (n / 16) (d ∷ last) more (smaller (n / 16) _))
  | no p ↦ rw (dif_neg _ p, dif_neg _ p) refl
]

not_zero : (n : ℕ) → (suc n == 0) ≡ false
not_zero n = ground arith

to_hex-suc : (n : ℕ) → to_hex (suc n) ≡ to_hex_loop (suc n) [] (lt_wf.apply (suc n))
unfolding to_hex
to_hex-suc n = rw (not_zero n) refl

-- A size below 2 to the power 64, written in front of a character that is no hexadecimal digit, is
-- read back, and the reader is at that character.
pub parse_hex-to_hex :
    (n c : ℕ) (rest : List ℕ)
    → n < 2 ^ 64
    → (unhex c).1 ≡ false
    → parse_hex (to_hex n ++ c ∷ rest) ≡ some (n, c ∷ rest)
unfolding to_hex
parse_hex-to_hex zero c rest h e =
    parse_hex_first b'0' 0 (c ∷ rest) (digit_of 0 (omega arith)) ∙ loop_ends c 0 rest e
parse_hex-to_hex (suc n) c rest h e =
    ap (λ t. parse_hex (t ++ c ∷ rest)) (to_hex-suc n)
    ∙ ap parse_hex (written_append (suc n) [] (c ∷ rest) (lt_wf.apply (suc n)))
    ∙ read_written (suc n) (c ∷ rest) (lt_wf.apply (suc n)) (omega arith) h
    ∙ loop_ends c (suc n) rest e

length_written :
    (k n : ℕ) (last : List ℕ) (w : Acc ◌<◌ n)
    → n < 16 ^ k
    → length (to_hex_loop n last w) ≤ length last + k
unfolding to_hex_loop
length_written zero n last w h = rw (nothing_written n last w (omega arith)) (omega arith)
length_written (suc k) n last (Acc.intro _ smaller) h = elim (dec_lt 0 n) [
  | yes p ↦ rw (dif_pos _ le_prop p) (
      omega (
        arith,
        length_written k (n / 16) (get_or lower_digits (bit_and n 0xf) 0 ∷ last)
            (smaller (n / 16) _) (omega (arith, pow-suc 16 k)),
      ))
  | no p ↦ rw (nothing_written n last (Acc.intro n smaller) (omega arith)) (omega arith)
]

-- The array of `chunk_size` has 17 characters, and of a size below 2 to the power 64 no more than
-- 16 are written to it.
pub length-to_hex : (n : ℕ) → n < 2 ^ 64 → length (to_hex n) ≤ 16
unfolding to_hex
length-to_hex zero h = omega arith
length-to_hex (suc n) h = rw (to_hex-suc n) (length_written 16 (suc n) [] (lt_wf.apply (suc n)) h)

abbrev pub ones : ℕ → List ℕ
ones zero = []
ones (suc k) = b'1' ∷ ones k

ones_wrap :
    (k c : ℕ) (rest : List ℕ)
    → (unhex c).1 ≡ false
    → parse_hex_loop (ones k ++ c ∷ rest) 0x1111111111111111 ≡ some (0x1111111111111111, c ∷ rest)
unfolding parse_hex_loop unhex
ones_wrap zero c rest e = rw e refl
ones_wrap (suc k) c rest e = ones_wrap k c rest e

-- A size of sixteen digits 1 and any number of further ones is taken, with the value that the
-- sixteen have: of a size that is too large for 64 bits the loss is not noticed.
pub parse_hex-ones :
    (k c : ℕ) (rest : List ℕ)
    → (unhex c).1 ≡ false
    → parse_hex (ones 16 ++ (ones k ++ c ∷ rest)) ≡ some (0x1111111111111111, c ∷ rest)
unfolding parse_hex parse_hex_loop unhex
parse_hex-ones k c rest e = ones_wrap k c rest e

-- no digit that is written is a '\r'
abbrev pub NoCr : ℕ → Type 0
NoCr c = (c == b'\r') ≡ false

digit-NoCr : (i : ℕ) → i < 16 → NoCr (get_or lower_digits i 0)
unfolding all_below
digit-NoCr i h = ground (
  arith,
  all_below_sound 16 (λ y. if get_or lower_digits y 0 == b'\r' then false else true) i h refl,
)

written-NoCr :
    (n : ℕ) (last : List ℕ) (w : Acc ◌<◌ n) → All NoCr last → All NoCr (to_hex_loop n last w)
unfolding to_hex_loop
written-NoCr n last (Acc.intro _ smaller) h = elim (dec_lt 0 n) [
  | yes p ↦
      let d : ℕ = get_or lower_digits (bit_and n 0xf) 0 in
      let ok : NoCr d = rw (and_low_four n) (digit-NoCr (n % 16) (omega arith)) in
      rw (dif_pos _ le_prop p)
        (written-NoCr (n / 16) (d ∷ last) (smaller (n / 16) (omega arith)) (ok, h))
  | no p ↦ rw (dif_neg _ p) h
]

pub to_hex-NoCr : (n : ℕ) → All NoCr (to_hex n)
unfolding to_hex
to_hex-NoCr zero = (refl, tt)
to_hex-NoCr (suc n) = rw (to_hex-suc n) (written-NoCr (suc n) [] (lt_wf.apply (suc n)) tt)

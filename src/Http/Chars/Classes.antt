-- ===== src/Http/Chars/Classes.antt =====
-- The tables of the character classes against the grammar that their comments quote.
use beast_asio_standalone.Prelude.{
  ℕ, ◌-◌, ◌%◌, ◌≡◌, refl, ap, Bool, true, false, ◌&&◌, ◌||◌, not, ◌==◌, ◌!=◌, ltb, leb, get_or,
  if◌then◌else◌, arith,
}
use beast_asio_standalone.Prelude.Bits.{IsByte, all_below, all_below_sound, by_table}
use beast_asio_standalone.Http.Chars.{is_token_char, is_pathchar, unhex, hex_table}

abbrev pub between : ℕ → ℕ → ℕ → Bool
between low c high = leb low c && leb c high

-- `tchar`
abbrev pub is_tchar : ℕ → Bool
is_tchar c =
    c == b'!'
    || between b'#' c b'\''
    || c == b'*'
    || c == b'+'
    || c == b'-'
    || c == b'.'
    || between b'^' c b'`'
    || c == b'|'
    || c == b'~'
    || between b'0' c b'9'
    || between b'A' c b'Z'
    || between b'a' c b'z'

-- the value of a hexadecimal digit
abbrev pub is_hexdig : ℕ → Bool
is_hexdig c = between b'0' c b'9' || between b'A' c b'F' || between b'a' c b'f'

abbrev pub hexdig : ℕ → ℕ
hexdig c = if between b'0' c b'9' then c - b'0' else if between b'A' c b'F' then c - 55 else c - 87

agree : Bool → Bool → Bool
agree a b = if a then b else not b

agree→eq : (a b : Bool) → agree a b ≡ true → a ≡ b
unfolding agree
agree→eq true true h = refl
agree→eq true false h = ground arith
agree→eq false true h = ground arith
agree→eq false false h = refl

pub is_token_char-tchar : (c : ℕ) → IsByte c → is_token_char c ≡ is_tchar c
unfolding agree all_below is_token_char
is_token_char-tchar c h =
    agree→eq (is_token_char c) (is_tchar c)
      (all_below_sound 256 (λ y. agree (is_token_char y) (is_tchar y)) c h refl)

pub is_pathchar-visible : (c : ℕ) → IsByte c → is_pathchar c ≡ (ltb b' ' c && not (c == 127))
unfolding agree all_below is_pathchar
is_pathchar-visible c h =
    agree→eq (is_pathchar c) (ltb b' ' c && not (c == 127))
      (all_below_sound 256 (λ y. agree (is_pathchar y) (ltb b' ' y && not (y == 127))) c h refl)

-- where `unhex` has the entries that two -1 make, and where it has none
abbrev pub unhex_value : ℕ → ℕ
unhex_value c =
    if is_hexdig c
    then hexdig c
    else if leb 127 c && leb c 232 && (c - 127) % 15 == 0
    then 254
    else if leb 248 c
    then 0
    else 255

-- At every byte, `unhex` gives a hexadecimal digit its value; of the others it takes the eight bytes
-- from 127 to 232 in steps of 15 as a digit of value 254 and the bytes from 248 as a digit of value
-- 0, and refuses the rest.
pub unhex-value : (c : ℕ) → IsByte c → unhex c ≡ (unhex_value c, unhex_value c != 255)
unfolding all_below unhex
unhex-value c h =
    ap (λ (d : ℕ). (d, d != 255)) (by_table (λ y. get_or hex_table y 0) unhex_value c refl h)

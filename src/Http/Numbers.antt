-- ===== src/Http/Numbers.antt =====
-- The numbers of the parser (`parse_dec`, `parse_hex` and `parse_crlf` of
-- http/detail/basic_parser.hpp, at `std::uint64_t`) and the size that is written before a chunk
-- (`to_hex` of http/detail/chunk_encode.hpp). `none` is a result of `false`, and a read behind the
-- last character of the memory that is known.
pub mod Hex
pub mod Dec
use mathlib.Core.WellFounded.{Acc}
use native.Mathlib.Decide.{dec_lt}
use mathlib.Core.Logic.{dite}
use beast_asio_standalone.Prelude.{
  ℕ, ◌+◌, ◌-◌, ◌*◌, ◌/◌, ◌%◌, ◌^◌, ◌<◌, Bool, true, false, Option, none, some, List, [], ◌∷◌, ◌==◌,
  ◌!=◌, ltb, if◌then◌else◌, arith, lt_wf, bit_and, get_or,
}
use beast_asio_standalone.Http.Chars.{unhex, is_digit}

-- the loop, at the digit behind the ones that `v` is the value of
unfoldable pub parse_hex_loop : List ℕ → ℕ → Option (ℕ × List ℕ)
parse_hex_loop [] v = none
parse_hex_loop (c ∷ it) v =
    let d = (unhex c).0 in
    let next = (16 * v + d) % 2 ^ 64 in
    let more = parse_hex_loop it next in
    if (unhex c).1 then (if ltb next v then none else more) else some (v, c ∷ it)

unfoldable pub parse_hex : List ℕ → Option (ℕ × List ℕ)
parse_hex [] = none
parse_hex (c ∷ it) = let more = parse_hex_loop it (unhex c).0 in if (unhex c).1 then more else none

-- `(max - 10) / 10`
abbrev pub dec_limit : ℕ
dec_limit = (2 ^ 64 - 1 - 10) / 10

-- The loop: the characters up to `last`, those behind it, and the value so far. A digit behind
-- `last` takes the pointer past it, and the comparison at the end fails.
unfoldable pub parse_dec_loop : List ℕ → List ℕ → ℕ → Option ℕ
parse_dec_loop [] [] v = none
parse_dec_loop [] (c ∷ beyond) v = if is_digit c then none else some v
parse_dec_loop (c ∷ it) beyond v =
    let d = c - b'0' in
    let more = parse_dec_loop it beyond ((10 * v + d) % 2 ^ 64) in
    if is_digit c then (if ltb dec_limit v then none else more) else none

-- An empty range reads the character at `last` as its first one.
unfoldable pub parse_dec : List ℕ → List ℕ → Option ℕ
parse_dec [] beyond = none
parse_dec (c ∷ it) beyond =
    let more = parse_dec_loop it beyond (c - b'0') in if is_digit c then more else none

unfoldable pub parse_crlf : List ℕ → Option (List ℕ)
parse_crlf (a ∷ b ∷ it) = if a == b'\r' then (if b == b'\n' then some it else none) else none
parse_crlf it = none

-- `"0123456789abcdef"[i]`
abbrev pub lower_digits : List ℕ
lower_digits =
    b'0' ∷ b'1' ∷ b'2' ∷ b'3' ∷ b'4' ∷ b'5' ∷ b'6' ∷ b'7' ∷ b'8' ∷ b'9' ∷ b'a' ∷ b'b' ∷ b'c' ∷ b'd'
    ∷ b'e' ∷ b'f' ∷ []

-- The loop, which goes down from the end of the array: the list is what stands from `last` on.
to_hex_loop : (n : ℕ) → List ℕ → Acc ◌<◌ n → List ℕ
to_hex_loop n last (Acc.intro _ smaller) =
    dite (dec_lt 0 n)
      (λ h.
        to_hex_loop (n / 16) (get_or lower_digits (bit_and n 0xf) 0 ∷ last)
          (smaller (n / 16) (omega arith)))
      (λ _. last)

-- what is written in front of `last`
unfoldable pub to_hex : ℕ → List ℕ
unfolding to_hex_loop lt_wf dec_lt
to_hex n = let digits = to_hex_loop n [] (lt_wf.apply n) in if n == 0 then b'0' ∷ [] else digits

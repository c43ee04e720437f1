-- ===== src/Core/Base64.antt =====
-- core/detail/base64.hpp. A string is the list of its characters' bytes; what a routine writes to
-- its destination is the list of the bytes that it writes.
pub mod Digits
pub mod RoundTrip
pub mod Size
mod Samples
use beast_asio_standalone.Prelude.{
  ℕ, zero, suc, ◌+◌, ◌-◌, ◌*◌, ◌/◌, ◌%◌, bit_and, Option, none, some, List, [], ◌∷◌, ◌++◌, ◌==◌,
  if◌then◌else◌, length, get_or, map,
}

abbrev pub count_from : ℕ → ℕ → List ℕ
count_from a zero = []
count_from a (suc n) = a ∷ count_from (suc a) n

abbrev pub nones : ℕ → List (Option ℕ)
nones zero = []
nones (suc n) = none ∷ nones n

-- `A` to `Z`, `a` to `z`, `0` to `9`, `+` and `/`
abbrev pub alphabet : List ℕ
alphabet = count_from 65 26 ++ (count_from 97 26 ++ (count_from 48 10 ++ (43 ∷ 47 ∷ [])))

abbrev pub tab : ℕ → ℕ
tab i = get_or alphabet i 0

-- the inverse table; `none` is its -1
abbrev pub inverse_table : List (Option ℕ)
inverse_table =
    nones 43
    ++ (some 62
        ∷ (nones 3
            ++ (some 63
                ∷ (map some (count_from 52 10)
                    ++ (nones 7
                        ++ (map some (count_from 0 26)
                            ++ (nones 6 ++ (map some (count_from 26 26) ++ nones 133))))))))

unfoldable pub inverse : ℕ → Option ℕ
inverse c = get_or inverse_table c none

abbrev pub pad : ℕ
pad = 61

abbrev pub encoded_size : ℕ → ℕ
encoded_size n = 4 * ((n + 2) / 3)

abbrev pub decoded_size : ℕ → ℕ
decoded_size n = n / 4 * 3

unfoldable pub encode : List ℕ → List ℕ
encode (a ∷ b ∷ c ∷ src) =
    tab (bit_and a 0xfc / 4)
    ∷ tab (bit_and a 0x03 * 16 + bit_and b 0xf0 / 16)
    ∷ tab (bit_and c 0xc0 / 64 + bit_and b 0x0f * 4)
    ∷ tab (bit_and c 0x3f)
    ∷ encode src
encode (a ∷ b ∷ []) =
    tab (bit_and a 0xfc / 4)
    ∷ tab (bit_and a 0x03 * 16 + bit_and b 0xf0 / 16)
    ∷ tab (bit_and b 0x0f * 4)
    ∷ pad
    ∷ []
encode (a ∷ []) = tab (bit_and a 0xfc / 4) ∷ tab (bit_and a 0x03 * 16) ∷ pad ∷ pad ∷ []
encode [] = []

-- the three bytes that four digits make, one byte each
abbrev pub first_octet : ℕ → ℕ → ℕ
first_octet c0 c1 = (c0 * 4 + bit_and c1 0x30 / 16) % 256

abbrev pub second_octet : ℕ → ℕ → ℕ
second_octet c1 c2 = (bit_and c1 0xf * 16 + bit_and c2 0x3c / 4) % 256

abbrev pub third_octet : ℕ → ℕ → ℕ
third_octet c2 c3 = (bit_and c2 0x3 * 64 + c3) % 256

-- `c4[i] = v; if(++i == 4) ...`: the bytes that are written, and the digits that are in `c4` then
unfoldable pub push : List ℕ → ℕ → List ℕ × List ℕ
push (c0 ∷ c1 ∷ c2 ∷ more) c3 =
    (first_octet c0 c1 ∷ second_octet c1 c2 ∷ third_octet c2 c3 ∷ [], [])
push c4 v = ([], c4 ++ (v ∷ []))

-- `if(i) ...`: one byte less than there are digits left
unfoldable pub flush : List ℕ → List ℕ
flush (c0 ∷ c1 ∷ c2 ∷ more) = first_octet c0 c1 ∷ second_octet c1 c2 ∷ []
flush (c0 ∷ c1 ∷ []) = first_octet c0 c1 ∷ []
flush _ = []

-- the loop from digits `c4` on: what is written from here on, and how many characters are read
unfoldable pub decode_loop : List ℕ → List ℕ → List ℕ × ℕ
decode_loop [] c4 = (flush c4, 0)
decode_loop (x ∷ src) c4 = if x == pad then (flush c4, 0) else elim (inverse x) [
  | none ↦ (flush c4, 0)
  | some v ↦
      let (out, c4') = push c4 v in let (rest, n) = decode_loop src c4' in (out ++ rest, n + 1)
]

unfoldable pub decode : List ℕ → List ℕ × ℕ
decode src = decode_loop src []

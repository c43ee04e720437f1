-- ===== src/Http/Lines.antt =====
-- The scans for the end of a line and of a header (http/detail/basic_parser.hpp). The characters
-- from a pointer up to `last` are a list, and a pointer that is returned is the list from there on.
pub mod Eol
pub mod Eom
use beast_asio_standalone.Prelude.{
  ℕ, zero, suc, Bool, true, false, Option, none, some, List, [], ◌∷◌, ◌==◌, ◌!=◌, if◌then◌else◌,
  length,
}
use beast_asio_standalone.Http.Error.{Error, bad_line_ending}
use beast_asio_standalone.Http.Chars.{is_blank}

-- What a scan finds: the place behind the end, no end, or an error.
pub data Line : Type 0 where
  found : List ℕ → Line
  missing : Line
  wrong : Error → Line

-- on what stands behind a '\r'
abbrev pub after_cr : List ℕ → Line
after_cr [] = missing
after_cr (c ∷ s) = if c != b'\n' then wrong bad_line_ending else found s

unfoldable pub find_eol : List ℕ → Line
find_eol [] = missing
find_eol (c ∷ s) = let more = find_eol s in if c == b'\r' then after_cr s else more

-- Outcome of the loop of `find_eom`, on fuel.
pub data Search : Type 0 where
  ended : Option (List ℕ) → Search
  unfinished : Search

unfoldable pub find_eom_loop : ℕ → List ℕ → Search
find_eom_loop zero p = unfinished
find_eom_loop (suc fuel) (p0 ∷ p1 ∷ p2 ∷ p3 ∷ p) = elim (p3 != b'\n') [
  | true ↦ elim (p3 == b'\r') [
    | true ↦ find_eom_loop fuel (p1 ∷ p2 ∷ p3 ∷ p)
    | false ↦ find_eom_loop fuel p
  ]
  | false ↦ elim (p2 != b'\r') [
    | true ↦ find_eom_loop fuel p
    | false ↦ elim (p1 != b'\n') [
      | true ↦ find_eom_loop fuel (p2 ∷ p3 ∷ p)
      | false ↦ elim (p0 != b'\r') [
        | true ↦ find_eom_loop fuel (p2 ∷ p3 ∷ p)
        | false ↦ ended (some p)
      ]
    ]
  ]
]
find_eom_loop (suc fuel) p = ended none

result : Search → Option (List ℕ)
result (ended r) = r
result unfinished = none

-- Each round moves on by a character at least.
unfoldable pub find_eom : List ℕ → Option (List ℕ)
unfolding result
find_eom p = result (find_eom_loop (suc (length p)) p)

-- ===== src/Http/Field.antt =====
-- One header field (`trim_back` and `parse_field` of http/detail/basic_parser.hpp). The buffer `buf`
-- is a `static_string<4096>` (core/static_string.hpp): a list that refuses to grow past its size.
pub mod Folding
pub mod Ends
pub mod Rest
use beast_asio_standalone.Prelude.{
  ℕ, zero, suc, ◌+◌, Bool, true, false, not, ◌&&◌, ◌||◌, Option, none, some, List, [], ◌∷◌, ◌++◌,
  ◌==◌, ◌!=◌, ltb, if◌then◌else◌, length, drop,
}
use beast_asio_standalone.Http.Error.{
  Error, Parsed, parsed, failed, need_more, bad_field, bad_value, header_limit,
}
use beast_asio_standalone.Http.Chars.{is_token_char, is_blank}
use beast_asio_standalone.Http.StartLine.{TokenLine, line, error, invalid, parse_token_to_eol}

abbrev pub max_obs_fold : ℕ
max_obs_fold = 4096

-- the characters without the blanks at their end
abbrev pub keep : ℕ → List ℕ → List ℕ
keep c [] = if is_blank c then [] else c ∷ []
keep c (d ∷ s) = c ∷ d ∷ s

unfoldable pub trim_back : List ℕ → List ℕ
trim_back [] = []
trim_back (c ∷ s) = keep c (trim_back s)

-- the loops that skip ' ' and '\t'; `[]` is where they reach `last`
unfoldable pub skip_blanks : List ℕ → List ℕ
skip_blanks [] = []
skip_blanks (c ∷ p) = let more = skip_blanks p in if is_blank c then more else c ∷ p

-- What a field comes to: its name, its value, what stands behind the value in memory and what is
-- left to read; an error; or the exception `std::length_error`, when it leaves the function.
pub data FieldResult : Type 0 where
  field : List ℕ → List ℕ → List ℕ → List ℕ → FieldResult
  fault : Error → FieldResult
  length_error : FieldResult

-- The loop over the name, up to and with the ':'. The table `is_token` of the function is the one
-- of `is_token_char`.
abbrev pub push_name : ℕ → Parsed (List ℕ) → Parsed (List ℕ)
push_name c (parsed name p) = parsed (c ∷ name) p
push_name c (failed e) = failed e

unfoldable pub name_loop : List ℕ → Parsed (List ℕ)
name_loop [] = failed need_more
name_loop (c ∷ p) =
    let more = name_loop p in
    if c == b':'
    then parsed [] p
    else if not (is_token_char c)
    then failed bad_field
    else push_name c more

-- Blanks, the characters up to the end of the line, and one character behind it. What is found: the
-- characters without the blanks at their end, those blanks with all that follows them, whether the
-- next line is a continuation, and what is left to read, from the character that was looked at on.
pub data Piece : Type 0 where
  piece : List ℕ → List ℕ → Bool → List ℕ → Piece
  broken : Error → Piece

abbrev pub look_past : TokenLine → Piece
look_past (error e) = broken e
look_past invalid = broken bad_value
look_past (line token []) = broken need_more
look_past (line token (c ∷ p)) =
    let value = trim_back token in
    piece value (drop (length value) token ++ b'\r' ∷ b'\n' ∷ c ∷ p) (is_blank c) (c ∷ p)

abbrev pub from_blanks : List ℕ → Piece
from_blanks [] = broken need_more
from_blanks (c ∷ p) = look_past (parse_token_to_eol (c ∷ p))

unfoldable pub next_piece : List ℕ → Piece
next_piece p = from_blanks (skip_blanks p)

-- `++p` over the blank that was looked at
abbrev pub tail : List ℕ → List ℕ
tail [] = []
tail (c ∷ p) = p

-- `buf.push_back(' ')` and `buf.append(first, token_last)`, where there is a piece; `none` is the
-- exception, which is caught
abbrev pub grow : List ℕ → List ℕ → Option (List ℕ)
grow buf [] = some buf
grow buf (c ∷ value) =
    if not (ltb (length buf) max_obs_fold)
    then none
    else if ltb max_obs_fold (length buf + 1 + length (c ∷ value))
    then none
    else some (buf ++ b' ' ∷ c ∷ value)

-- One round of the loop over the continuation lines, and of the loop before it, which goes on while
-- the lines are blank; `again` is the next round, and `fold` the loop over the continuation lines.
-- The `append` before that loop stands outside of the `try` block.
abbrev pub fold_on :
    (List ℕ → List ℕ → Option FieldResult)
    → List ℕ
    → Bool
    → List ℕ
    → Option (List ℕ)
    → Option FieldResult
fold_on again name continued rest none = some (fault header_limit)
fold_on again name false rest (some buf) = some (field name buf (0 ∷ []) rest)
fold_on again name true rest (some buf) = again buf (tail rest)

abbrev pub fold_round :
    (List ℕ → List ℕ → Option FieldResult) → List ℕ → List ℕ → Piece → Option FieldResult
fold_round again name buf (broken e) = some (fault e)
fold_round again name buf (piece value beyond continued rest) =
    fold_on again name continued rest (grow buf value)

abbrev pub value_round :
    (List ℕ → Option FieldResult)
    → (List ℕ → List ℕ → Option FieldResult)
    → List ℕ
    → Piece
    → Option FieldResult
value_round again fold name (broken e) = some (fault e)
value_round again fold name (piece value beyond false rest) = some (field name value beyond rest)
value_round again fold name (piece [] beyond true rest) = again (tail rest)
value_round again fold name (piece (c ∷ value) beyond true rest) =
    if ltb max_obs_fold (length (c ∷ value))
    then some length_error
    else fold (c ∷ value) (tail rest)

-- `none` is the end of the fuel.
unfoldable pub fold_loop : ℕ → List ℕ → List ℕ → List ℕ → Option FieldResult
fold_loop zero name buf p = none
fold_loop (suc fuel) name buf p = fold_round (fold_loop fuel name) name buf (next_piece p)

unfoldable pub value_loop : ℕ → List ℕ → List ℕ → Option FieldResult
value_loop zero name p = none
value_loop (suc fuel) name p =
    value_round (value_loop fuel name) (fold_loop fuel name) name (next_piece p)

abbrev pub answer : Option FieldResult → FieldResult
answer none = fault need_more
answer (some r) = r

abbrev pub after_name : Parsed (List ℕ) → FieldResult
after_name (failed e) = fault e
after_name (parsed [] p) = fault bad_field
after_name (parsed (c ∷ name) p) = answer (value_loop (suc (length p)) (c ∷ name) p)

-- The fuel is one round more than there are characters.
unfoldable pub parse_field : List ℕ → FieldResult
parse_field p = after_name (name_loop p)

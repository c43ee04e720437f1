-- ===== src/Http/StartLine.antt =====
-- The pieces of a start line (`parse_token_to_eol`, `parse_method`, `parse_target`, `parse_version`,
-- `parse_status` and `parse_reason` of http/detail/basic_parser.hpp). The characters from the
-- iterator up to `last` are a list.
pub mod Print
pub mod Prefix
use beast_asio_standalone.Prelude.{
  ℕ, ◌+◌, ◌-◌, ◌*◌, Bool, true, false, not, ◌&&◌, ◌||◌, Option, none, some, List, [], ◌∷◌, ◌==◌,
  ◌!=◌, ltb, if◌then◌else◌,
}
use beast_asio_standalone.Http.Error.{
  Error, Parsed, parsed, failed, need_more, bad_line_ending, bad_method, bad_target, bad_version,
  bad_status, bad_reason,
}
use beast_asio_standalone.Http.Chars.{is_token_char, is_pathchar, is_digit, is_print}

-- What `parse_token_to_eol` finds: the characters up to the line's end and those behind it, an error,
-- or the null pointer, at a control character.
pub data TokenLine : Type 0 where
  line : List ℕ → List ℕ → TokenLine
  error : Error → TokenLine
  invalid : TokenLine

-- the jump to `found_control`
abbrev pub is_control : ℕ → Bool
is_control c = not (is_print c) && ((ltb c 0o40 && c != 0o11) || c == 0o177)

abbrev pub push_front : ℕ → TokenLine → TokenLine
push_front c (line token p) = line (c ∷ token) p
push_front c (error e) = error e
push_front c invalid = invalid

abbrev pub behind_cr : List ℕ → TokenLine
behind_cr [] = error need_more
behind_cr (c ∷ p) = if c != b'\n' then error bad_line_ending else line [] p

unfoldable pub parse_token_to_eol : List ℕ → TokenLine
parse_token_to_eol [] = error need_more
parse_token_to_eol (c ∷ p) =
    let more = parse_token_to_eol p in
    if is_control c then (if c == b'\r' then behind_cr p else invalid) else push_front c more

-- The loops of `parse_method` and `parse_target`: the characters of the class, and what stands from
-- the first other one on; `none` where `last` comes first.
abbrev pub push_some : ℕ → Option (List ℕ × List ℕ) → Option (List ℕ × List ℕ)
push_some c none = none
push_some c (some (front, it)) = some (c ∷ front, it)

unfoldable pub scan : (ℕ → Bool) → List ℕ → Option (List ℕ × List ℕ)
scan test [] = none
scan test (c ∷ it) =
    let more = scan test it in if test c then push_some c more else some ([], c ∷ it)

-- what follows the loops: the one space, and a name that is not empty
abbrev pub before_space : Error → Option (List ℕ × List ℕ) → Parsed (List ℕ)
before_space bad none = failed need_more
before_space bad (some (front, [])) = failed need_more
before_space bad (some ([], c ∷ it)) = failed bad
before_space bad (some (a ∷ front, c ∷ it)) =
    if c != b' ' then failed bad else parsed (a ∷ front) it

unfoldable pub parse_method : List ℕ → Parsed (List ℕ)
parse_method it = before_space bad_method (scan is_token_char it)

unfoldable pub parse_target : List ℕ → Parsed (List ℕ)
parse_target it = before_space bad_target (scan is_pathchar it)

-- The clause for fewer than eight characters is the test `it + 8 > last`.
unfoldable pub parse_version : List ℕ → Parsed ℕ
parse_version (a ∷ b ∷ c ∷ d ∷ slash ∷ major ∷ dot ∷ minor ∷ it) =
    if a != b'H'
    then failed bad_version
    else if b != b'T'
    then failed bad_version
    else if c != b'T'
    then failed bad_version
    else if d != b'P'
    then failed bad_version
    else if slash != b'/'
    then failed bad_version
    else if not (is_digit major)
    then failed bad_version
    else if dot != b'.'
    then failed bad_version
    else if not (is_digit minor)
    then failed bad_version
    else parsed (10 * (major - b'0') + (minor - b'0')) it
parse_version it = failed need_more

unfoldable pub parse_status : List ℕ → Parsed ℕ
parse_status (a ∷ b ∷ c ∷ space ∷ it) =
    if not (is_digit a)
    then failed bad_status
    else if not (is_digit b)
    then failed bad_status
    else if not (is_digit c)
    then failed bad_status
    else if space != b' '
    then failed bad_status
    else parsed (100 * (a - b'0') + 10 * (b - b'0') + (c - b'0')) it
parse_status it = failed need_more

abbrev pub reason_of : TokenLine → Parsed (List ℕ)
reason_of (line token p) = parsed token p
reason_of (error e) = failed e
reason_of invalid = failed bad_reason

unfoldable pub parse_reason : List ℕ → Parsed (List ℕ)
parse_reason it = reason_of (parse_token_to_eol it)

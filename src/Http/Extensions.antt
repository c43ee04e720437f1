-- ===== src/Http/Extensions.antt =====
-- The extensions of a chunk (`parse_chunk_extensions` of http/detail/basic_parser.hpp). What is given
-- back is the place where they end.
pub mod Rounds
use beast_asio_standalone.Prelude.{
  ℕ, ◌+◌, zero, suc, Bool, not, ◌&&◌, Option, none, some, List, [], ◌∷◌, ◌==◌, ◌!=◌, if◌then◌else◌,
  length,
}
use beast_asio_standalone.Http.Error.{Error, Parsed, parsed, failed, need_more, bad_chunk_extension}
use beast_asio_standalone.Http.Chars.{is_token_char, is_blank}
use beast_asio_standalone.Http.Field.{skip_blanks}

-- the loop over a token, from a character of it on; `[]` is where it reaches `last`
unfoldable pub skip_token : List ℕ → List ℕ
skip_token [] = []
skip_token (c ∷ it) = let more = skip_token it in if is_token_char c then more else c ∷ it

-- the loop over a quoted string, behind its first '"'; `none` is where it reaches `last`
unfoldable pub skip_quoted : List ℕ → Option (List ℕ)
skip_quoted [] = none
skip_quoted (c ∷ []) = if c == b'"' then some [] else none
skip_quoted (c ∷ d ∷ it) =
    let escaped = skip_quoted it in
    let more = skip_quoted (d ∷ it) in
    if c == b'"' then some (d ∷ it) else if c == b'\\' then escaped else more

-- The rounds, by the labels of the function: `loop` looks for a ';', `semi` stands at one.
pub data Label : Type 0 where
  loop semi : Label

-- What a piece of a round comes to: it goes on at a label, the function returns, or there is an error.
pub data Next : Type 0 where
  goes_to : Label → List ℕ → Next
  returns : List ℕ → Next
  fails : Error → Next

-- from `loop:` up to `semi:`
abbrev pub expect_semi : List ℕ → Next
expect_semi [] = fails need_more
expect_semi (c ∷ it) = if c != b';' then fails bad_chunk_extension else goes_to semi (c ∷ it)

abbrev pub at_loop : List ℕ → Next
at_loop [] = fails need_more
at_loop (c ∷ it) =
    if not (is_blank c) && c != b';' then returns (c ∷ it) else expect_semi (skip_blanks (c ∷ it))

-- chunk-ext-val
abbrev pub after_quoted : Option (List ℕ) → Next
after_quoted none = fails need_more
after_quoted (some it) = goes_to loop it

abbrev pub after_token : List ℕ → Next
after_token [] = fails need_more
after_token (c ∷ it) = goes_to loop (c ∷ it)

abbrev pub at_value : List ℕ → Next
at_value [] = fails need_more
at_value (c ∷ it) =
    if c != b'"'
    then (if not (is_token_char c) then fails bad_chunk_extension else after_token (skip_token it))
    else after_quoted (skip_quoted it)

-- behind the name; the flag is `bws`
abbrev pub at_equals : Bool → List ℕ → Next
at_equals bws [] = fails need_more
at_equals bws (c ∷ it) =
    if c == b';'
    then goes_to semi (c ∷ it)
    else if c != b'='
    then (if bws then fails bad_chunk_extension else returns (c ∷ it))
    else at_value (skip_blanks it)

abbrev pub behind_name : List ℕ → Next
behind_name [] = fails need_more
behind_name (c ∷ it) = at_equals (is_blank c) (skip_blanks (c ∷ it))

-- chunk-ext-name
abbrev pub at_name : List ℕ → Next
at_name [] = fails need_more
at_name (c ∷ it) =
    if not (is_token_char c) then fails bad_chunk_extension else behind_name (skip_token it)

abbrev pub at_semi : List ℕ → Next
at_semi [] = fails need_more
at_semi (c ∷ it) = at_name (skip_blanks it)

abbrev pub at : Label → List ℕ → Next
at loop it = at_loop it
at semi it = at_semi it

-- one round, with what the next one gives
abbrev pub then_round : (Label → List ℕ → Parsed (List ℕ)) → Next → Parsed (List ℕ)
then_round again (goes_to label it) = again label it
then_round again (returns it) = parsed [] it
then_round again (fails e) = failed e

-- Two rounds move on by a character at least; the error on no fuel is not reached.
unfoldable pub extensions_loop : ℕ → Label → List ℕ → Parsed (List ℕ)
extensions_loop zero label it = failed need_more
extensions_loop (suc fuel) label it = then_round (extensions_loop fuel) (at label it)

-- the rounds that are left, and one more
abbrev pub rounds : Label → List ℕ → ℕ
rounds loop it = suc (suc (length it + length it))
rounds semi it = suc (length it + length it)

unfoldable pub parse_chunk_extensions : List ℕ → Parsed (List ℕ)
parse_chunk_extensions it = extensions_loop (rounds loop it) loop it

-- ===== src/Http/Tokens.antt =====
-- The lists of tokens in a field value (`opt_token_list_policy` of http/detail/rfc7230.hpp with
-- `basic_parsed_list` of http/detail/basic_parsed_list.hpp and `validate_list`; `token_list` of
-- http/impl/rfc7230.ipp, whose iterator takes the same steps and hides their errors).
use beast_asio_standalone.Prelude.{
  ℕ, zero, suc, Bool, true, false, List, [], ◌∷◌, ◌!=◌, if◌then◌else◌, length,
}
use beast_asio_standalone.Http.Chars.{is_token_char, is_blank}

-- a token from its first character on, up to another character or the end
abbrev pub push_token : ℕ → List ℕ × List ℕ → List ℕ × List ℕ
push_token c (token, it) = (c ∷ token, it)

unfoldable pub token_loop : List ℕ → List ℕ × List ℕ
token_loop [] = ([], [])
token_loop (c ∷ it) =
    let more = token_loop it in if is_token_char c then push_token c more else ([], c ∷ it)

-- One increment: a token and what is behind it, the end of the list, or an error.
pub data Step : Type 0 where
  item : List ℕ → List ℕ → Step
  finished : Step
  wrong : Step

abbrev pub to_item : List ℕ × List ℕ → Step
to_item (token, it) = item token it

unfoldable pub increment : Bool → List ℕ → Step
increment need_comma [] = finished
increment need_comma (c ∷ it) =
    let blank = increment need_comma it in
    let comma = increment false it in
    if is_blank c
    then blank
    else if is_token_char c
    then (if need_comma then wrong else to_item (token_loop (c ∷ it)))
    else if c != b','
    then wrong
    else comma

-- What an iterator goes through, and whether it ends without an error. A token moves it on by a
-- character at least, so that the fuel of `tokens` is enough.
abbrev pub with_token : List ℕ → List (List ℕ) × Bool → List (List ℕ) × Bool
with_token token (more, valid) = (token ∷ more, valid)

unfoldable pub tokens_loop : ℕ → Bool → List ℕ → List (List ℕ) × Bool
tokens_loop zero need_comma it = ([], false)
tokens_loop (suc fuel) need_comma it = elim (increment need_comma it) [
  | item token rest ↦ with_token token (tokens_loop fuel true rest)
  | finished ↦ ([], true)
  | wrong ↦ ([], false)
]

unfoldable pub tokens : List ℕ → List (List ℕ) × Bool
unfolding tokens_loop
tokens s = tokens_loop (suc (length s)) false s

unfoldable pub validate_list : List ℕ → Bool
unfolding tokens
validate_list s = (tokens s).1

-- ===== src/Http/Parser/Header/Fields.antt =====
-- `do_field` and `parse_fields` (http/impl/basic_parser.ipp).
use beast_asio_standalone.Prelude.{
  ℕ, zero, suc, Bool, true, false, not, ◌||◌, Option, none, some, List, [], ◌∷◌, ◌++◌, ◌==◌, ◌!=◌,
  if◌then◌else◌, length,
}
use beast_asio_standalone.Http.Error.{
  ErrorCode, need_more, bad_value, bad_content_length, bad_transfer_encoding, bad_line_ending,
}
use beast_asio_standalone.Http.Text.{codes, iequals}
use beast_asio_standalone.Http.Names.{string_to_field}
use beast_asio_standalone.Http.Numbers.{parse_dec}
use beast_asio_standalone.Http.Tokens.{tokens, validate_list}
use beast_asio_standalone.Http.Field.{FieldResult, field, fault, length_error, parse_field}
use beast_asio_standalone.Http.Parser.{BasicParser, Flags, Impl, Run, ran, threw}

-- the enumerators of `field` that `do_field` knows (http/field.hpp)
abbrev pub connection : ℕ
connection = 59

abbrev pub content_length : ℕ
content_length = 70

abbrev pub proxy_connection : ℕ
proxy_connection = 245

abbrev pub transfer_encoding : ℕ
transfer_encoding = 311

abbrev pub upgrade : ℕ
upgrade = 318

-- one round of the loop over a Connection list, and the loop
abbrev pub connection_token : List ℕ → Flags → Flags
connection_token s f =
    if iequals (codes "close") s
    then record f { connection_close = true }
    else if iequals (codes "keep-alive") s
    then record f { connection_keep_alive = true }
    else if iequals (codes "upgrade") s
    then record f { connection_upgrade = true }
    else f

unfoldable pub connection_tokens : List (List ℕ) → Flags → Flags
connection_tokens [] f = f
connection_tokens (s ∷ list) f = connection_tokens list (connection_token s f)

-- Whether `find_if` stops at "chunked" and that is the last of the list.
unfoldable pub chunked_last : List (List ℕ) → Bool
chunked_last [] = false
chunked_last (s ∷ list) =
    let later = chunked_last list in
    if iequals (codes "chunked") s then elim list [ [] ↦ true | ◌∷◌ _ _ ↦ false ] else later

abbrev pub do_connection : BasicParser → List ℕ → BasicParser × ErrorCode
do_connection p value =
    if not (validate_list value)
    then (p, some bad_value)
    else (record p { f = connection_tokens (tokens value).0 p.f }, none)

abbrev pub with_length : BasicParser → Option ℕ → BasicParser × ErrorCode
with_length p none = (p, some bad_content_length)
with_length p (some v) = (record p { len = v; f = record p.f { content_length = true } }, none)

abbrev pub do_content_length : BasicParser → List ℕ → List ℕ → BasicParser × ErrorCode
do_content_length p value beyond =
    if p.f.content_length
    then (p, some bad_content_length)
    else if p.f.chunked
    then (p, some bad_content_length)
    else with_length p (parse_dec value beyond)

abbrev pub do_transfer_encoding : BasicParser → List ℕ → BasicParser × ErrorCode
do_transfer_encoding p value =
    if p.f.chunked
    then (p, some bad_transfer_encoding)
    else if p.f.content_length
    then (p, some bad_transfer_encoding)
    else if chunked_last (tokens value).0
    then (record p { len = 0; f = record p.f { chunked = true } }, none)
    else (p, none)

-- `beyond` are the characters behind the value in memory.
unfoldable pub do_field : BasicParser → ℕ → List ℕ → List ℕ → BasicParser × ErrorCode
do_field p f value beyond =
    if f == connection || f == proxy_connection
    then do_connection p value
    else if f == content_length
    then do_content_length p value beyond
    else if f == transfer_encoding
    then do_transfer_encoding p value
    else if f == upgrade
    then (record p { f = record p.f { upgrade = true } }, none)
    else (p, none)

module _ {H : Type 0} (impl : Impl H) where
  -- One round of the loop of `parse_fields` on the characters up to `last`; `behind` are those from
  -- there on, and `again` is the next round.
  abbrev pub field_done :
      (BasicParser → H → List ℕ → Run H) → BasicParser → List ℕ → List ℕ → H × ErrorCode → Run H
  field_done again p it rest (h, none) = again p h rest
  field_done again p it rest (h, some e) = ran p h it (some e)

  abbrev pub field_checked :
      (BasicParser → H → List ℕ → Run H)
      → H
      → List ℕ
      → List ℕ
      → ℕ
      → List ℕ
      → List ℕ
      → BasicParser × ErrorCode
      → Run H
  field_checked again h it rest f name value (p, some e) = ran p h it (some e)
  field_checked again h it rest f name value (p, none) =
      field_done again p it rest (impl.on_field f name value h)

  abbrev pub field_read :
      (BasicParser → H → List ℕ → Run H) → BasicParser → H → List ℕ → FieldResult → Run H
  field_read again p h it length_error = threw
  field_read again p h it (fault e) = ran p h it (some e)
  field_read again p h it (field name value beyond rest) =
      let f = string_to_field name in
      field_checked again h it rest f name value (do_field p f value beyond)

  abbrev pub field_round :
      (BasicParser → H → List ℕ → Run H) → List ℕ → BasicParser → H → List ℕ → Run H
  field_round again behind p h (c ∷ d ∷ s) =
      if c == b'\r'
      then ran p h (s ++ behind) (if d != b'\n' then some bad_line_ending else none)
      else field_read again p h (c ∷ d ∷ s ++ behind) (parse_field (c ∷ d ∷ s))
  field_round again behind p h s = ran p h (s ++ behind) (some need_more)

  -- A field takes more than a character, so that the last error is not reached.
  unfoldable pub fields_loop : ℕ → List ℕ → BasicParser → H → List ℕ → Run H
  fields_loop zero behind p h s = ran p h (s ++ behind) (some need_more)
  fields_loop (suc fuel) behind p h s = field_round (fields_loop fuel behind) behind p h s

  unfoldable pub parse_fields : BasicParser → H → List ℕ → List ℕ → Run H
  parse_fields p h s behind = fields_loop (suc (length s)) behind p h s

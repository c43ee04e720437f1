-- ===== src/Http/Parser/Framing.antt =====
-- A message is framed by its Content-Length or by chunks, never by both: no operation of the parser
-- sets both flags.
pub mod Message
pub mod Body
pub mod Whole
use beast_asio_standalone.Prelude.{
  ℕ, zero, suc, ◌+◌, ◌-◌, ◌/◌, ◌≡◌, refl, min, Bool, true, false, not, ◌&&◌, ◌||◌, Option, none,
  some, List, [], ◌∷◌, ◌++◌, ◌==◌, ◌!=◌, ltb, leb, if◌then◌else◌, length, take, drop, if_cases, ◌∙◌,
  ap, ap₂, inl, inr, arith,
}
use beast_asio_standalone.Http.Error.{Error, ErrorCode, Parsed, parsed, failed}
use beast_asio_standalone.Http.Lines.{Line, found, missing, wrong, find_eol, find_eom}
use beast_asio_standalone.Http.Numbers.{parse_dec, parse_hex, parse_crlf}
use beast_asio_standalone.Http.Names.{string_to_field}
use beast_asio_standalone.Http.Tokens.{tokens, validate_list}
use beast_asio_standalone.Http.Field.{FieldResult, field, fault, length_error, parse_field}
use beast_asio_standalone.Http.Extensions.{parse_chunk_extensions}
use beast_asio_standalone.Http.Parser.{
  BasicParser, Flags, State, Impl, Run, ran, threw, then_ok, content_length, is_complete, is_done,
}
use beast_asio_standalone.Http.Parser.Header.StartLine
use beast_asio_standalone.Http.Parser.Header.StartLine.{
  RequestLine, StatusLine, maybe_need_more, searched, parse_start_line, line_done, with_http11,
}
use beast_asio_standalone.Http.Parser.Header.Fields.{
  connection_token, connection_tokens, do_field, do_connection, do_content_length, with_length,
  chunked_last, do_transfer_encoding, field_done, field_checked, field_read, field_round,
  fields_loop, parse_fields,
}
use beast_asio_standalone.Http.Parser.Header.Finish.{
  request_body, response_body, finish_header, body_found, header_done, known_length,
}

abbrev pub IsFramed : BasicParser → Type 0
IsFramed p = (p.f.content_length && p.f.chunked) ≡ false

-- what holds of the members after an operation that was not left by an exception
abbrev pub Holds : (BasicParser → Type 0) → {H : Type 0} → Run H → Type 0
Holds Q (ran p h s ec) = Q p
Holds Q threw = Unit

abbrev pub Keeps : {H : Type 0} → Run H → Type 0
Keeps r = Holds IsFramed r

-- The header fields.
connection_token-Framed :
    (s : List ℕ) (f : Flags)
    → ((connection_token s f).content_length ≡ f.content_length)
      × ((connection_token s f).chunked ≡ f.chunked)
connection_token-Framed s f = ground arith

connection_tokens-Framed :
    (list : List (List ℕ)) (f : Flags)
    → ((connection_tokens list f).content_length ≡ f.content_length)
      × ((connection_tokens list f).chunked ≡ f.chunked)
unfolding connection_tokens
connection_tokens-Framed [] f = (refl, refl)
connection_tokens-Framed (s ∷ list) f = (
  (connection_tokens-Framed list (connection_token s f)).0 ∙ (connection_token-Framed s f).0,
  (connection_tokens-Framed list (connection_token s f)).1 ∙ (connection_token-Framed s f).1,
)

abbrev pub KeepsFirst : BasicParser × ErrorCode → Type 0
KeepsFirst (p, ec) = IsFramed p

do_connection-Framed :
    (p : BasicParser) (value : List ℕ) → IsFramed p → KeepsFirst (do_connection p value)
do_connection-Framed p value k =
    if_cases KeepsFirst (not (validate_list value)) _ _ (λ _. k)
      (λ _.
        ap₂ (λ a b. a && b) (connection_tokens-Framed (tokens value).0 p.f).0
          (connection_tokens-Framed (tokens value).0 p.f).1
        ∙ k)

with_length-Framed :
    (p : BasicParser) (v : Option ℕ)
    → p.f.chunked ≡ false
    → IsFramed p
    → KeepsFirst (with_length p v)
with_length-Framed p none h k = k
with_length-Framed p (some v) h k = h

do_content_length-Framed :
    (p : BasicParser) (value beyond : List ℕ)
    → IsFramed p
    → KeepsFirst (do_content_length p value beyond)
do_content_length-Framed p value beyond k =
    if_cases KeepsFirst p.f.content_length _ _ (λ _. k)
      (λ _.
        if_cases KeepsFirst p.f.chunked _ _ (λ _. k)
          (λ unchunked. with_length-Framed p (parse_dec value beyond) unchunked k))

do_transfer_encoding-Framed :
    (p : BasicParser) (value : List ℕ) → IsFramed p → KeepsFirst (do_transfer_encoding p value)
do_transfer_encoding-Framed p value k =
    if_cases KeepsFirst p.f.chunked _ _ (λ _. k)
      (λ _.
        if_cases KeepsFirst p.f.content_length _ _ (λ _. k)
          (λ no_length.
            if_cases KeepsFirst (chunked_last (tokens value).0) _ _
              (λ _. ap (λ b. b && true) no_length) (λ _. k)))

do_field-Framed :
    (p : BasicParser) (f : ℕ) (value beyond : List ℕ)
    → IsFramed p
    → KeepsFirst (do_field p f value beyond)
unfolding do_field
do_field-Framed p f value beyond k =
    if_cases KeepsFirst (f == 59 || f == 245) _ _ (λ _. do_connection-Framed p value k)
      (λ _.
        if_cases KeepsFirst (f == 70) _ _ (λ _. do_content_length-Framed p value beyond k)
          (λ _.
            if_cases KeepsFirst (f == 311) _ _ (λ _. do_transfer_encoding-Framed p value k)
              (λ _. if_cases KeepsFirst (f == 318) _ _ (λ _. k) (λ _. k))))

module _ {H : Type 0} (impl : Impl H) (Q : BasicParser → Type 0)
    (keep : (p : BasicParser) (f : ℕ) (value beyond : List ℕ)
      → Q p
      → Q (do_field p f value beyond).0) where
  -- a next round that keeps it
  abbrev Again : (BasicParser → H → List ℕ → Run H) → Type 0
  Again again = (p : BasicParser) (h : H) (s : List ℕ) → Q p → Holds Q (again p h s)

  field_done-Holds :
      (again : BasicParser → H → List ℕ → Run H) (p : BasicParser) (it rest : List ℕ)
      (r : H × ErrorCode)
      → Again again
      → Q p
      → Holds Q (field_done impl again p it rest r)
  field_done-Holds again p it rest (h, none) a k = a p h rest k
  field_done-Holds again p it rest (h, some e) a k = k

  field_checked-Holds :
      (again : BasicParser → H → List ℕ → Run H) (h : H) (it rest : List ℕ) (f : ℕ)
      (name value : List ℕ) (r : BasicParser × ErrorCode)
      → Again again
      → Q r.0
      → Holds Q (field_checked impl again h it rest f name value r)
  field_checked-Holds again h it rest f name value (p, some e) a k = k
  field_checked-Holds again h it rest f name value (p, none) a k =
      field_done-Holds again p it rest (impl.on_field f name value h) a k

  field_read-Holds :
      (again : BasicParser → H → List ℕ → Run H) (p : BasicParser) (h : H) (it : List ℕ)
      (r : FieldResult)
      → Again again
      → Q p
      → Holds Q (field_read impl again p h it r)
  field_read-Holds again p h it length_error a k = tt
  field_read-Holds again p h it (fault e) a k = k
  field_read-Holds again p h it (field name value beyond rest) a k =
      field_checked-Holds again h it rest (string_to_field name) name value
        (do_field p (string_to_field name) value beyond) a
        (keep p (string_to_field name) value beyond k)

  fields_loop-Holds :
      (fuel : ℕ) (behind : List ℕ) (p : BasicParser) (h : H) (s : List ℕ)
      → Q p
      → Holds Q (fields_loop impl fuel behind p h s)
  unfolding fields_loop
  fields_loop-Holds zero behind p h s k = k
  fields_loop-Holds (suc fuel) behind p h [] k = k
  fields_loop-Holds (suc fuel) behind p h (c ∷ []) k = k
  fields_loop-Holds (suc fuel) behind p h (c ∷ d ∷ s) k =
      if_cases (Holds Q) (c == b'\r') _ _ (λ _. k)
        (λ _.
          field_read-Holds (fields_loop impl fuel behind) p h (c ∷ d ∷ s ++ behind)
            (parse_field (c ∷ d ∷ s)) (fields_loop-Holds fuel behind) k)

  pub parse_fields-Holds :
      (p : BasicParser) (h : H) (s behind : List ℕ) → Q p → Holds Q (parse_fields impl p h s behind)
  unfolding parse_fields
  parse_fields-Holds p h s behind k = fields_loop-Holds (suc (length s)) behind p h s k

pub parse_fields-Framed :
    {H : Type 0} (impl : Impl H) (p : BasicParser) (h : H) (s behind : List ℕ)
    → IsFramed p
    → Keeps (parse_fields impl p h s behind)
parse_fields-Framed impl p h s behind k =
    parse_fields-Holds impl IsFramed do_field-Framed p h s behind k

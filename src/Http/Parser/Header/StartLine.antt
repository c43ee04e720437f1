-- ===== src/Http/Parser/Header/StartLine.antt =====
-- `maybe_need_more` and `parse_start_line` (http/impl/basic_parser.ipp).
use beast_asio_standalone.Prelude.{
  ℕ, ◌+◌, ◌-◌, ◌*◌, min, Bool, true, false, not, ◌||◌, Option, none, some, List, [], ◌∷◌, ◌++◌,
  ◌==◌, ◌!=◌, ltb, leb, if◌then◌else◌, length, take, drop,
}
use beast_asio_standalone.Http.Error.{
  ErrorCode, Parsed, parsed, failed, need_more, header_limit, bad_version,
}
use beast_asio_standalone.Http.Chars.{is_digit}
use beast_asio_standalone.Http.Lines.{find_eom}
use beast_asio_standalone.Http.StartLine.{
  parse_method, parse_target, parse_version, parse_status, parse_reason,
}
use beast_asio_standalone.Http.Verb.{string_to_verb}
use beast_asio_standalone.Http.Parser.{BasicParser, fields, Impl, Run, ran}

-- on the search for the end of the header
abbrev pub searched : BasicParser → ℕ → Option (List ℕ) → BasicParser × ErrorCode
searched p n none =
    let skip = n - 3 in
    (
      record p { skip = skip },
      if ltb p.header_limit (skip + 4) then some header_limit else some need_more,
    )
searched p n (some term) = (record p { skip = 0 }, none)

-- `n` is the number of characters of `s`
unfoldable pub maybe_need_more : BasicParser → List ℕ → BasicParser × ErrorCode
maybe_need_more p s =
    let n = min (length s) p.header_limit in
    if p.skip == 0
    then (p, none)
    else if ltb n (p.skip + 4)
    then (p, some need_more)
    else searched p n (find_eom (drop p.skip (take n s)))

-- The first part of `parse_start_line`, up to the callback: what a request line and a status line say.
pub record RequestLine : Type 0 where
  pub method : List ℕ
  pub behind : List ℕ
  pub target : List ℕ
  pub version : ℕ

pub record StatusLine : Type 0 where
  pub version : ℕ
  pub status : ℕ
  pub reason : List ℕ

abbrev pub then_parsed {ℓ κ} :
    {A : Type ℓ} {B : Type κ} → Parsed A → (A → List ℕ → Parsed B) → Parsed B
then_parsed (parsed a rest) next = next a rest
then_parsed (failed e) next = failed e

abbrev pub crlf_of : RequestLine → List ℕ → Parsed RequestLine
crlf_of r (c ∷ d ∷ s) = if c != b'\r' || d != b'\n' then failed bad_version else parsed r s
crlf_of r s = failed need_more

abbrev pub version_of : List ℕ → List ℕ → List ℕ → ℕ → List ℕ → Parsed RequestLine
version_of method behind target version s =
    if ltb version 10 || ltb 11 version
    then failed bad_version
    else crlf_of (record { method = method; behind = behind; target = target; version = version }) s

unfoldable pub request_line : List ℕ → Parsed RequestLine
request_line s = then_parsed (parse_method s) (λ method t.
    then_parsed (parse_target t)
      (λ target u. then_parsed (parse_version u) (version_of method (b' ' ∷ t) target)))

abbrev pub reason_of : ℕ → List ℕ → Parsed StatusLine
reason_of version s = then_parsed (parse_status s) (λ status t.
    then_parsed (parse_reason t)
      (λ reason u. parsed (record { version = version; status = status; reason = reason }) u))

abbrev pub space_of : ℕ → List ℕ → Parsed StatusLine
space_of version [] = failed need_more
space_of version (c ∷ s) = if c != b' ' then failed bad_version else reason_of version s

abbrev pub status_version_of : ℕ → List ℕ → Parsed StatusLine
status_version_of version s =
    if ltb version 10 || ltb 11 version then failed bad_version else space_of version s

unfoldable pub status_line : List ℕ → Parsed StatusLine
status_line s = then_parsed (parse_version s) status_version_of

-- What a refused status line leaves in the member `status_`, which `parse_status` writes digit by
-- digit: the characters where it starts, if it does, and the value after it.
abbrev pub at_status : Parsed ℕ → Option (List ℕ)
at_status (failed e) = none
at_status (parsed version []) = none
at_status (parsed version (c ∷ s)) =
    if ltb version 10 || ltb 11 version then none else if c != b' ' then none else some s

abbrev pub status_written : ℕ → Option (List ℕ) → ℕ
status_written old (some (a ∷ b ∷ c ∷ space ∷ s)) =
    if not (is_digit a)
    then old
    else if not (is_digit b)
    then 100 * (a - b'0')
    else if not (is_digit c)
    then 100 * (a - b'0') + 10 * (b - b'0')
    else 100 * (a - b'0') + 10 * (b - b'0') + (c - b'0')
status_written old at = old

abbrev pub with_http11 : ℕ → BasicParser → BasicParser
with_http11 version p = record p {
  f = record p.f { http11 = if leb 11 version then true else p.f.http11 };
}

module _ {H : Type 0} (impl : Impl H) where
  -- What follows the callback of the start line: `p` and the state move on where it gives no error.
  abbrev pub line_done : BasicParser → List ℕ → List ℕ → H × ErrorCode → Run H
  line_done p s rest (h, none) = ran (record p { state = fields }) h rest none
  line_done p s rest (h, some e) = ran p h s (some e)

  -- The functions read up to `last`; `behind` are the characters from there on.
  abbrev pub request_done : BasicParser → H → List ℕ → List ℕ → Parsed RequestLine → Run H
  request_done p h s behind (failed e) = ran p h s (some e)
  request_done p h s behind (parsed r rest) =
      line_done (with_http11 r.version p) s (rest ++ behind)
        (impl.on_request (string_to_verb r.method r.behind) r.method r.target r.version h)

  abbrev pub response_done : BasicParser → H → List ℕ → List ℕ → Parsed StatusLine → Run H
  response_done p h s behind (failed e) =
      ran (record p { status = status_written p.status (at_status (parse_version s)) }) h
        (s ++ behind) (some e)
  response_done p h s behind (parsed r rest) =
      line_done (with_http11 r.version (record p { status = r.status })) (s ++ behind)
        (rest ++ behind) (impl.on_response r.status r.reason r.version h)

  unfoldable pub parse_start_line : Bool → BasicParser → H → List ℕ → List ℕ → Run H
  parse_start_line true p h s behind = request_done p h (s ++ behind) behind (request_line s)
  parse_start_line false p h s behind = response_done p h s behind (status_line s)

-- ===== src/Http/Parser/Header/Finish.antt =====
-- `finish_header` (http/impl/basic_parser.ipp).
use beast_asio_standalone.Prelude.{
  ℕ, ◌/◌, Bool, true, false, ◌||◌, none, some, List, ◌==◌, ltb, if◌then◌else◌,
}
use beast_asio_standalone.Http.Error.{ErrorCode, body_limit}
use beast_asio_standalone.Http.Parser.{
  BasicParser, State, complete, body0, body_to_eof0, chunk_header0, Impl, Run, ran, is_complete,
}

abbrev pub with_state : State → BasicParser → BasicParser × ErrorCode
with_state s p = (record p { state = s }, none)

abbrev pub with_body : State → BasicParser → BasicParser × ErrorCode
with_body s p = (record p { state = s; f = record p.f { has_body = true } }, none)

-- the branch for a Content-Length
abbrev pub known_length : BasicParser → BasicParser × ErrorCode
known_length p =
    if ltb p.body_limit p.len
    then (p, some body_limit)
    else if ltb 0 p.len
    then with_body body0 p
    else with_state complete p

-- Where the body begins and ends: the first parts of the two functions, up to the callbacks.
unfoldable pub request_body : BasicParser → BasicParser × ErrorCode
request_body p =
    if p.f.skip_body
    then with_state complete p
    else if p.f.content_length
    then known_length p
    else if p.f.chunked
    then with_body chunk_header0 p
    else with_state complete (record p { len = 0 })

unfoldable pub response_body : BasicParser → BasicParser × ErrorCode
response_body p =
    if p.f.skip_body || p.status / 100 == 1 || p.status == 204 || p.status == 304
    then with_state complete p
    else if p.f.content_length
    then known_length p
    else if p.f.chunked
    then with_body chunk_header0 p
    else (
      record p { state = body_to_eof0; f = record p.f { has_body = true; need_eof = true } },
      none,
    )

module _ {H : Type 0} (impl : Impl H) where
  abbrev pub finished : BasicParser → List ℕ → H × ErrorCode → Run H
  finished p s (h, ec) = ran p h s ec

  abbrev pub header_done : BasicParser → List ℕ → H × ErrorCode → Run H
  header_done p s (h, some e) = ran p h s (some e)
  header_done p s (h, none) =
      if is_complete p.state then finished p s (impl.on_finish h) else ran p h s none

  abbrev pub body_found : H → List ℕ → BasicParser × ErrorCode → Run H
  body_found h s (p, some e) = ran p h s (some e)
  body_found h s (p, none) = header_done p s (impl.on_header h)

  unfoldable pub finish_header : Bool → BasicParser → H → List ℕ → Run H
  finish_header true p h s = body_found h s (request_body p)
  finish_header false p h s = body_found h s (response_body p)

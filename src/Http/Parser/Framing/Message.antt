-- ===== src/Http/Parser/Framing/Message.antt =====
-- The same of the other operations, and of `put`.
use beast_asio_standalone.Prelude.{
  ℕ, ◌+◌, ◌/◌, min, Bool, true, false, not, ◌||◌, Option, none, some, List, ◌++◌, ◌==◌, ltb, leb,
  length, take, drop, if_cases,
}
use beast_asio_standalone.Http.Error.{ErrorCode, Parsed, parsed, failed}
use beast_asio_standalone.Http.Lines.{find_eom}
use beast_asio_standalone.Http.Verb.{string_to_verb}
use beast_asio_standalone.Http.Parser.{BasicParser, Impl, Run, ran, threw, then_ok, is_complete}
use beast_asio_standalone.Http.Parser.Header.StartLine.{
  RequestLine, StatusLine, maybe_need_more, searched, parse_start_line, line_done, with_http11,
  request_line, status_line, request_done, response_done,
}
use beast_asio_standalone.Http.Parser.Header.Finish.{
  request_body, response_body, finish_header, body_found, header_done, known_length, finished,
}
use beast_asio_standalone.Http.Parser.Body.{complete_on}
use beast_asio_standalone.Http.Parser.Put.{header_failed, is_need_more}
use beast_asio_standalone.Http.Parser.Framing.{IsFramed, Keeps, KeepsFirst}

-- Where the body begins.
known_length-Framed : (p : BasicParser) → IsFramed p → KeepsFirst (known_length p)
known_length-Framed p k =
    if_cases KeepsFirst (ltb p.body_limit p.len) _ _ (λ _. k)
      (λ _. if_cases KeepsFirst (ltb 0 p.len) _ _ (λ _. k) (λ _. k))

request_body-Framed : (p : BasicParser) → IsFramed p → KeepsFirst (request_body p)
unfolding request_body
request_body-Framed p k =
    if_cases KeepsFirst p.f.skip_body _ _ (λ _. k)
      (λ _.
        if_cases KeepsFirst p.f.content_length _ _ (λ _. known_length-Framed p k)
          (λ _. if_cases KeepsFirst p.f.chunked _ _ (λ _. k) (λ _. k)))

response_body-Framed : (p : BasicParser) → IsFramed p → KeepsFirst (response_body p)
unfolding response_body
response_body-Framed p k =
    if_cases KeepsFirst (p.f.skip_body || p.status / 100 == 1 || p.status == 204 || p.status == 304)
      _ _ (λ _. k)
      (λ _.
        if_cases KeepsFirst p.f.content_length _ _ (λ _. known_length-Framed p k)
          (λ _. if_cases KeepsFirst p.f.chunked _ _ (λ _. k) (λ _. k)))

searched-Framed :
    (p : BasicParser) (n : ℕ) (r : Option (List ℕ)) → IsFramed p → KeepsFirst (searched p n r)
searched-Framed p n none k = k
searched-Framed p n (some r) k = k

pub maybe_need_more-Framed :
    (p : BasicParser) (s : List ℕ) → IsFramed p → KeepsFirst (maybe_need_more p s)
unfolding maybe_need_more
maybe_need_more-Framed p s k =
    let n : ℕ = min (length s) p.header_limit in
    if_cases KeepsFirst (p.skip == 0) _ _ (λ _. k)
      (λ _.
        if_cases KeepsFirst (ltb n (p.skip + 4)) _ _ (λ _. k)
          (λ _. searched-Framed p n (find_eom (drop p.skip (take n s))) k))

pub then_ok-Framed :
    {H : Type 0} (r : Run H) (next : BasicParser → H → List ℕ → Run H)
    → Keeps r
    → ((p : BasicParser) (h : H) (s : List ℕ) → IsFramed p → Keeps (next p h s))
    → Keeps (then_ok r next)
then_ok-Framed (ran p h s none) next k l = l p h s k
then_ok-Framed (ran p h s (some e)) next k l = k
then_ok-Framed threw next k l = tt

pub header_failed-Framed : {H : Type 0} (n : ℕ) (r : Run H) → Keeps r → Keeps (header_failed n r)
header_failed-Framed n threw k = tt
header_failed-Framed n (ran p h s none) k = k
header_failed-Framed n (ran p h s (some e)) k =
    if_cases Keeps (not (is_need_more e)) _ _ (λ _. k)
      (λ _.
        if_cases Keeps (leb p.header_limit n) _ _ (λ _. k)
          (λ _. if_cases Keeps (leb 3 (length s)) _ _ (λ _. k) (λ _. k)))

module _ {H : Type 0} (impl : Impl H) where
  finished-Framed :
      (p : BasicParser) (s : List ℕ) (r : H × ErrorCode) → IsFramed p → Keeps (finished impl p s r)
  finished-Framed p s (h, ec) k = k

  pub complete_on-Framed :
      (p : BasicParser) (s : List ℕ) (r : H × ErrorCode)
      → IsFramed p
      → Keeps (complete_on impl p s r)
  complete_on-Framed p s (h, none) k = k
  complete_on-Framed p s (h, some e) k = k

  header_done-Framed :
      (p : BasicParser) (s : List ℕ) (r : H × ErrorCode)
      → IsFramed p
      → Keeps (header_done impl p s r)
  header_done-Framed p s (h, some e) k = k
  header_done-Framed p s (h, none) k =
      if_cases Keeps (is_complete p.state) _ _ (λ _. finished-Framed p s (impl.on_finish h) k)
        (λ _. k)

  body_found-Framed :
      (h : H) (s : List ℕ) (r : BasicParser × ErrorCode)
      → KeepsFirst r
      → Keeps (body_found impl h s r)
  body_found-Framed h s (p, some e) k = k
  body_found-Framed h s (p, none) k = header_done-Framed p s (impl.on_header h) k

  pub finish_header-Framed :
      (is_request : Bool) (p : BasicParser) (h : H) (s : List ℕ)
      → IsFramed p
      → Keeps (finish_header impl is_request p h s)
  unfolding finish_header
  finish_header-Framed true p h s k =
      body_found-Framed h s (request_body p) (request_body-Framed p k)
  finish_header-Framed false p h s k =
      body_found-Framed h s (response_body p) (response_body-Framed p k)

  line_done-Framed :
      (p : BasicParser) (s rest : List ℕ) (r : H × ErrorCode)
      → IsFramed p
      → Keeps (line_done impl p s rest r)
  line_done-Framed p s rest (h, none) k = k
  line_done-Framed p s rest (h, some e) k = k

  pub parse_start_line-Framed :
      (is_request : Bool) (p : BasicParser) (h : H) (s behind : List ℕ)
      → IsFramed p
      → Keeps (parse_start_line impl is_request p h s behind)
  unfolding parse_start_line
  parse_start_line-Framed true p h s behind k = go (request_line s)
    where
      go : (r : Parsed RequestLine) → Keeps (request_done impl p h (s ++ behind) behind r)
      go (failed e) = k
      go (parsed r rest) =
          line_done-Framed (with_http11 r.version p) (s ++ behind) (rest ++ behind)
            (impl.on_request (string_to_verb r.method r.behind) r.method r.target r.version h) k
  parse_start_line-Framed false p h s behind k = go (status_line s)
    where
      go : (r : Parsed StatusLine) → Keeps (response_done impl p h s behind r)
      go (failed e) = k
      go (parsed r rest) =
          line_done-Framed (with_http11 r.version (record p { status = r.status })) (s ++ behind)
            (rest ++ behind) (impl.on_response r.status r.reason r.version h) k

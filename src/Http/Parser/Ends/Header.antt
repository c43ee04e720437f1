-- ===== src/Http/Parser/Ends/Header.antt =====
-- A pass over the header ends at a body, at the end of the message, or with an error.
use beast_asio_standalone.Prelude.{
  ℕ, ◌+◌, ◌/◌, ◌≡◌, refl, min, Bool, true, false, not, ◌||◌, Option, none, some, List, [], ◌∷◌,
  ◌++◌, ◌==◌, ltb, leb, length, take, drop, if_cases,
}
use beast_asio_standalone.Http.Error.{ErrorCode, Parsed, parsed, failed}
use beast_asio_standalone.Http.Lines.{find_eom}
use beast_asio_standalone.Http.Verb.{string_to_verb}
use beast_asio_standalone.Http.Parser.{
  BasicParser, fields, Impl, Run, ran, threw, is_complete, is_done,
}
use beast_asio_standalone.Http.Parser.Header.StartLine.{
  RequestLine, StatusLine, maybe_need_more, searched, parse_start_line, line_done, with_http11,
  request_line, status_line, request_done, response_done,
}
use beast_asio_standalone.Http.Parser.Header.Fields.{parse_fields}
use beast_asio_standalone.Http.Parser.Header.Finish.{
  request_body, response_body, finish_header, body_found, header_done, known_length, finished,
}
use beast_asio_standalone.Http.Parser.Put.{
  header_failed, is_need_more, Pass, to_done, breaks, checked, try_fields, in_fields, go_on,
  try_line, in_start_line,
}
use beast_asio_standalone.Prelude.{◌⊎◌, inl, inr}
use beast_asio_standalone.Http.Parser.Header.Fields.{do_field, with_length, chunked_last}
use beast_asio_standalone.Http.Tokens.{tokens, validate_list}
use beast_asio_standalone.Http.Numbers.{parse_dec}
use beast_asio_standalone.Http.Parser.Framing.{Holds, parse_fields-Holds}
use beast_asio_standalone.Http.Parser.Ends.{in_body}

-- The header is read in `state::fields`.
abbrev pub InFields : BasicParser → Type 0
InFields p = p.state ≡ fields

abbrev FieldsFirst : BasicParser × ErrorCode → Type 0
FieldsFirst (p, ec) = InFields p

with_length-InFields : (p : BasicParser) (v : Option ℕ) → InFields p → FieldsFirst (with_length p v)
with_length-InFields p none k = k
with_length-InFields p (some v) k = k

do_field-InFields :
    (p : BasicParser) (f : ℕ) (value beyond : List ℕ)
    → InFields p
    → InFields (do_field p f value beyond).0
unfolding do_field
do_field-InFields p f value beyond k =
    if_cases FieldsFirst (f == 59 || f == 245) _ _
      (λ _. if_cases FieldsFirst (not (validate_list value)) _ _ (λ _. k) (λ _. k))
      (λ _.
        if_cases FieldsFirst (f == 70) _ _
          (λ _.
            if_cases FieldsFirst p.f.content_length _ _ (λ _. k)
              (λ _.
                if_cases FieldsFirst p.f.chunked _ _ (λ _. k)
                  (λ _. with_length-InFields p (parse_dec value beyond) k)))
          (λ _.
            if_cases FieldsFirst (f == 311) _ _
              (λ _.
                if_cases FieldsFirst p.f.chunked _ _ (λ _. k)
                  (λ _.
                    if_cases FieldsFirst p.f.content_length _ _ (λ _. k)
                      (λ _.
                        if_cases FieldsFirst (chunked_last (tokens value).0) _ _ (λ _. k)
                          (λ _. k))))
              (λ _. if_cases FieldsFirst (f == 318) _ _ (λ _. k) (λ _. k))))

-- Where the header is finished: at a body, at the end, or with an error in the fields.
abbrev pub HasError : ErrorCode → Type 0
HasError none = ⊥
HasError (some e) = Unit

abbrev pub Settled : BasicParser → ErrorCode → Type 0
Settled p ec = (is_done p ≡ true) ⊎ ((in_body p.state ≡ true) ⊎ (InFields p × HasError ec))

abbrev pub SettledRun : {H : Type 0} → Run H → Type 0
SettledRun (ran p h s ec) = Settled p ec
SettledRun threw = Unit

abbrev pub SettledPass : {H : Type 0} → Pass H → Type 0
SettledPass (to_done r) = Unit
SettledPass (breaks r) = SettledRun r

abbrev Begins : BasicParser × ErrorCode → Type 0
Begins (p, some e) = InFields p
Begins (p, none) = (is_done p ≡ true) ⊎ (in_body p.state ≡ true)

known_length-Begins : (p : BasicParser) → InFields p → Begins (known_length p)
known_length-Begins p k =
    if_cases Begins (ltb p.body_limit p.len) _ _ (λ _. k)
      (λ _. if_cases Begins (ltb 0 p.len) _ _ (λ _. inr refl) (λ _. inl refl))

request_body-Begins : (p : BasicParser) → InFields p → Begins (request_body p)
unfolding request_body
request_body-Begins p k =
    if_cases Begins p.f.skip_body _ _ (λ _. inl refl)
      (λ _.
        if_cases Begins p.f.content_length _ _ (λ _. known_length-Begins p k)
          (λ _. if_cases Begins p.f.chunked _ _ (λ _. inr refl) (λ _. inl refl)))

response_body-Begins : (p : BasicParser) → InFields p → Begins (response_body p)
unfolding response_body
response_body-Begins p k =
    if_cases Begins (p.f.skip_body || p.status / 100 == 1 || p.status == 204 || p.status == 304) _ _
      (λ _. inl refl)
      (λ _.
        if_cases Begins p.f.content_length _ _ (λ _. known_length-Begins p k)
          (λ _. if_cases Begins p.f.chunked _ _ (λ _. inr refl) (λ _. inr refl)))

checked-Settled :
    {H : Type 0} (Q : BasicParser → Type 0) (n : ℕ) (r : Run H)
    (next : BasicParser → H → List ℕ → Pass H)
    → Holds Q r
    → ((p : BasicParser) (h : H) (s : List ℕ) → Q p → SettledPass (next p h s))
    → SettledPass (checked (header_failed n r) next)
checked-Settled Q n threw next k l = tt
checked-Settled Q n (ran p h s none) next k l = l p h s k
checked-Settled {H} Q n (ran p h s (some e)) next k l =
    if_cases (λ (r : Run H). SettledPass (checked r next)) (not (is_need_more e)) _ _ (λ _. tt)
      (λ _.
        if_cases (λ (r : Run H). SettledPass (checked r next)) (leb p.header_limit n) _ _ (λ _. tt)
          (λ _.
            if_cases (λ (r : Run H). SettledPass (checked r next)) (leb 3 (length s)) _ _ (λ _. tt)
              (λ _. tt)))

settle :
    (p : BasicParser) (ec : ErrorCode)
    → (is_done p ≡ true) ⊎ (in_body p.state ≡ true)
    → Settled p ec
settle p ec (inl d) = inl d
settle p ec (inr b) = inr (inl b)

module _ {H : Type 0} (impl : Impl H) (is_request : Bool) where
  header_done-Settled :
      (p : BasicParser) (s : List ℕ) (r : H × ErrorCode)
      → (is_done p ≡ true) ⊎ (in_body p.state ≡ true)
      → SettledRun (header_done impl p s r)
  header_done-Settled p s (h, some e) b = settle p (some e) b
  header_done-Settled p s (h, none) b =
      if_cases (λ (r : Run H). SettledRun r) (is_complete p.state) _ _
        (λ d. go (impl.on_finish h) d) (λ _. settle p none b)
    where
      go : (r : H × ErrorCode) → is_complete p.state ≡ true → SettledRun (finished impl p s r)
      go (g, ec) d = inl d

  body_found-Settled :
      (h : H) (s : List ℕ) (r : BasicParser × ErrorCode)
      → Begins r
      → SettledRun (body_found impl h s r)
  body_found-Settled h s (p, some e) b = inr (inr (b, tt))
  body_found-Settled h s (p, none) b = header_done-Settled p s (impl.on_header h) b

  finish_header-Settled :
      (r : Bool) (p : BasicParser) (h : H) (s : List ℕ)
      → InFields p
      → SettledRun (finish_header impl r p h s)
  unfolding finish_header
  finish_header-Settled true p h s k =
      body_found-Settled h s (request_body p) (request_body-Begins p k)
  finish_header-Settled false p h s k =
      body_found-Settled h s (response_body p) (response_body-Begins p k)

  -- a search for more input leaves the state
  maybe_need_more-InFields :
      (p : BasicParser) (s : List ℕ) → InFields p → FieldsFirst (maybe_need_more p s)
  unfolding maybe_need_more
  maybe_need_more-InFields p s k =
      let n : ℕ = min (length s) p.header_limit in
      if_cases FieldsFirst (p.skip == 0) _ _ (λ _. k)
        (λ _.
          if_cases FieldsFirst (ltb n (p.skip + 4)) _ _ (λ _. k)
            (λ _. go n (find_eom (drop p.skip (take n s)))))
    where
      go : (n : ℕ) (r : Option (List ℕ)) → FieldsFirst (searched p n r)
      go n none = k
      go n (some r) = k

  try_fields-Settled :
      (h : H) (s : List ℕ) (ec : ErrorCode) (r : BasicParser × ErrorCode)
      → FieldsFirst r
      → SettledPass (try_fields impl is_request h s ec r)
  try_fields-Settled h s ec (p, some e) k = tt
  try_fields-Settled h s (some e) (p, none) k = tt
  try_fields-Settled h s none (p, none) k =
      let front : List ℕ = take p.header_limit s in
      let behind : List ℕ = drop p.header_limit s in
      checked-Settled InFields (length s) (parse_fields impl p h front behind) _
        (parse_fields-Holds impl InFields do_field-InFields p h front behind k)
        (λ q g t l. finish_header-Settled is_request q g t l)

  pub in_fields-Settled :
      (ec : ErrorCode) (p : BasicParser) (h : H) (s : List ℕ)
      → InFields p
      → SettledPass (in_fields impl is_request ec p h s)
  unfolding in_fields
  in_fields-Settled ec p h s k =
      try_fields-Settled h s ec (maybe_need_more p s) (maybe_need_more-InFields p s k)

  go_on-Settled :
      (p : BasicParser) (h : H) (s : List ℕ)
      → InFields p
      → SettledPass (go_on impl is_request p h s)
  go_on-Settled p h [] k = tt
  go_on-Settled p h (c ∷ s) k = in_fields-Settled none p h (c ∷ s) k

  -- A start line that is read leaves the parser in the fields.
  abbrev OnSuccess : Run H → Type 0
  OnSuccess (ran p h s none) = InFields p
  OnSuccess (ran p h s (some e)) = Unit
  OnSuccess threw = Unit

  checked_line :
      (n : ℕ) (r : Run H)
      → OnSuccess r
      → SettledPass (checked (header_failed n r) (go_on impl is_request))
  checked_line n threw k = tt
  checked_line n (ran p h s none) k = go_on-Settled p h s k
  checked_line n (ran p h s (some e)) k =
      if_cases (λ (r : Run H). SettledPass (checked r (go_on impl is_request)))
        (not (is_need_more e)) _ _ (λ _. tt)
        (λ _.
          if_cases (λ (r : Run H). SettledPass (checked r (go_on impl is_request)))
            (leb p.header_limit n) _ _ (λ _. tt)
            (λ _.
              if_cases (λ (r : Run H). SettledPass (checked r (go_on impl is_request)))
                (leb 3 (length s)) _ _ (λ _. tt) (λ _. tt)))

  line_done-OnSuccess :
      (p : BasicParser) (s rest : List ℕ) (r : H × ErrorCode)
      → OnSuccess (line_done impl p s rest r)
  line_done-OnSuccess p s rest (h, none) = refl
  line_done-OnSuccess p s rest (h, some e) = tt

  parse_start_line-OnSuccess :
      (r : Bool) (p : BasicParser) (h : H) (s behind : List ℕ)
      → OnSuccess (parse_start_line impl r p h s behind)
  unfolding parse_start_line
  parse_start_line-OnSuccess true p h s behind = go (request_line s)
    where
      go : (r : Parsed RequestLine) → OnSuccess (request_done impl p h (s ++ behind) behind r)
      go (failed e) = tt
      go (parsed r rest) =
          line_done-OnSuccess (with_http11 r.version p) (s ++ behind) (rest ++ behind)
            (impl.on_request (string_to_verb r.method r.behind) r.method r.target r.version h)
  parse_start_line-OnSuccess false p h s behind = go (status_line s)
    where
      go : (r : Parsed StatusLine) → OnSuccess (response_done impl p h s behind r)
      go (failed e) = tt
      go (parsed r rest) =
          line_done-OnSuccess (with_http11 r.version (record p { status = r.status })) (s ++ behind)
            (rest ++ behind) (impl.on_response r.status r.reason r.version h)

  pub in_start_line-Settled :
      (p : BasicParser) (h : H) (s : List ℕ) → SettledPass (in_start_line impl is_request p h s)
  unfolding in_start_line
  in_start_line-Settled p h s = go (maybe_need_more p s)
    where
      go : (r : BasicParser × ErrorCode) → SettledPass (try_line impl is_request h s r)
      go (q, some e) = tt
      go (q, none) =
          let front : List ℕ = take q.header_limit s in
          let behind : List ℕ = drop q.header_limit s in
          checked_line (length s) (parse_start_line impl is_request q h front behind)
            (parse_start_line-OnSuccess is_request q h front behind)

-- ===== src/Http/Parser/Framing/Whole.antt =====
-- `put` as a whole.
use beast_asio_standalone.Prelude.{
  ℕ, zero, suc, Bool, not, ◌&&◌, Option, none, some, List, [], ◌∷◌, length, take, drop, if_cases,
}
use beast_asio_standalone.Http.Error.{ErrorCode}
use beast_asio_standalone.Http.Parser.{
  BasicParser, State, nothing_yet, start_line, fields, body0, body, body_to_eof0, body_to_eof,
  chunk_header0, chunk_header, chunk_body, complete, Impl, Run, ran, threw, content_length, is_done,
}
use beast_asio_standalone.Http.Parser.Header.StartLine.{maybe_need_more, parse_start_line}
use beast_asio_standalone.Http.Parser.Header.Fields.{parse_fields}
use beast_asio_standalone.Http.Parser.Body.{parse_body, parse_body_to_eof, parse_chunk_header}
use beast_asio_standalone.Http.Parser.Put.{
  header_failed, Pass, to_done, breaks, checked, or_break, try_fields, in_fields, go_on, try_line,
  in_start_line, body_init, init, switch, loops, put_loop, put,
}
use beast_asio_standalone.Http.Parser.Framing.{IsFramed, Keeps, KeepsFirst, parse_fields-Framed}
use beast_asio_standalone.Http.Parser.Framing.Message.{
  maybe_need_more-Framed, then_ok-Framed, header_failed-Framed, finish_header-Framed,
  parse_start_line-Framed,
}
use beast_asio_standalone.Http.Parser.Framing.Body.{
  parse_body-Framed, parse_body_to_eof-Framed, parse_chunk_header-Framed, parse_chunk_body-Framed,
}

abbrev KeepsPass : {H : Type 0} → Pass H → Type 0
KeepsPass (to_done r) = Keeps r
KeepsPass (breaks r) = Keeps r

checked-Framed :
    {H : Type 0} (r : Run H) (next : BasicParser → H → List ℕ → Pass H)
    → Keeps r
    → ((p : BasicParser) (h : H) (s : List ℕ) → IsFramed p → KeepsPass (next p h s))
    → KeepsPass (checked r next)
checked-Framed threw next k l = tt
checked-Framed (ran p h s (some e)) next k l = k
checked-Framed (ran p h s none) next k l = l p h s k

or_break-Framed : {H : Type 0} (r : Run H) → Keeps r → KeepsPass (or_break r)
or_break-Framed r k = checked-Framed r _ k (λ p h s l. l)

abbrev pub KeepsSome : {H : Type 0} → Option (Run H) → Type 0
KeepsSome none = Unit
KeepsSome (some r) = Keeps r

module _ {H : Type 0} (impl : Impl H) (is_request : Bool) where
  try_fields-Framed :
      (h : H) (s : List ℕ) (ec : ErrorCode) (r : BasicParser × ErrorCode)
      → KeepsFirst r
      → KeepsPass (try_fields impl is_request h s ec r)
  try_fields-Framed h s ec (p, some e) k = k
  try_fields-Framed h s (some e) (p, none) k = k
  try_fields-Framed h s none (p, none) k =
      let r : Run H = parse_fields impl p h (take p.header_limit s) (drop p.header_limit s) in
      checked-Framed (header_failed (length s) r) _
        (header_failed-Framed (length s) r
          (parse_fields-Framed impl p h (take p.header_limit s) (drop p.header_limit s) k))
        (λ q g t l. finish_header-Framed impl is_request q g t l)

  in_fields-Framed :
      (ec : ErrorCode) (p : BasicParser) (h : H) (s : List ℕ)
      → IsFramed p
      → KeepsPass (in_fields impl is_request ec p h s)
  unfolding in_fields
  in_fields-Framed ec p h s k =
      try_fields-Framed h s ec (maybe_need_more p s) (maybe_need_more-Framed p s k)

  go_on-Framed :
      (p : BasicParser) (h : H) (s : List ℕ) → IsFramed p → KeepsPass (go_on impl is_request p h s)
  go_on-Framed p h [] k = k
  go_on-Framed p h (c ∷ s) k = in_fields-Framed none p h (c ∷ s) k

  try_line-Framed :
      (h : H) (s : List ℕ) (r : BasicParser × ErrorCode)
      → KeepsFirst r
      → KeepsPass (try_line impl is_request h s r)
  try_line-Framed h s (p, some e) k = k
  try_line-Framed h s (p, none) k =
      let front : List ℕ = take p.header_limit s in
      let behind : List ℕ = drop p.header_limit s in
      let r : Run H = parse_start_line impl is_request p h front behind in
      checked-Framed (header_failed (length s) r) _
        (header_failed-Framed (length s) r
          (parse_start_line-Framed impl is_request p h front behind k))
        go_on-Framed

  in_start_line-Framed :
      (p : BasicParser) (h : H) (s : List ℕ)
      → IsFramed p
      → KeepsPass (in_start_line impl is_request p h s)
  unfolding in_start_line
  in_start_line-Framed p h s k =
      try_line-Framed h s (maybe_need_more p s) (maybe_need_more-Framed p s k)

  init-Framed :
      (ec : ErrorCode) (p : BasicParser) (next : State) (h : H) (s : List ℕ)
      → IsFramed p
      → Keeps (init impl is_request ec p next h s)
  init-Framed ec p next h s k = go (impl.on_body_init (content_length p) ec h)
    where
      go : (r : H × ErrorCode) → Keeps (body_init impl is_request p next s r)
      go (g, some e) = k
      go (g, none) = k

  switch-Framed :
      (state : State) (ec : ErrorCode) (p : BasicParser) (h : H) (s : List ℕ)
      → IsFramed p
      → KeepsPass (switch impl is_request state ec p h s)
  unfolding switch
  switch-Framed nothing_yet ec p h [] k = k
  switch-Framed nothing_yet ec p h (c ∷ s) k =
      in_start_line-Framed (record p { state = start_line }) h (c ∷ s) k
  switch-Framed start_line ec p h s k = in_start_line-Framed p h s k
  switch-Framed fields ec p h s k = in_fields-Framed ec p h s k
  switch-Framed body0 ec p h s k = or_break-Framed _ (
      then_ok-Framed (init impl is_request ec p body h s) (parse_body impl)
        (init-Framed ec p body h s k) (parse_body-Framed impl))
  switch-Framed body ec p h s k = or_break-Framed _ (parse_body-Framed impl p h s k)
  switch-Framed body_to_eof0 ec p h s k = or_break-Framed _ (
      then_ok-Framed (init impl is_request ec p body_to_eof h s) (parse_body_to_eof impl)
        (init-Framed ec p body_to_eof h s k) (parse_body_to_eof-Framed impl))
  switch-Framed body_to_eof ec p h s k = or_break-Framed _ (parse_body_to_eof-Framed impl p h s k)
  switch-Framed chunk_header0 ec p h s k = or_break-Framed _ (
      then_ok-Framed (init impl is_request ec p chunk_header h s) (parse_chunk_header impl)
        (init-Framed ec p chunk_header h s k) (parse_chunk_header-Framed impl))
  switch-Framed chunk_header ec p h s k = or_break-Framed _ (parse_chunk_header-Framed impl p h s k)
  switch-Framed chunk_body ec p h s k = or_break-Framed _ (parse_chunk_body-Framed impl p h s k)
  switch-Framed complete ec p h s k = k

  loops-Framed :
      (again : ErrorCode → BasicParser → H → List ℕ → Option (Run H)) (q : Pass H)
      → KeepsPass q
      → ((ec : ErrorCode) (p : BasicParser) (h : H) (s : List ℕ)
          → IsFramed p
          → KeepsSome (again ec p h s))
      → KeepsSome (loops impl is_request again q)
  loops-Framed again (to_done r) k l = k
  loops-Framed again (breaks threw) k l = tt
  loops-Framed again (breaks (ran p h [] ec)) k l = k
  loops-Framed again (breaks (ran p h (c ∷ s) ec)) k l =
      if_cases (λ (r : Option (Run H)). KeepsSome r) (not (is_done p) && p.f.eager) _ _
        (λ _. l ec p h (c ∷ s) k) (λ _. k)

  put_loop-Framed :
      (fuel : ℕ) (ec : ErrorCode) (p : BasicParser) (h : H) (s : List ℕ)
      → IsFramed p
      → KeepsSome (put_loop impl is_request fuel ec p h s)
  unfolding put_loop
  put_loop-Framed zero ec p h s k = tt
  put_loop-Framed (suc fuel) ec p h s k =
      loops-Framed (put_loop impl is_request fuel) (switch impl is_request p.state ec p h s)
        (switch-Framed p.state ec p h s k) (put_loop-Framed fuel)

  -- Whatever the characters and the callbacks are: where the flags of Content-Length and of chunks
  -- are not both set before `put`, they are not both set where it returns, with an error or without.
  pub put-Framed :
      (fuel : ℕ) (p : BasicParser) (h : H) (s : List ℕ)
      → IsFramed p
      → KeepsSome (put impl is_request fuel p h s)
  unfolding put
  put-Framed fuel p h s k = put_loop-Framed fuel none p h s k

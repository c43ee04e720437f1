-- ===== src/Http/Parser/Put.antt =====
-- `put` on one buffer, and `put_eof` (http/impl/basic_parser.ipp).
pub mod Sequence
use beast_asio_standalone.Prelude.{
  ℕ, zero, suc, ◌-◌, Bool, true, false, not, ◌&&◌, ◌||◌, Option, none, some, List, [], ◌∷◌, leb,
  if◌then◌else◌, length, take, drop,
}
use beast_asio_standalone.Http.Error.{Error, ErrorCode, need_more, header_limit, partial_message}
use beast_asio_standalone.Http.Parser.{
  BasicParser, State, nothing_yet, start_line, fields, body0, body, body_to_eof0, body_to_eof,
  chunk_header0, chunk_header, chunk_body, complete, Impl, Run, ran, threw, then_ok, is_done,
  content_length,
}
use beast_asio_standalone.Http.Parser.Header.StartLine.{maybe_need_more, parse_start_line}
use beast_asio_standalone.Http.Parser.Header.Fields.{parse_fields}
use beast_asio_standalone.Http.Parser.Header.Finish.{finish_header}
use beast_asio_standalone.Http.Parser.Body.{
  parse_body, parse_body_to_eof, parse_chunk_header, parse_chunk_body,
}

-- The error branch of the two header states, on `n` as it was before the parsing: what is left of
-- the `n` characters is searched for the end of the header the next time.
abbrev pub is_need_more : Error → Bool
is_need_more need_more = true
is_need_more _ = false

abbrev pub header_failed : {H : Type 0} → ℕ → Run H → Run H
header_failed n threw = threw
header_failed n (ran p h s none) = ran p h s none
header_failed n (ran p h s (some e)) =
    if not (is_need_more e)
    then ran p h s (some e)
    else if leb p.header_limit n
    then ran p h s (some header_limit)
    else if leb 3 (length s)
    then ran (record p { skip = length s - 3 }) h s (some need_more)
    else ran p h s (some need_more)

-- How a case of the `switch` ends: it goes to `done`, or it breaks.
pub data Pass (H : Type 0) : Type 0 where
  to_done : Run H → Pass H
  breaks : Run H → Pass H

-- `if(ec) goto done;`, and a break behind it or what follows it
abbrev pub checked : {H : Type 0} → Run H → (BasicParser → H → List ℕ → Pass H) → Pass H
checked threw next = to_done threw
checked (ran p h s (some e)) next = to_done (ran p h s (some e))
checked (ran p h s none) next = next p h s

abbrev pub or_break : {H : Type 0} → Run H → Pass H
or_break r = checked r (λ p h s. breaks (ran p h s none))

module _ {H : Type 0} (impl : Impl H) (is_request : Bool) where
  -- `case state::fields`: behind `finish_header` there is no look at the error code. An error code
  -- that is set before goes to `done` behind `maybe_need_more`.
  abbrev pub try_fields : H → List ℕ → ErrorCode → BasicParser × ErrorCode → Pass H
  try_fields h s ec (p, some e) = to_done (ran p h s (some e))
  try_fields h s (some e) (p, none) = to_done (ran p h s (some e))
  try_fields h s none (p, none) =
      checked
        (header_failed (length s)
          (parse_fields impl p h (take p.header_limit s) (drop p.header_limit s)))
        (λ q k t. breaks (finish_header impl is_request q k t))

  unfoldable pub in_fields : ErrorCode → BasicParser → H → List ℕ → Pass H
  in_fields ec p h s = try_fields h s ec (maybe_need_more p s)

  abbrev pub go_on : BasicParser → H → List ℕ → Pass H
  go_on p h [] = to_done (ran p h [] (some need_more))
  go_on p h (c ∷ s) = in_fields none p h (c ∷ s)

  -- `case state::start_line`, which goes on with the fields
  abbrev pub try_line : H → List ℕ → BasicParser × ErrorCode → Pass H
  try_line h s (p, some e) = to_done (ran p h s (some e))
  try_line h s (p, none) =
      checked
        (header_failed (length s)
          (parse_start_line impl is_request p h (take p.header_limit s) (drop p.header_limit s)))
        go_on

  unfoldable pub in_start_line : BasicParser → H → List ℕ → Pass H
  in_start_line p h s = try_line h s (maybe_need_more p s)

  -- the callback before the body, and the state after it
  abbrev pub body_init : BasicParser → State → List ℕ → H × ErrorCode → Run H
  body_init p next s (h, some e) = ran p h s (some e)
  body_init p next s (h, none) = ran (record p { state = next }) h s none

  abbrev pub init : ErrorCode → BasicParser → State → H → List ℕ → Run H
  init ec p next h s = body_init p next s (impl.on_body_init (content_length p) ec h)

  -- The `switch`, with the error code from the pass before. It is set only behind `finish_header`,
  -- which leaves the state at the fields or at the start of a body.
  unfoldable pub switch : State → ErrorCode → BasicParser → H → List ℕ → Pass H
  switch nothing_yet ec p h [] = to_done (ran p h [] (some need_more))
  switch nothing_yet ec p h (c ∷ s) = in_start_line (record p { state = start_line }) h (c ∷ s)
  switch start_line ec p h s = in_start_line p h s
  switch fields ec p h s = in_fields ec p h s
  switch body0 ec p h s = or_break (then_ok (init ec p body h s) (parse_body impl))
  switch body ec p h s = or_break (parse_body impl p h s)
  switch body_to_eof0 ec p h s =
      or_break (then_ok (init ec p body_to_eof h s) (parse_body_to_eof impl))
  switch body_to_eof ec p h s = or_break (parse_body_to_eof impl p h s)
  switch chunk_header0 ec p h s =
      or_break (then_ok (init ec p chunk_header h s) (parse_chunk_header impl))
  switch chunk_header ec p h s = or_break (parse_chunk_header impl p h s)
  switch chunk_body ec p h s = or_break (parse_chunk_body impl p h s)
  switch complete ec p h s = to_done (ran p h s none)

  -- The loop; `none` is the end of the fuel. The number of characters that `put` returns is that of
  -- the ones it was given less that of the ones that are left.
  abbrev pub loops :
      (ErrorCode → BasicParser → H → List ℕ → Option (Run H)) → Pass H → Option (Run H)
  loops again (to_done r) = some r
  loops again (breaks threw) = some threw
  loops again (breaks (ran p h [] ec)) = some (ran p h [] ec)
  loops again (breaks (ran p h (c ∷ s) ec)) =
      if not (is_done p) && p.f.eager then again ec p h (c ∷ s) else some (ran p h (c ∷ s) ec)

  unfoldable pub put_loop : ℕ → ErrorCode → BasicParser → H → List ℕ → Option (Run H)
  put_loop zero ec p h s = none
  put_loop (suc fuel) ec p h s = loops (put_loop fuel) (switch p.state ec p h s)

  unfoldable pub put : ℕ → BasicParser → H → List ℕ → Option (Run H)
  put fuel p h s = put_loop fuel none p h s

  abbrev pub in_header : State → Bool
  in_header start_line = true
  in_header fields = true
  in_header _ = false

  abbrev pub eof_on : BasicParser → H × ErrorCode → BasicParser × H × ErrorCode
  eof_on p (h, some e) = (p, h, some e)
  eof_on p (h, none) = (record p { state = complete }, h, none)

  unfoldable pub put_eof : BasicParser → H → BasicParser × H × ErrorCode
  put_eof p h =
      if in_header p.state
      then (p, h, some partial_message)
      else if p.f.content_length || p.f.chunked
      then (if not (is_done p) then (p, h, some partial_message) else (p, h, none))
      else eof_on p (impl.on_finish h)

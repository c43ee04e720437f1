-- ===== src/Http/Parser.antt =====
-- `basic_parser` (http/basic_parser.hpp): its members, its flags and the callbacks of the class that
-- derives from it.
pub mod Header
pub mod Body
pub mod Put
pub mod Framing
pub mod Ends
pub mod Chunk
use beast_asio_standalone.Prelude.{
  ℕ, ◌+◌, ◌*◌, Bool, true, false, not, ◌&&◌, ◌||◌, Option, none, some, List, [], ◌∷◌, if◌then◌else◌,
}
use beast_asio_standalone.Http.Error.{ErrorCode}
use beast_asio_standalone.Http.Verb.{Verb}

pub data State : Type 0 where
  nothing_yet start_line fields body0 body body_to_eof0 body_to_eof : State
  chunk_header0 chunk_header chunk_body complete : State

-- `f_`, one member for each bit
pub record Flags : Type 0 where
  pub skip_body : Bool
  pub eager : Bool
  pub got_some : Bool
  pub has_body : Bool
  pub http11 : Bool
  pub need_eof : Bool
  pub expect_crlf : Bool
  pub connection_close : Bool
  pub connection_upgrade : Bool
  pub connection_keep_alive : Bool
  pub content_length : Bool
  pub chunked : Bool
  pub upgrade : Bool
  pub final_chunk : Bool

abbrev pub no_flags : Flags
no_flags = record {
  skip_body = false;
  eager = false;
  got_some = false;
  has_body = false;
  http11 = false;
  need_eof = false;
  expect_crlf = false;
  connection_close = false;
  connection_upgrade = false;
  connection_keep_alive = false;
  content_length = false;
  chunked = false;
  upgrade = false;
  final_chunk = false;
}

-- The members without the buffer in which `put` joins a sequence of buffers.
pub record BasicParser : Type 0 where
  pub body_limit : ℕ
  pub len : ℕ
  pub skip : ℕ
  pub header_limit : ℕ
  pub status : ℕ
  pub state : State
  pub f : Flags

-- a new parser of requests or of responses
abbrev pub default_body_limit : Bool → ℕ
default_body_limit is_request = if is_request then 1 * 1024 * 1024 else 8 * 1024 * 1024

abbrev pub new_parser : Bool → BasicParser
new_parser is_request = record {
  body_limit = default_body_limit is_request;
  len = 0;
  skip = 0;
  header_limit = 8192;
  status = 0;
  state = nothing_yet;
  f = no_flags;
}

abbrev pub is_complete : State → Bool
is_complete complete = true
is_complete _ = false

abbrev pub is_done : BasicParser → Bool
is_done p = is_complete p.state

abbrev pub is_past_fields : State → Bool
is_past_fields nothing_yet = false
is_past_fields start_line = false
is_past_fields fields = false
is_past_fields _ = true

abbrev pub is_header_done : BasicParser → Bool
is_header_done p = is_past_fields p.state

abbrev pub has_begun : State → Bool
has_begun nothing_yet = false
has_begun _ = true

abbrev pub got_some : BasicParser → Bool
got_some p = has_begun p.state

-- The option that is set, where the source has one name for both: `eager`, `skip`, `body_limit` and
-- `header_limit` with an argument.
abbrev pub set_eager : BasicParser → Bool → BasicParser
set_eager p v = record p { f = record p.f { eager = v } }

-- It may only be set before anything has been parsed.
abbrev pub set_skip : BasicParser → Bool → BasicParser
set_skip p v = record p { f = record p.f { skip_body = v } }

abbrev pub set_body_limit : BasicParser → ℕ → BasicParser
set_body_limit p v = record p { body_limit = v }

abbrev pub set_header_limit : BasicParser → ℕ → BasicParser
set_header_limit p v = record p { header_limit = v }

unfoldable pub keep_alive : BasicParser → Bool
keep_alive p =
    if p.f.http11
    then (if p.f.connection_close then false else not p.f.need_eof)
    else if not p.f.connection_keep_alive
    then false
    else not p.f.need_eof

unfoldable pub content_length : BasicParser → Option ℕ
content_length p = if not p.f.content_length then none else some p.len

-- The callbacks of the derived class, which is a parameter of the template: each may change that
-- class's own state and may give an error. The body callbacks say how much they have taken. The error
-- code that they are given is clear, but for `on_body_init`, which may be given one that is set.
pub record Impl (H : Type 0) : Type 0 where
  pub on_request : Verb → List ℕ → List ℕ → ℕ → H → H × ErrorCode
  pub on_response : ℕ → List ℕ → ℕ → H → H × ErrorCode
  pub on_field : ℕ → List ℕ → List ℕ → H → H × ErrorCode
  pub on_header : H → H × ErrorCode
  pub on_body_init : Option ℕ → ErrorCode → H → H × ErrorCode
  pub on_body : List ℕ → H → ℕ × H × ErrorCode
  pub on_chunk_header : ℕ → List ℕ → H → H × ErrorCode
  pub on_chunk_body : ℕ → List ℕ → H → ℕ × H × ErrorCode
  pub on_finish : H → H × ErrorCode

-- After an operation: the members, the derived class's state, the characters from the pointer on, and
-- the error code; or the exception that has left the operation.
pub data Run (H : Type 0) : Type 0 where
  ran : BasicParser → H → List ℕ → ErrorCode → Run H
  threw : Run H

-- what follows where there is no error
abbrev pub then_ok : {H : Type 0} → Run H → (BasicParser → H → List ℕ → Run H) → Run H
then_ok (ran p h s none) next = next p h s
then_ok (ran p h s (some e)) next = ran p h s (some e)
then_ok threw next = threw

-- ===== src/Http/Samples.antt =====
-- Tests, and what the examples share.
mod Pieces
mod Messages
use beast_asio_standalone.Prelude.{ℕ, ◌≡◌, refl, true, false, none, some, List, [], ◌∷◌, length}
use beast_asio_standalone.Http.Error.{ErrorCode, body_limit}
use beast_asio_standalone.Http.Text.{codes}
use beast_asio_standalone.Http.Parser.{
  BasicParser, Flags, State, fields, Impl, new_parser, is_done, set_eager,
}

-- a derived class that keeps what it is told
abbrev recorder : Impl (List (List ℕ))
recorder = record {
  on_request = λ verb method target version log. (method ∷ target ∷ log, none);
  on_response = λ status reason version log. (reason ∷ log, none);
  on_field = λ f name value log. (name ∷ value ∷ log, none);
  on_header = λ log. (log, none);
  on_body_init = λ size ec log. (log, none);
  on_body = λ s log. (length s, (s ∷ log), none);
  on_chunk_header = λ size ext log. (ext ∷ log, none);
  on_chunk_body = λ remain s log. (length s, (s ∷ log), none);
  on_finish = λ log. (log, none);
}

abbrev eager : BasicParser → BasicParser
eager p = set_eager p true

abbrev chunked_request : List ℕ
chunked_request =
    codes
      "POST /a HTTP/1.1\r\nTransfer-Encoding: chunked\r\n\r\n5;x=\"y\"\r\nhello\r\n0\r\nT: z\r\n\r\n"

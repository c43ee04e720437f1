-- ===== src/Http/Samples/Messages.antt =====
-- Whole messages.
use beast_asio_standalone.Prelude.{
  ℕ, ◌≡◌, refl, true, Option, none, some, List, [], ◌∷◌, ◌++◌, Bool, false, inl, arith,
}
use beast_asio_standalone.Http.Error.{
  ErrorCode, bad_content_length, unexpected_body, body_limit, header_limit,
}
use beast_asio_standalone.Http.Text.{codes, iequals, fast_loop, slow_loop, ascii_tolower}
use beast_asio_standalone.Core.Clamp.{clamp_limit}
use beast_asio_standalone.Http.Chars.{is_token_char, is_pathchar, is_digit, is_print, unhex}
use beast_asio_standalone.Http.Lines.{find_eol, find_eom, find_eom_loop}
use beast_asio_standalone.Http.Numbers.{
  to_hex, parse_crlf, parse_hex, parse_hex_loop, parse_dec, parse_dec_loop,
}
use beast_asio_standalone.Http.StartLine.{
  parse_method, scan, parse_target, parse_version, parse_token_to_eol,
}
use beast_asio_standalone.Http.Field.{
  parse_field, name_loop, value_loop, fold_loop, next_piece, skip_blanks, trim_back,
}
use beast_asio_standalone.Http.Names.{string_to_field, find_name, hash, slow, iequal}
use beast_asio_standalone.Http.Tokens.{tokens, tokens_loop, increment, token_loop}
use beast_asio_standalone.Http.Extensions.{
  parse_chunk_extensions, extensions_loop, skip_token, skip_quoted,
}
use beast_asio_standalone.Http.Parser.Header.StartLine.{
  maybe_need_more, parse_start_line, request_line,
}
use beast_asio_standalone.Http.Parser.Header.Fields.{
  parse_fields, fields_loop, do_field, chunked_last,
}
use beast_asio_standalone.Http.Parser.Header.Finish.{finish_header, request_body}
use beast_asio_standalone.Http.Parser.Body.{parse_chunk_header, parse_chunk_body, parse_body}
use beast_asio_standalone.Http.Field.Ends.{Finishes}
use beast_asio_standalone.Http.Parser.{
  Impl, Run, ran, threw, new_parser, content_length, is_done, is_header_done, got_some, set_skip,
  set_body_limit, set_header_limit,
}
use beast_asio_standalone.Http.Parser.Put.{put, put_loop, switch, in_start_line, in_fields}
use beast_asio_standalone.Http.Parser.Put.Sequence.{joined, put_seq, put_seq-joined}
use beast_asio_standalone.Http.Parser.Chunk.{line_end, in_chunk, parse_chunk_header-to_hex}
use beast_asio_standalone.Http.Parser.Framing.Whole.{KeepsSome, put-Framed}
use beast_asio_standalone.Http.Parser.Ends.{IsGreedy}
use beast_asio_standalone.Http.Parser.Ends.Whole.{put-Finishes}
use beast_asio_standalone.Http.Samples.{recorder, eager, chunked_request}

recorder-IsGreedy : IsGreedy recorder
recorder-IsGreedy = record { takes_body = λ s h. refl; takes_chunk = λ n s h. refl }

put-Framed_example : KeepsSome (put recorder true 20 (eager (new_parser true)) [] chunked_request)
put-Framed_example = put-Framed recorder true 20 (eager (new_parser true)) [] chunked_request refl

put-Finishes_example :
    (fuel : ℕ) × Finishes (put recorder true fuel (eager (new_parser true)) [] chunked_request)
put-Finishes_example =
    put-Finishes recorder true (eager (new_parser true)) [] chunked_request recorder-IsGreedy

parse_chunk_header-to_hex_example :
    parse_chunk_header recorder (new_parser true) [] (to_hex 5 ++ line_end (codes "hello"))
    ≡ ran (in_chunk (new_parser true) 5) ([] ∷ []) (codes "hello") none
parse_chunk_header-to_hex_example =
    parse_chunk_header-to_hex recorder (new_parser true) [] ([] ∷ []) (codes "hello") 5 refl refl
      (omega arith) (omega arith) (omega arith) refl

put_seq-joined_example :
    (put_seq recorder true 20
      (codes "old characters")
      (eager (new_parser true))
      []
      (codes "GET / HT" ∷ codes "TP/1.1\r\n\r\n" ∷ [])).1
    ≡ put recorder true 20
        (eager (new_parser true))
        []
        (joined (codes "GET / HT" ∷ codes "TP/1.1\r\n\r\n" ∷ []))
unfolding joined
put_seq-joined_example =
    put_seq-joined recorder true 20 (codes "old characters") (eager (new_parser true)) []
      (codes "GET / HT") (codes "TP/1.1\r\n\r\n" ∷ []) (inl (omega arith))

-- what the callbacks are told of the request
abbrev told : Option (Run (List (List ℕ))) → List (List ℕ)
told none = []
told (some threw) = []
told (some (ran p h s ec)) = h

abbrev error_of : Option (Run (List (List ℕ))) → ErrorCode
error_of none = none
error_of (some threw) = none
error_of (some (ran p h s ec)) = ec

abbrev done_and_begun : Option (Run (List (List ℕ))) → Bool × Bool × Bool
done_and_begun none = (false, false, false)
done_and_begun (some threw) = (false, false, false)
done_and_begun (some (ran p h s ec)) = (is_done p, is_header_done p, got_some p)

-- A derived class that refuses every header.
abbrev refusing : Impl (List (List ℕ))
refusing = record recorder { on_header = λ log. (log, some unexpected_body) }

abbrev post : List ℕ → List ℕ
post s = codes "POST / HTTP/1.1\r\n" ++ s

-- The chunks of a message; a Content-Length with chunks; the error of a callback on the header, which
-- stays where the buffer ends there, and is lost where body characters follow; a header that ends the
-- message where the body is skipped, and does not else; a body over its limit; a header of 17 and 21
-- characters with a limit of 30, which is applied to the start line and to the fields by themselves,
-- and with one of 20.
runs :
    (told (put recorder true 20 (eager (new_parser true)) [] chunked_request)
      ≡ codes "T"
        ∷ codes "z"
        ∷ []
        ∷ codes "hello"
        ∷ codes ";x=\"y\""
        ∷ codes "Transfer-Encoding"
        ∷ codes "chunked"
        ∷ codes "POST"
        ∷ codes "/a"
        ∷ [])
    × (error_of (
          put recorder true 20
            (new_parser true)
            []
            (post (codes "Transfer-Encoding: chunked\r\nContent-Length: 3\r\n\r\n")))
        ≡ some bad_content_length)
    × (error_of (
          put refusing true 20
            (eager (new_parser true))
            []
            (post (codes "Content-Length: 3\r\n\r\n")))
        ≡ some unexpected_body)
    × (error_of (
          put refusing true 20
            (eager (new_parser true))
            []
            (post (codes "Content-Length: 3\r\n\r\nabc")))
        ≡ none)
    × (done_and_begun (
          put recorder true 20
            (set_skip (new_parser true) true)
            []
            (post (codes "Content-Length: 3\r\n\r\nabc")))
        ≡ (true, true, true))
    × (done_and_begun
          (put recorder true 20 (new_parser true) [] (post (codes "Content-Length: 3\r\n\r\nabc")))
        ≡ (false, true, true))
    × (error_of (
          put recorder true 20
            (set_body_limit (new_parser true) 2)
            []
            (post (codes "Content-Length: 3\r\n\r\nabc")))
        ≡ some body_limit)
    × (error_of (
          put recorder true 20
            (set_header_limit (new_parser true) 30)
            []
            (post (codes "Content-Length: 3\r\n\r\nabc")))
        ≡ none)
    × (error_of (
          put recorder true 20
            (set_header_limit (new_parser true) 20)
            []
            (post (codes "Content-Length: 3\r\n\r\nabc")))
        ≡ some header_limit)
unfolding put put_loop switch in_start_line in_fields maybe_need_more parse_start_line request_line
    parse_method scan is_token_char parse_target is_pathchar parse_version is_digit parse_fields
    fields_loop parse_field name_loop value_loop fold_loop next_piece skip_blanks trim_back
    parse_token_to_eol is_print string_to_field find_name hash slow iequal do_field tokens
    tokens_loop increment token_loop chunked_last iequals fast_loop slow_loop ascii_tolower
    finish_header request_body parse_chunk_header parse_chunk_body parse_body content_length
    parse_dec parse_dec_loop find_eol find_eom find_eom_loop parse_crlf parse_hex parse_hex_loop
    unhex parse_chunk_extensions extensions_loop skip_token skip_quoted clamp_limit
runs = (refl, refl, refl, refl, refl, refl, refl, refl, refl)

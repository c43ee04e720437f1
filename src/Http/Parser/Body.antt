-- ===== src/Http/Parser/Body.antt =====
-- The body (`parse_body`, `parse_body_to_eof`, `parse_chunk_header` and `parse_chunk_body` of
-- http/impl/basic_parser.ipp). Sizes have 64 bits.
use beast_asio_standalone.Prelude.{
  ℕ, ◌+◌, ◌-◌, ◌^◌, ◌%◌, true, not, Option, none, some, List, [], ◌==◌, ◌!=◌, ltb, if◌then◌else◌,
  length, take, drop,
}
use beast_asio_standalone.Core.Clamp.{clamp_limit}
use beast_asio_standalone.Http.Error.{
  ErrorCode, Parsed, parsed, failed, need_more, body_limit, bad_chunk, bad_chunk_extension,
}
use beast_asio_standalone.Http.Lines.{Line, found, missing, wrong, find_eol, find_eom}
use beast_asio_standalone.Http.Numbers.{parse_hex, parse_crlf}
use beast_asio_standalone.Http.Extensions.{parse_chunk_extensions}
use beast_asio_standalone.Http.Parser.{
  BasicParser, complete, chunk_header, chunk_body, Impl, Run, ran, threw,
}
use beast_asio_standalone.Http.Parser.Header.Fields.{parse_fields}

-- `len_ -= n`
abbrev pub less : ℕ → ℕ → ℕ
less len n = (len + 2 ^ 64 - n) % 2 ^ 64

module _ {H : Type 0} (impl : Impl H) where
  -- `impl().on_finish_impl(ec)`, and `state::complete` where there is no error
  abbrev pub complete_on : BasicParser → List ℕ → H × ErrorCode → Run H
  complete_on p s (h, some e) = ran p h s (some e)
  complete_on p s (h, none) = ran (record p { state = complete }) h s none

  abbrev pub body_taken : BasicParser → List ℕ → ℕ × H × ErrorCode → Run H
  body_taken p s (n, h, some e) = ran (record p { len = less p.len n }) h (drop n s) (some e)
  body_taken p s (n, h, none) =
      let q = record p { len = less p.len n } in
      if ltb 0 q.len then ran q h (drop n s) none else complete_on q (drop n s) (impl.on_finish h)

  unfoldable pub parse_body : BasicParser → H → List ℕ → Run H
  parse_body p h s = body_taken p s (impl.on_body (take (clamp_limit p.len (length s)) s) h)

  abbrev pub part_taken : BasicParser → List ℕ → ℕ × H × ErrorCode → Run H
  part_taken p s (n, h, ec) = ran p h (drop n s) ec

  unfoldable pub parse_body_to_eof : BasicParser → H → List ℕ → Run H
  parse_body_to_eof p h s =
      let n = length s in
      if ltb p.body_limit n
      then ran p h s (some body_limit)
      else part_taken (record p { body_limit = p.body_limit - n }) s (impl.on_body s h)

  -- An error of the callback comes with the characters that it has taken.
  abbrev pub chunk_taken : BasicParser → List ℕ → ℕ × H × ErrorCode → Run H
  chunk_taken p s (n, h, ec) =
      let q = record p { len = less p.len n } in
      ran (if q.len == 0 then record q { state = chunk_header } else q) h (drop n s) ec

  unfoldable pub parse_chunk_body : BasicParser → H → List ℕ → Run H
  parse_chunk_body p h s =
      chunk_taken p s (impl.on_chunk_body p.len (take (clamp_limit p.len (length s)) s) h)

  -- `parse_chunk_header` on `s0`, which `p0` points to. Behind the size of a chunk that is not the
  -- last stand the characters `s`, and behind its line `eol`.
  abbrev pub chunk_begins : BasicParser → List ℕ → List ℕ → ℕ → H × ErrorCode → Run H
  chunk_begins p s0 eol size (h, some e) = ran p h s0 (some e)
  chunk_begins p s0 eol size (h, none) =
      ran
        (record p {
          len = size;
          skip = 2;
          state = chunk_body;
          f = record p.f { expect_crlf = true };
        })
        h eol none

  -- The extensions, which have to end at the end of the line; `next` takes what they are.
  abbrev pub with_extensions :
      BasicParser → H → List ℕ → List ℕ → List ℕ → Parsed (List ℕ) → (List ℕ → Run H) → Run H
  with_extensions p h s0 s eol (failed e) next = ran p h s0 (some e)
  with_extensions p h s0 s eol (parsed _ rest) next =
      if length rest != length eol + 2
      then ran p h s0 (some bad_chunk_extension)
      else next (take (length s - length rest) s)

  abbrev pub sized_chunk : BasicParser → H → List ℕ → List ℕ → List ℕ → ℕ → Run H
  sized_chunk p h s0 s eol size =
      if ltb p.body_limit size
      then ran p h s0 (some body_limit)
      else let q = record p { body_limit = p.body_limit - size } in
        with_extensions q h s0 s eol (parse_chunk_extensions s)
          (λ ext. chunk_begins q s0 eol size (impl.on_chunk_header size ext h))

  -- the last chunk, from the search for the end of the trailer on
  abbrev pub trailer_done : List ℕ → List ℕ → Run H → Run H
  trailer_done s0 eom (ran p h rest (some e)) = ran p h s0 (some e)
  trailer_done s0 eom (ran p h rest none) = complete_on p eom (impl.on_finish h)
  trailer_done s0 eom threw = threw

  abbrev pub last_begins : BasicParser → List ℕ → List ℕ → List ℕ → H × ErrorCode → Run H
  last_begins p s0 eol eom (h, some e) = ran p h s0 (some e)
  last_begins p s0 eol eom (h, none) =
      trailer_done s0 eom (parse_fields impl p h (take (length eol - length eom) eol) eom)

  abbrev pub trailer_found : BasicParser → H → List ℕ → List ℕ → List ℕ → Option (List ℕ) → Run H
  trailer_found p h s0 s eol none = ran (record p { skip = length s0 - 3 }) h s0 (some need_more)
  trailer_found p h s0 s eol (some eom) =
      with_extensions p h s0 s eol (parse_chunk_extensions s)
        (λ ext. last_begins p s0 eol eom (impl.on_chunk_header 0 ext h))

  abbrev pub last_chunk : BasicParser → H → List ℕ → List ℕ → List ℕ → Run H
  last_chunk p h s0 s eol = trailer_found p h s0 s eol (find_eom (drop p.skip s0))

  abbrev pub with_size : BasicParser → H → List ℕ → List ℕ → Option (ℕ × List ℕ) → Run H
  with_size p h s0 eol none = ran p h s0 (some bad_chunk)
  with_size p h s0 eol (some (size, s)) =
      if size != 0
      then sized_chunk p h s0 s eol size
      else last_chunk (record p { f = record p.f { final_chunk = true } }) h s0 s eol

  -- `skip_ = eol - 2 - p0`
  abbrev pub with_line : BasicParser → H → List ℕ → List ℕ → Line → Run H
  with_line p h s0 s missing = ran (record p { skip = length s0 - 1 }) h s0 (some need_more)
  with_line p h s0 s (wrong e) = ran p h s0 (some e)
  with_line p h s0 s (found eol) =
      with_size (record p { skip = length s0 - length eol - 2 }) h s0 eol (parse_hex s)

  abbrev pub first_look : BasicParser → H → List ℕ → Option (List ℕ) → Run H
  first_look p h s0 none = ran p h s0 (some bad_chunk)
  first_look p h s0 (some s) = with_line p h s0 s (find_eol (drop p.skip s0))

  -- The last chunk once more, after its first line has been read before: what was asserted then holds
  -- again, and a result that is not looked at leaves the pointer.
  abbrev pub or_else : {A : Type 0} → Option A → A → A
  or_else none a = a
  or_else (some b) a = b

  abbrev pub eol_of : Line → List ℕ
  eol_of (found eol) = eol
  eol_of missing = []
  eol_of (wrong e) = []

  abbrev pub look_again : BasicParser → H → List ℕ → List ℕ → Run H
  look_again p h s0 s1 =
      let s = (or_else (parse_hex s1) (0, s1)).1 in last_chunk p h s0 s (eol_of (find_eol s))

  unfoldable pub parse_chunk_header : BasicParser → H → List ℕ → Run H
  parse_chunk_header p h s0 =
      if not p.f.final_chunk
      then (if ltb (length s0) (p.skip + 2)
          then ran p h s0 (some need_more)
          else first_look p h s0 (if p.f.expect_crlf then parse_crlf s0 else some s0))
      else look_again p h s0 (if p.f.expect_crlf then or_else (parse_crlf s0) s0 else s0)

-- ===== src/Http/Parser/Framing/Body.antt =====
-- The same of the body.
use beast_asio_standalone.Prelude.{
  ℕ, ◌+◌, ◌-◌, true, not, Option, none, some, List, ◌==◌, ◌!=◌, ltb, if◌then◌else◌, length, take,
  drop, if_cases,
}
use beast_asio_standalone.Core.Clamp.{clamp_limit}
use beast_asio_standalone.Http.Error.{ErrorCode, Parsed, parsed, failed}
use beast_asio_standalone.Http.Lines.{Line, found, missing, wrong, find_eol, find_eom}
use beast_asio_standalone.Http.Numbers.{parse_hex, parse_crlf}
use beast_asio_standalone.Http.Extensions.{parse_chunk_extensions}
use beast_asio_standalone.Http.Parser.{BasicParser, Impl, Run, ran, threw}
use beast_asio_standalone.Http.Parser.Header.Fields.{parse_fields}
use beast_asio_standalone.Http.Parser.Body.{
  less, body_taken, parse_body, part_taken, parse_body_to_eof, chunk_taken, parse_chunk_body,
  chunk_begins, with_extensions, sized_chunk, trailer_done, last_begins, trailer_found, with_size,
  with_line, first_look, parse_chunk_header, or_else, eol_of,
}
use beast_asio_standalone.Http.Parser.Framing.{IsFramed, Keeps, parse_fields-Framed}
use beast_asio_standalone.Http.Parser.Framing.Message.{complete_on-Framed}

module _ {H : Type 0} (impl : Impl H) where
  body_taken-Framed :
      (p : BasicParser) (s : List ℕ) (r : ℕ × H × ErrorCode)
      → IsFramed p
      → Keeps (body_taken impl p s r)
  body_taken-Framed p s (n, h, some e) k = k
  body_taken-Framed p s (n, h, none) k =
      let q : BasicParser = record p { len = less p.len n } in
      if_cases Keeps (ltb 0 q.len) _ _ (λ _. k)
        (λ _. complete_on-Framed impl q (drop n s) (impl.on_finish h) k)

  part_taken-Framed :
      (p : BasicParser) (s : List ℕ) (r : ℕ × H × ErrorCode)
      → IsFramed p
      → Keeps (part_taken impl p s r)
  part_taken-Framed p s (n, h, ec) k = k

  pub parse_body_to_eof-Framed :
      (p : BasicParser) (h : H) (s : List ℕ) → IsFramed p → Keeps (parse_body_to_eof impl p h s)
  unfolding parse_body_to_eof
  parse_body_to_eof-Framed p h s k =
      if_cases Keeps (ltb p.body_limit (length s)) _ _ (λ _. k)
        (λ _.
          part_taken-Framed (record p { body_limit = p.body_limit - length s }) s (impl.on_body s h)
            k)

  chunk_taken-Framed :
      (p : BasicParser) (s : List ℕ) (r : ℕ × H × ErrorCode)
      → IsFramed p
      → Keeps (chunk_taken impl p s r)
  chunk_taken-Framed p s (n, h, ec) k = if_cases IsFramed (less p.len n == 0) _ _ (λ _. k) (λ _. k)

  chunk_begins-Framed :
      (p : BasicParser) (s0 eol : List ℕ) (size : ℕ) (r : H × ErrorCode)
      → IsFramed p
      → Keeps (chunk_begins impl p s0 eol size r)
  chunk_begins-Framed p s0 eol size (h, some e) k = k
  chunk_begins-Framed p s0 eol size (h, none) k = k

  with_extensions-Framed :
      (p : BasicParser) (h : H) (s0 s eol : List ℕ) (r : Parsed (List ℕ)) (next : List ℕ → Run H)
      → IsFramed p
      → ((ext : List ℕ) → Keeps (next ext))
      → Keeps (with_extensions impl p h s0 s eol r next)
  with_extensions-Framed p h s0 s eol (failed e) next k l = k
  with_extensions-Framed p h s0 s eol (parsed t rest) next k l =
      if_cases Keeps (length rest != length eol + 2) _ _ (λ _. k)
        (λ _. l (take (length s - length rest) s))

  trailer_done-Framed : (s0 eom : List ℕ) (r : Run H) → Keeps r → Keeps (trailer_done impl s0 eom r)
  trailer_done-Framed s0 eom (ran p h rest (some e)) k = k
  trailer_done-Framed s0 eom (ran p h rest none) k =
      complete_on-Framed impl p eom (impl.on_finish h) k
  trailer_done-Framed s0 eom threw k = tt

  last_begins-Framed :
      (p : BasicParser) (s0 eol eom : List ℕ) (r : H × ErrorCode)
      → IsFramed p
      → Keeps (last_begins impl p s0 eol eom r)
  last_begins-Framed p s0 eol eom (h, some e) k = k
  last_begins-Framed p s0 eol eom (h, none) k =
      let trailer : List ℕ = take (length eol - length eom) eol in
      trailer_done-Framed s0 eom (parse_fields impl p h trailer eom)
        (parse_fields-Framed impl p h trailer eom k)

  trailer_found-Framed :
      (p : BasicParser) (h : H) (s0 s eol : List ℕ) (r : Option (List ℕ))
      → IsFramed p
      → Keeps (trailer_found impl p h s0 s eol r)
  trailer_found-Framed p h s0 s eol none k = k
  trailer_found-Framed p h s0 s eol (some eom) k =
      with_extensions-Framed p h s0 s eol (parse_chunk_extensions s) _ k
        (λ ext. last_begins-Framed p s0 eol eom (impl.on_chunk_header 0 ext h) k)

  sized_chunk-Framed :
      (p : BasicParser) (h : H) (s0 s eol : List ℕ) (size : ℕ)
      → IsFramed p
      → Keeps (sized_chunk impl p h s0 s eol size)
  sized_chunk-Framed p h s0 s eol size k =
      let q : BasicParser = record p { body_limit = p.body_limit - size } in
      if_cases Keeps (ltb p.body_limit size) _ _ (λ _. k)
        (λ _.
          with_extensions-Framed q h s0 s eol (parse_chunk_extensions s) _ k
            (λ ext. chunk_begins-Framed q s0 eol size (impl.on_chunk_header size ext h) k))

  with_size-Framed :
      (p : BasicParser) (h : H) (s0 eol : List ℕ) (r : Option (ℕ × List ℕ))
      → IsFramed p
      → Keeps (with_size impl p h s0 eol r)
  with_size-Framed p h s0 eol none k = k
  with_size-Framed p h s0 eol (some (size, s)) k =
      let q : BasicParser = record p { f = record p.f { final_chunk = true } } in
      if_cases Keeps (size != 0) _ _ (λ _. sized_chunk-Framed p h s0 s eol size k)
        (λ _. trailer_found-Framed q h s0 s eol (find_eom (drop q.skip s0)) k)

  with_line-Framed :
      (p : BasicParser) (h : H) (s0 s : List ℕ) (r : Line)
      → IsFramed p
      → Keeps (with_line impl p h s0 s r)
  with_line-Framed p h s0 s missing k = k
  with_line-Framed p h s0 s (wrong e) k = k
  with_line-Framed p h s0 s (found eol) k =
      with_size-Framed (record p { skip = length s0 - length eol - 2 }) h s0 eol (parse_hex s) k

  first_look-Framed :
      (p : BasicParser) (h : H) (s0 : List ℕ) (r : Option (List ℕ))
      → IsFramed p
      → Keeps (first_look impl p h s0 r)
  first_look-Framed p h s0 none k = k
  first_look-Framed p h s0 (some s) k = with_line-Framed p h s0 s (find_eol (drop p.skip s0)) k

  pub parse_chunk_header-Framed :
      (p : BasicParser) (h : H) (s0 : List ℕ) → IsFramed p → Keeps (parse_chunk_header impl p h s0)
  unfolding parse_chunk_header
  parse_chunk_header-Framed p h s0 k =
      if_cases Keeps (not p.f.final_chunk) _ _
        (λ _.
          if_cases Keeps (ltb (length s0) (p.skip + 2)) _ _ (λ _. k)
            (λ _. first_look-Framed p h s0 (if p.f.expect_crlf then parse_crlf s0 else some s0) k))
        (λ _.
          let s1 : List ℕ = if p.f.expect_crlf then or_else impl (parse_crlf s0) s0 else s0 in
          let s : List ℕ = (or_else impl (parse_hex s1) (0, s1)).1 in
          trailer_found-Framed p h s0 s (eol_of impl (find_eol s)) (find_eom (drop p.skip s0)) k)

  pub parse_body-Framed :
      (p : BasicParser) (h : H) (s : List ℕ) → IsFramed p → Keeps (parse_body impl p h s)
  unfolding parse_body
  parse_body-Framed p h s k =
      body_taken-Framed p s (impl.on_body (take (clamp_limit p.len (length s)) s) h) k

  pub parse_chunk_body-Framed :
      (p : BasicParser) (h : H) (s : List ℕ) → IsFramed p → Keeps (parse_chunk_body impl p h s)
  unfolding parse_chunk_body
  parse_chunk_body-Framed p h s k =
      chunk_taken-Framed p s (impl.on_chunk_body p.len (take (clamp_limit p.len (length s)) s) h) k

-- ===== src/Http/Parser/Ends.antt =====
-- `put` ends: with callbacks that take all of the body characters they are given, there is fuel at
-- which it has a result.
pub mod Header
pub mod Whole
use beast_asio_standalone.Core.Clamp.{clamp-eq-min}
use beast_asio_standalone.Http.Lines.Eol.{ShortLine, longer, find_eol-Short}
use beast_asio_standalone.Prelude.{
  ℕ, zero, suc, ◌+◌, ◌-◌, ◌/◌, ◌≡◌, refl, min, Bool, true, false, not, ◌&&◌, ◌||◌, Option, none,
  some, List, [], ◌∷◌, ◌++◌, ◌==◌, ◌!=◌, ltb, leb, if◌then◌else◌, length, take, drop, if_cases,
  arith,
}
use beast_asio_standalone.Core.Clamp.{clamp_limit}
use beast_asio_standalone.Http.Error.{Error, ErrorCode, Parsed, parsed, failed, need_more}
use beast_asio_standalone.Http.Lines.{Line, found, missing, wrong, find_eol, find_eom}
use beast_asio_standalone.Http.Numbers.{parse_hex, parse_crlf}
use beast_asio_standalone.Http.Extensions.{parse_chunk_extensions}
use beast_asio_standalone.Http.Verb.{string_to_verb}
use beast_asio_standalone.Http.Parser.{
  BasicParser, Flags, State, nothing_yet, start_line, fields, body0, body, body_to_eof0,
  body_to_eof, chunk_header0, chunk_header, chunk_body, complete, Impl, Run, ran, threw, then_ok,
  content_length, is_complete, is_done,
}
use beast_asio_standalone.Http.Parser.Header.StartLine.{
  RequestLine, StatusLine, maybe_need_more, searched, parse_start_line, line_done, with_http11,
  request_line, status_line, request_done, response_done,
}
use beast_asio_standalone.Http.Parser.Header.Fields.{parse_fields}
use beast_asio_standalone.Http.Parser.Header.Finish.{
  request_body, response_body, finish_header, body_found, header_done, known_length, finished,
}
use beast_asio_standalone.Http.Parser.Body.{
  less, complete_on, body_taken, parse_body, part_taken, parse_body_to_eof, chunk_taken,
  parse_chunk_body, chunk_begins, with_extensions, sized_chunk, trailer_done, last_begins,
  trailer_found, last_chunk, with_size, with_line, first_look, look_again, parse_chunk_header,
  or_else, eol_of,
}
use beast_asio_standalone.Http.Parser.Put.{
  header_failed, is_need_more, Pass, to_done, breaks, checked, or_break, try_fields, in_fields,
  go_on, try_line, in_start_line, body_init, init, switch, loops, put_loop, put,
}
use beast_asio_standalone.Prelude.{
  ◌<◌, ◌≤◌, ◌*◌, ◌⊎◌, inl, inr, ◌∙◌, ap, sym, length-take, length-drop, ltb→lt, drop_past,
  Bool-cases,
}

-- callbacks that take all they are given
pub record IsGreedy {H : Type 0} (impl : Impl H) : Type 0 where
  pub takes_body : (s : List ℕ) (h : H) → (impl.on_body s h).0 ≡ length s
  pub takes_chunk : (n : ℕ) (s : List ℕ) (h : H) → (impl.on_chunk_body n s h).0 ≡ length s

-- the states behind the header
abbrev pub in_body : State → Bool
in_body nothing_yet = false
in_body start_line = false
in_body fields = false
in_body complete = false
in_body _ = true

-- The work that is left in such a state: a chunk's body may end without a character.
abbrev pub extra : State → ℕ
extra chunk_body = 1
extra _ = 0

abbrev pub work : State → List ℕ → ℕ
work st s = 2 * length s + extra st

-- A pass that the loop does not follow with another one, or only with less work.
abbrev pub LessWork : {H : Type 0} → Pass H → ℕ → Type 0
LessWork (to_done r) n = Unit
LessWork (breaks threw) n = Unit
LessWork (breaks (ran p h [] ec)) n = Unit
LessWork (breaks (ran p h (c ∷ s) ec)) n =
    (is_done p ≡ true) ⊎ ((in_body p.state ≡ true) × (work p.state (c ∷ s) < n))

nothing_left :
    {H : Type 0} (p : BasicParser) (h : H) (s : List ℕ) (ec : ErrorCode) (n : ℕ)
    → length s ≡ 0
    → LessWork (breaks (ran p h s ec)) n
nothing_left p h [] ec n e = tt
nothing_left p h (c ∷ s) ec n e = absurd (omega arith)

is_finished :
    {H : Type 0} (p : BasicParser) (h : H) (s : List ℕ) (ec : ErrorCode) (n : ℕ)
    → is_done p ≡ true
    → LessWork (breaks (ran p h s ec)) n
is_finished p h [] ec n e = tt
is_finished p h (c ∷ s) ec n e = inl e

less_left :
    {H : Type 0} (p : BasicParser) (h : H) (s : List ℕ) (ec : ErrorCode) (n : ℕ)
    → in_body p.state ≡ true
    → work p.state s < n
    → LessWork (breaks (ran p h s ec)) n
less_left p h [] ec n b w = tt
less_left p h (c ∷ s) ec n b w = inr (b, w)

-- The lengths of what is taken and of what is left.
taken :
    (limit : ℕ) (s : List ℕ) → length (take (clamp_limit limit (length s)) s) ≡ min limit (length s)
taken limit s =
    length-take (clamp_limit limit (length s)) s ∙ omega (arith, (clamp-eq-min limit (length s)).1)

-- The pieces of the body.
abbrev pub LessRun : {H : Type 0} → Run H → ℕ → Type 0
LessRun r n = LessWork (or_break r) n

module _ {H : Type 0} (impl : Impl H) where
  complete_on-Less :
      (p : BasicParser) (s : List ℕ) (r : H × ErrorCode) (n : ℕ)
      → LessRun (complete_on impl p s r) n
  complete_on-Less p s (h, some e) n = tt
  complete_on-Less p s (h, none) n = is_finished (record p { state = complete }) h s none n refl

  body_taken-Less :
      (p : BasicParser) (s : List ℕ) (r : ℕ × H × ErrorCode) (n : ℕ)
      → r.0 ≡ min p.len (length s)
      → LessRun (body_taken impl p s r) n
  body_taken-Less p s (m, h, some e) n t = tt
  body_taken-Less p s (m, h, none) n t =
      let q : BasicParser = record p { len = less p.len m } in
      if_cases (λ (r : Run H). LessRun r n) (ltb 0 q.len) _ _
        (λ more.
          nothing_left q h (drop m s) none n (omega (arith, length-drop m s, ltb→lt 0 q.len more)))
        (λ _. complete_on-Less q (drop m s) (impl.on_finish h) n)

  pub parse_body-Less :
      (p : BasicParser) (h : H) (s : List ℕ) (n : ℕ)
      → IsGreedy impl
      → LessRun (parse_body impl p h s) n
  unfolding parse_body
  parse_body-Less p h s n g =
      let given : List ℕ = take (clamp_limit p.len (length s)) s in
      body_taken-Less p s (impl.on_body given h) n (g.takes_body given h ∙ taken p.len s)

  part_taken-Less :
      (p : BasicParser) (s : List ℕ) (r : ℕ × H × ErrorCode) (n : ℕ)
      → r.0 ≡ length s
      → LessRun (part_taken impl p s r) n
  part_taken-Less p s (m, h, some e) n t = tt
  part_taken-Less p s (m, h, none) n t =
      nothing_left p h (drop m s) none n (omega (arith, length-drop m s))

  pub parse_body_to_eof-Less :
      (p : BasicParser) (h : H) (s : List ℕ) (n : ℕ)
      → IsGreedy impl
      → LessRun (parse_body_to_eof impl p h s) n
  unfolding parse_body_to_eof
  parse_body_to_eof-Less p h s n g =
      if_cases (λ (r : Run H). LessRun r n) (ltb p.body_limit (length s)) _ _ (λ _. tt)
        (λ _.
          part_taken-Less (record p { body_limit = p.body_limit - length s }) s (impl.on_body s h) n
            (g.takes_body s h))

  chunk_taken-Less :
      (p : BasicParser) (s : List ℕ) (r : ℕ × H × ErrorCode)
      → r.0 ≡ min p.len (length s)
      → LessRun (chunk_taken impl p s r) (work chunk_body s)
  chunk_taken-Less p s (m, h, some e) t = tt
  chunk_taken-Less p s (m, h, none) t =
      let q : BasicParser = record p { len = less p.len m } in
      if_cases (λ p'. LessWork (breaks (ran p' h (drop m s) none)) (work chunk_body s)) (q.len == 0)
        _ _
        (λ _.
          less_left (record q { state = chunk_header }) h (drop m s) none (work chunk_body s) refl
            (omega (arith, length-drop m s)))
        (λ more.
          nothing_left q h (drop m s) none (work chunk_body s)
            (omega (arith, length-drop m s, not_zero q.len more)))
    where
      not_zero : (a : ℕ) → (a == 0) ≡ false → 0 < a
      not_zero a e = ground arith

  pub parse_chunk_body-Less :
      (p : BasicParser) (h : H) (s : List ℕ)
      → IsGreedy impl
      → LessRun (parse_chunk_body impl p h s) (work chunk_body s)
  unfolding parse_chunk_body
  parse_chunk_body-Less p h s g =
      let given : List ℕ = take (clamp_limit p.len (length s)) s in
      chunk_taken-Less p s (impl.on_chunk_body p.len given h)
        (g.takes_chunk p.len given h ∙ taken p.len s)

  -- The header of a chunk.
  chunk_begins-Less :
      (p : BasicParser) (s0 eol : List ℕ) (size : ℕ) (r : H × ErrorCode)
      → length eol < length s0
      → LessRun (chunk_begins impl p s0 eol size r) (work chunk_header s0)
  chunk_begins-Less p s0 eol size (h, some e) l = tt
  chunk_begins-Less p s0 eol size (h, none) l =
      let q : BasicParser = record p {
        len = size;
        skip = 2;
        state = chunk_body;
        f = record p.f { expect_crlf = true };
      } in
      less_left q h eol none (work chunk_header s0) refl (omega arith)

  with_extensions-Less :
      (p : BasicParser) (h : H) (s0 s eol : List ℕ) (r : Parsed (List ℕ)) (next : List ℕ → Run H)
      (n : ℕ)
      → ((ext : List ℕ) → LessRun (next ext) n)
      → LessRun (with_extensions impl p h s0 s eol r next) n
  with_extensions-Less p h s0 s eol (failed e) next n l = tt
  with_extensions-Less p h s0 s eol (parsed t rest) next n l =
      if_cases (λ (r : Run H). LessRun r n) (length rest != length eol + 2) _ _ (λ _. tt)
        (λ _. l (take (length s - length rest) s))

  trailer_done-Less : (s0 eom : List ℕ) (r : Run H) (n : ℕ) → LessRun (trailer_done impl s0 eom r) n
  trailer_done-Less s0 eom (ran p h rest (some e)) n = tt
  trailer_done-Less s0 eom (ran p h rest none) n = complete_on-Less p eom (impl.on_finish h) n
  trailer_done-Less s0 eom threw n = tt

  last_begins-Less :
      (p : BasicParser) (s0 eol eom : List ℕ) (r : H × ErrorCode) (n : ℕ)
      → LessRun (last_begins impl p s0 eol eom r) n
  last_begins-Less p s0 eol eom (h, some e) n = tt
  last_begins-Less p s0 eol eom (h, none) n =
      trailer_done-Less s0 eom (parse_fields impl p h (take (length eol - length eom) eol) eom) n

  trailer_found-Less :
      (p : BasicParser) (h : H) (s0 s eol : List ℕ) (r : Option (List ℕ)) (n : ℕ)
      → LessRun (trailer_found impl p h s0 s eol r) n
  trailer_found-Less p h s0 s eol none n = tt
  trailer_found-Less p h s0 s eol (some eom) n =
      with_extensions-Less p h s0 s eol (parse_chunk_extensions s) _ n
        (λ ext. last_begins-Less p s0 eol eom (impl.on_chunk_header 0 ext h) n)

  with_size-Less :
      (p : BasicParser) (h : H) (s0 eol : List ℕ) (r : Option (ℕ × List ℕ))
      → length eol < length s0
      → LessRun (with_size impl p h s0 eol r) (work chunk_header s0)
  with_size-Less p h s0 eol none l = tt
  with_size-Less p h s0 eol (some (size, s)) l =
      let q : BasicParser = record p { f = record p.f { final_chunk = true } } in
      let r : BasicParser = record p { body_limit = p.body_limit - size } in
      let n : ℕ = work chunk_header s0 in
      if_cases (λ (t : Run H). LessRun t n) (size != 0) _ _
        (λ _.
          if_cases (λ (t : Run H). LessRun t n) (ltb p.body_limit size) _ _ (λ _. tt)
            (λ _.
              with_extensions-Less r h s0 s eol (parse_chunk_extensions s) _ n
                (λ ext. chunk_begins-Less r s0 eol size (impl.on_chunk_header size ext h) l)))
        (λ _. trailer_found-Less q h s0 s eol (find_eom (drop q.skip s0)) n)

  with_line-Less :
      (p : BasicParser) (h : H) (s0 s : List ℕ) (r : Line)
      → ShortLine r (length s0)
      → LessRun (with_line impl p h s0 s r) (work chunk_header s0)
  with_line-Less p h s0 s missing l = tt
  with_line-Less p h s0 s (wrong e) l = tt
  with_line-Less p h s0 s (found eol) l =
      with_size-Less (record p { skip = length s0 - length eol - 2 }) h s0 eol (parse_hex s) l

  first_look-Less :
      (p : BasicParser) (h : H) (s0 : List ℕ) (r : Option (List ℕ))
      → LessRun (first_look impl p h s0 r) (work chunk_header s0)
  first_look-Less p h s0 none = tt
  first_look-Less p h s0 (some s) = with_line-Less p h s0 s (find_eol (drop p.skip s0)) (
      longer (find_eol (drop p.skip s0)) (length (drop p.skip s0)) (length s0)
        (omega (arith, length-drop p.skip s0)) (find_eol-Short (drop p.skip s0)))

  pub parse_chunk_header-Less :
      (p : BasicParser) (h : H) (s0 : List ℕ)
      → LessRun (parse_chunk_header impl p h s0) (work chunk_header s0)
  unfolding parse_chunk_header
  parse_chunk_header-Less p h s0 =
      let n : ℕ = work chunk_header s0 in
      if_cases (λ (r : Run H). LessRun r n) (not p.f.final_chunk) _ _
        (λ _.
          if_cases (λ (r : Run H). LessRun r n) (ltb (length s0) (p.skip + 2)) _ _ (λ _. tt)
            (λ _. first_look-Less p h s0 (if p.f.expect_crlf then parse_crlf s0 else some s0)))
        (λ _.
          let s1 : List ℕ = if p.f.expect_crlf then or_else impl (parse_crlf s0) s0 else s0 in
          let s : List ℕ = (or_else impl (parse_hex s1) (0, s1)).1 in
          trailer_found-Less p h s0 s (eol_of impl (find_eol s)) (find_eom (drop p.skip s0)) n)

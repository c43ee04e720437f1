-- ===== src/Http/Parser/Chunk.antt =====
-- A chunk's header as a peer writes it.
use beast_asio_standalone.Prelude.{
  ℕ, suc, ◌+◌, ◌-◌, ◌^◌, ◌≤◌, ◌<◌, ◌≡◌, ◌∙◌, refl, ap, Bool, true, false, not, none, some, List, [],
  ◌∷◌, ◌++◌, ◌!=◌, ltb, if◌then◌else◌, length, take, drop, length-append, ge→ltb_false, if_true,
  if_false, arith,
}
use beast_asio_standalone.Http.Error.{parsed}
use beast_asio_standalone.Http.Chars.{unhex}
use beast_asio_standalone.Http.Lines.{found, find_eol}
use beast_asio_standalone.Http.Lines.Eol.{find_eol-text}
use beast_asio_standalone.Http.Numbers.{parse_crlf, to_hex}
use beast_asio_standalone.Http.Numbers.Hex.{parse_hex-to_hex, to_hex-NoCr}
use beast_asio_standalone.Http.Extensions.{parse_chunk_extensions, extensions_loop}
use beast_asio_standalone.Http.Parser.{BasicParser, chunk_body, Impl, ran}
use beast_asio_standalone.Http.Parser.Body.{
  chunk_begins, with_extensions, sized_chunk, with_size, with_line, first_look, parse_chunk_header,
}

abbrev pub line_end : List ℕ → List ℕ
line_end rest = b'\r' ∷ b'\n' ∷ rest

-- the end of the chunk before, which is read with the header of the next
abbrev pub lead : Bool → List ℕ → List ℕ
lead false s = s
lead true s = line_end s

abbrev pub lead_size : Bool → ℕ
lead_size false = 0
lead_size true = 2

no_extensions : (rest : List ℕ) → parse_chunk_extensions (line_end rest) ≡ parsed [] (line_end rest)
unfolding parse_chunk_extensions extensions_loop
no_extensions rest = refl

-- the members behind the header
abbrev pub in_chunk : BasicParser → ℕ → BasicParser
in_chunk p size = record p {
  body_limit = p.body_limit - size;
  len = size;
  skip = 2;
  state = chunk_body;
  f = record p.f { expect_crlf = true };
}

cr_is_no_digit : (unhex b'\r').1 ≡ false
unfolding unhex
cr_is_no_digit = refl

same_length : (n : ℕ) → (suc (suc n) != n + 2) ≡ false
same_length n = ground arith

take_none : (n : ℕ) (s : List ℕ) → take (n - n) s ≡ []
take_none n s = ap (λ k. take k s) (nothing n)
  where
    nothing : (a : ℕ) → a - a ≡ 0
    nothing a = omega arith

not_zero : (n : ℕ) → 0 < n → (n != 0) ≡ true
not_zero n h = ground arith

module _ {H : Type 0} (impl : Impl H) where
  begins :
      (q : BasicParser) (h g : H) (s0 rest : List ℕ) (size : ℕ)
      → impl.on_chunk_header size [] h ≡ (g, none)
      → with_extensions impl q h s0
          (line_end rest)
          rest
          (parsed [] (line_end rest))
          (λ ext. chunk_begins impl q s0 rest size (impl.on_chunk_header size ext h))
        ≡ chunk_begins impl q s0 rest size (g, none)
  begins q h g s0 rest size e =
      rw (same_length (length rest), take_none (suc (suc (length rest))) (line_end rest), e) refl

  sized :
      (p : BasicParser) (h g : H) (s0 rest : List ℕ) (size : ℕ)
      → size ≤ p.body_limit
      → impl.on_chunk_header size [] h ≡ (g, none)
      → sized_chunk impl p h s0 (line_end rest) rest size ≡ ran (in_chunk p size) g rest none
  sized p h g s0 rest size fits e =
      rw (ge→ltb_false p.body_limit size fits, no_extensions rest)
        (begins (record p { body_limit = p.body_limit - size }) h g s0 rest size e)

  with_size-sized :
      (q : BasicParser) (h g : H) (s0 rest : List ℕ) (size : ℕ)
      → 0 < size
      → size ≤ q.body_limit
      → impl.on_chunk_header size [] h ≡ (g, none)
      → with_size impl q h s0 rest (some (size, line_end rest)) ≡ ran (in_chunk q size) g rest none
  with_size-sized q h g s0 rest size positive fits e =
      rw (not_zero size positive) (sized q h g s0 rest size fits e)

  with_line-found :
      (p : BasicParser) (h g : H) (s0 rest : List ℕ) (size : ℕ)
      → 0 < size
      → size < 2 ^ 64
      → size ≤ p.body_limit
      → impl.on_chunk_header size [] h ≡ (g, none)
      → with_line impl p h s0 (to_hex size ++ line_end rest) (found rest)
        ≡ ran (in_chunk p size) g rest none
  with_line-found p h g s0 rest size positive wide fits e =
      let q : BasicParser = record p { skip = length s0 - length rest - 2 } in
      ap (with_size impl q h s0 rest)
        (parse_hex-to_hex size b'\r' (b'\n' ∷ rest) wide cr_is_no_digit)
      ∙ with_size-sized q h g s0 rest size positive fits e

  first_look-lead :
      (expect : Bool) (p : BasicParser) (h g : H) (rest : List ℕ) (size : ℕ)
      → p.skip ≡ lead_size expect
      → 0 < size
      → size < 2 ^ 64
      → size ≤ p.body_limit
      → impl.on_chunk_header size [] h ≡ (g, none)
      → first_look impl p h (lead expect (to_hex size ++ line_end rest)) (
          if expect
          then parse_crlf (lead expect (to_hex size ++ line_end rest))
          else some (lead expect (to_hex size ++ line_end rest)))
        ≡ ran (in_chunk p size) g rest none
  unfolding parse_crlf
  first_look-lead true p h g rest size k positive wide fits e =
      let s : List ℕ = to_hex size ++ line_end rest in
      ap (with_line impl p h (line_end s) s) (
        ap (λ n. find_eol (drop n (line_end s))) k
        ∙ find_eol-text (to_hex size) rest (to_hex-NoCr size))
      ∙ with_line-found p h g (line_end s) rest size positive wide fits e
  first_look-lead false p h g rest size k positive wide fits e =
      let s : List ℕ = to_hex size ++ line_end rest in
      ap (with_line impl p h s s)
        (ap (λ n. find_eol (drop n s)) k ∙ find_eol-text (to_hex size) rest (to_hex-NoCr size))
      ∙ with_line-found p h g s rest size positive wide fits e

  long_enough :
      (expect : Bool) (digits rest : List ℕ)
      → lead_size expect + 2 ≤ length (lead expect (digits ++ line_end rest))
  long_enough true digits rest = omega (arith, length-append digits (line_end rest))
  long_enough false digits rest = omega (arith, length-append digits (line_end rest))

  -- Before the last chunk has been seen, with the place of the search at the start of the chunk: the
  -- size of a chunk of the body, written in hexadecimal behind the end of the chunk before if there
  -- is one, is read as it is written, where it is below 2 to the power 64 and within the limit for
  -- the body and the callback gives no error. The parser is then in the body of the chunk, with its
  -- size taken off the limit, and what is left is what follows the line.
  pub parse_chunk_header-to_hex :
      (p : BasicParser) (h g : H) (rest : List ℕ) (size : ℕ)
      → p.f.final_chunk ≡ false
      → p.skip ≡ lead_size p.f.expect_crlf
      → 0 < size
      → size < 2 ^ 64
      → size ≤ p.body_limit
      → impl.on_chunk_header size [] h ≡ (g, none)
      → parse_chunk_header impl p h (lead p.f.expect_crlf (to_hex size ++ line_end rest))
        ≡ ran (in_chunk p size) g rest none
  unfolding parse_chunk_header
  parse_chunk_header-to_hex p h g rest size not_last k positive wide fits e =
      let s0 : List ℕ = lead p.f.expect_crlf (to_hex size ++ line_end rest) in
      let room : p.skip + 2 ≤ length s0 =
        omega (arith, k, long_enough p.f.expect_crlf (to_hex size) rest) in
      if_true (not p.f.final_chunk) _ _ (ap not not_last)
      ∙ if_false (ltb (length s0) (p.skip + 2)) _ _ (ge→ltb_false (length s0) (p.skip + 2) room)
      ∙ first_look-lead p.f.expect_crlf p h g rest size k positive wide fits e

-- ===== src/Http/Samples/Pieces.antt =====
-- Pieces of messages.
use beast_asio_standalone.Prelude.{
  ℕ, zero, suc, ◌≡◌, ◌≢◌, ◌↔◌, refl, ap, ◌∙◌, true, false, some, List, [], ◌∷◌, ◌++◌, ◌!=◌, length,
  All, arith,
}
use beast_asio_standalone.Http.Error.{parsed}
use beast_asio_standalone.Http.Text.{codes}
use beast_asio_standalone.Http.Chars.{unhex, is_digit, is_token_char, is_pathchar, is_print}
use beast_asio_standalone.Http.Chars.Classes.{unhex_value, unhex-value}
use beast_asio_standalone.Http.Lines.{find_eom}
use beast_asio_standalone.Http.Lines.Eom.{first_eom, find_eom-first_eom}
use beast_asio_standalone.Http.Numbers.{parse_hex, to_hex, parse_dec}
use beast_asio_standalone.Http.Numbers.Hex.{parse_hex-to_hex, parse_hex-ones, ones}
use beast_asio_standalone.Http.Numbers.Dec.{parse_dec-bounded, content_length_of}
use beast_asio_standalone.Http.StartLine.Prefix.{Settles}
use beast_asio_standalone.Http.Field.{parse_field, field, length_error, trim_back, keep}
use beast_asio_standalone.Http.Field.Folding.{
  IsPlain, IsTokenChar, header, padded, parse_field-folded, parse_field-long,
}
use beast_asio_standalone.Http.Parser.Header.StartLine.{request_line}
use beast_asio_standalone.Http.Parser.Header.Split.{
  said, request_line-Settles, request_line-print, print_request_line, version_line,
}
use beast_asio_standalone.Http.Status.{not_found, value, int_to_status}
use beast_asio_standalone.Http.Status.Reasons.{obsolete_reason}
use beast_asio_standalone.Http.Status.Labels.{int_to_status_lem}
use beast_asio_standalone.Http.Status
use beast_asio_standalone.Http.Verb.{unknown, mkcol, string_to_verb, verb_to_string}
use beast_asio_standalone.Http.Verb.Laws.{string_to_verb-name}

unhex-value_example : unhex 0xf8 ≡ (unhex_value 0xf8, unhex_value 0xf8 != 255)
unhex-value_example = unhex-value 0xf8 (omega arith)

find_eom-first_eom_example :
    find_eom (codes "GET / HTTP/1.1\r\nA: b\r\n\r\nrest")
    ≡ first_eom (codes "GET / HTTP/1.1\r\nA: b\r\n\r\nrest")
find_eom-first_eom_example = find_eom-first_eom (codes "GET / HTTP/1.1\r\nA: b\r\n\r\nrest")

other_cr : (unhex b'\r').1 ≡ false
unfolding unhex
other_cr = refl

parse_hex-to_hex_example : parse_hex (to_hex 2748 ++ codes "\r\n") ≡ some (2748, codes "\r\n")
parse_hex-to_hex_example = parse_hex-to_hex 2748 b'\r' (codes "\n") (omega arith) other_cr

parse_hex-ones_example :
    parse_hex (ones 16 ++ (ones 4 ++ codes "\r\n")) ≡ some (0x1111111111111111, codes "\r\n")
parse_hex-ones_example = parse_hex-ones 4 b'\r' (codes "\n") other_cr

cr_no_digit : is_digit b'\r' ≡ false
unfolding is_digit
cr_no_digit = refl

parse_dec-bounded_example :
    parse_dec (codes "4711") (codes "\r\n") ≡ content_length_of (codes "4711")
parse_dec-bounded_example =
    parse_dec-bounded (codes "4711") b'\r' (codes "\n")
      (omega arith, (omega arith, (omega arith, (omega arith, tt)))) cr_no_digit

mkcol_known : mkcol ≢ unknown
mkcol_known e = ground (arith, e)

string_to_verb-name_example :
    (string_to_verb (codes "MKCOL") (codes " /") ≡ mkcol) ↔ (codes "MKCOL" ≡ verb_to_string mkcol)
string_to_verb-name_example = string_to_verb-name mkcol (codes "MKCOL") (codes " /") mkcol_known

request_line-Settles_example :
    Settles
      (said (request_line (codes "GET /a HTTP/1.1\r\n")))
      (codes "Host: b\r\n")
      (said (request_line (codes "GET /a HTTP/1.1\r\n" ++ codes "Host: b\r\n")))
request_line-Settles_example =
    request_line-Settles (codes "GET /a HTTP/1.1\r\n") (codes "Host: b\r\n")

get_tokens : All (λ c. is_token_char c ≡ true) (codes "GET")
unfolding is_token_char
get_tokens = (refl, (refl, (refl, tt)))

target_chars : All (λ c. is_pathchar c ≡ true) (codes "/a")
unfolding is_pathchar
target_chars = (refl, (refl, tt))

request_line-print_example :
    request_line (print_request_line (codes "GET") (codes "/a") true (codes "Host"))
    ≡ parsed
        (record {
          method = codes "GET";
          behind = codes " /a " ++ version_line true (codes "Host");
          target = codes "/a";
          version = 11;
        })
        (codes "Host")
request_line-print_example =
    request_line-print b'G' (codes "ET") b'/' (codes "a") true (codes "Host") get_tokens
      target_chars

one_token : All IsTokenChar (codes "A")
unfolding is_token_char
one_token = (refl, tt)

xy-IsPlain : All IsPlain (codes "xy ")
unfolding is_print
xy-IsPlain = (refl, (refl, (refl, tt)))

trimmed_xy : trim_back (codes "xy") ≡ codes "xy"
unfolding trim_back
trimmed_xy = refl

parse_field-folded_example :
    parse_field (
      header (codes "A") (
        padded
          (codes " ")
          (codes "xy")
          (codes " ")
          (b'\t' ∷ padded (codes "  ") (codes "xy") (codes " ") (codes "\r\n"))))
    ≡ field (codes "A") (codes "xy xy") (0 ∷ []) (codes "\r\n")
parse_field-folded_example =
    parse_field-folded b'A' [] (codes " ") b'x' (codes "y") (codes " ") b'\t' (codes "  ") b'x'
      (codes "y") (codes " ") b'\r' (codes "\n") one_token (refl, tt) refl trimmed_xy (refl, tt)
      xy-IsPlain refl (refl, (refl, tt)) refl trimmed_xy (refl, tt) xy-IsPlain refl (omega arith)

-- a value of many letters
letters : ℕ → List ℕ
letters zero = []
letters (suc n) = b'x' ∷ letters n

length-letters : (n : ℕ) → length (letters n) ≡ n
unfolding letters
length-letters zero = refl
length-letters (suc n) = ap (λ (k : ℕ). suc k) (length-letters n)

trim_back-letters : (n : ℕ) → trim_back (letters n) ≡ letters n
unfolding letters trim_back
trim_back-letters zero = refl
trim_back-letters (suc n) = ap (keep b'x') (trim_back-letters n) ∙ kept n
  where
    kept : (k : ℕ) → keep b'x' (letters k) ≡ b'x' ∷ letters k
    kept zero = refl
    kept (suc k) = refl

letters-IsPlain : (n : ℕ) → All IsPlain (letters n ++ [])
unfolding letters is_print
letters-IsPlain zero = tt
letters-IsPlain (suc n) = (refl, letters-IsPlain n)

parse_field-long_example :
    parse_field (header (codes "A") (padded (codes " ") (letters 4097) [] (codes " b\r\n")))
    ≡ length_error
unfolding letters
parse_field-long_example =
    parse_field-long b'A' [] (codes " ") b'x' (letters 4096) [] b' ' (codes "b\r\n") one_token
      (refl, tt) refl (trim_back-letters 4097) tt (letters-IsPlain 4097) refl
      (omega (arith, length-letters 4096))

not_found_known : not_found ≢ Status.unknown
unfolding value
not_found_known e = ground (arith, ap value e)

int_to_status_lem_example :
    ((int_to_status 404 ≡ not_found) ↔ (404 ≡ value not_found))
    × ((int_to_status 404 ≡ Status.unknown) ↔ (obsolete_reason 404 ≡ codes "<unknown-status>"))
int_to_status_lem_example = int_to_status_lem 404 not_found not_found_known

-- ===== src/Http/Parser/Header/Split.antt =====
-- A start line that arrives in parts, and a request line as it is written.
use beast_asio_standalone.Prelude.{
  ℕ, ◌≡◌, refl, ap, sym, inl, inr, Bool, true, false, ◌||◌, List, [], ◌∷◌, ◌++◌, ◌!=◌, ltb,
  if◌then◌else◌, arith, All,
}
use mathlib.Core.Path.{subst}
use beast_asio_standalone.Http.Error.{Parsed, parsed, failed, bad_version}
use beast_asio_standalone.Http.Text.{codes}
use beast_asio_standalone.Http.Chars.{is_token_char, is_pathchar, is_digit}
use beast_asio_standalone.Http.StartLine.{
  parse_method, parse_target, parse_version, parse_status, parse_reason,
}
use beast_asio_standalone.Http.StartLine.Print.{parse_method-Word, parse_target-Word, InClass}
use beast_asio_standalone.Http.StartLine.Prefix.{
  Settles, parse_method-Settles, parse_target-Settles, parse_version-Settles, parse_status-Settles,
  parse_reason-Settles,
}
use beast_asio_standalone.Http.Parser.Header.StartLine.{
  RequestLine, then_parsed, crlf_of, version_of, request_line, reason_of, space_of,
  status_version_of, status_line,
}

then_parsed-Settles {ℓ κ} :
    {A : Type ℓ} {B : Type κ} (r q : Parsed A) (next : A → List ℕ → Parsed B) (more : List ℕ)
    → Settles r more q
    → ((a : A) (rest : List ℕ) → Settles (next a rest) more (next a (rest ++ more)))
    → Settles (then_parsed r next) more (then_parsed q next)
unfolding Settles
then_parsed-Settles (parsed a rest) q next more h k = rw h (k a rest)
then_parsed-Settles (failed e) q next more (inl waits) k = inl waits
then_parsed-Settles (failed e) q next more (inr same) k = inr (ap (λ t. then_parsed t next) same)

crlf_of-Settles :
    (r : RequestLine) (s more : List ℕ) → Settles (crlf_of r s) more (crlf_of r (s ++ more))
unfolding Settles
crlf_of-Settles r [] more = inl refl
crlf_of-Settles r (c ∷ []) more = inl refl
crlf_of-Settles r (c ∷ d ∷ s) more = ground arith

version_of-Settles :
    (method behind target : List ℕ) (version : ℕ) (s more : List ℕ)
    → Settles
        (version_of method behind target version s)
        more
        (version_of method behind target version (s ++ more))
unfolding Settles
version_of-Settles method behind target version s more = go (ltb version 10 || ltb 11 version)
  where
    r : RequestLine
    r = record { method = method; behind = behind; target = target; version = version }

    go :
        (b : Bool)
        → Settles
            (if b then failed bad_version else crlf_of r s)
            more
            (if b then failed bad_version else crlf_of r (s ++ more))
    go true = inr refl
    go false = crlf_of-Settles r s more

-- What is said apart from the characters behind the method in memory.
abbrev triple : RequestLine → List ℕ × List ℕ × ℕ
triple r = (r.method, r.target, r.version)

unfoldable pub said : Parsed RequestLine → Parsed (List ℕ × List ℕ × ℕ)
said (failed e) = failed e
said (parsed r rest) = parsed (triple r) rest

target_line : List ℕ → List ℕ → List ℕ → Parsed RequestLine
target_line method behind t =
    then_parsed (parse_target t)
      (λ target u. then_parsed (parse_version u) (version_of method behind target))

target_line-Settles :
    (method behind t more : List ℕ)
    → Settles (target_line method behind t) more (target_line method behind (t ++ more))
unfolding target_line
target_line-Settles method behind t more =
    then_parsed-Settles (parse_target t) (parse_target (t ++ more)) _ more
      (parse_target-Settles t more)
      (λ target u.
        then_parsed-Settles (parse_version u) (parse_version (u ++ more)) _ more
          (parse_version-Settles u more)
          (λ version v. version_of-Settles method behind target version v more))

said-Settles :
    (r q : Parsed RequestLine) (more : List ℕ) → Settles r more q → Settles (said r) more (said q)
unfolding Settles said
said-Settles (parsed r rest) q more h = rw h refl
said-Settles (failed e) q more (inl waits) = inl waits
said-Settles (failed e) q more (inr same) = inr (ap said same)

-- What is said does not depend on the characters behind the method.
crlf_of-said :
    (r q : RequestLine) (s : List ℕ) → triple r ≡ triple q → said (crlf_of r s) ≡ said (crlf_of q s)
unfolding said
crlf_of-said r q [] e = refl
crlf_of-said r q (c ∷ []) e = refl
crlf_of-said r q (c ∷ d ∷ s) e = go (c != b'\r' || d != b'\n')
  where
    go :
        (b : Bool)
        → said (if b then failed bad_version else parsed r s)
          ≡ said (if b then failed bad_version else parsed q s)
    go true = refl
    go false = ap (λ t. parsed t s) e

target_line-said :
    (method b1 b2 t : List ℕ) → said (target_line method b1 t) ≡ said (target_line method b2 t)
unfolding target_line said
target_line-said method b1 b2 t = at_target (parse_target t)
  where
    at_version :
        (target : List ℕ) (r : Parsed ℕ)
        → said (then_parsed r (version_of method b1 target))
          ≡ said (then_parsed r (version_of method b2 target))
    at_version target (failed e) = refl
    at_version target (parsed version s) = go (ltb version 10 || ltb 11 version)
      where
        go :
            (b : Bool)
            → said (
                if b
                then failed bad_version
                else crlf_of
                    (record { method = method; behind = b1; target = target; version = version })
                    s)
              ≡ said (
                  if b
                  then failed bad_version
                  else crlf_of
                      (record { method = method; behind = b2; target = target; version = version })
                      s)
        go true = refl
        go false = crlf_of-said _ _ s refl

    at_target :
        (r : Parsed (List ℕ))
        → said (
            then_parsed r (λ target u. then_parsed (parse_version u) (version_of method b1 target)))
          ≡ said (
              then_parsed r
                (λ target u. then_parsed (parse_version u) (version_of method b2 target)))
    at_target (failed e) = refl
    at_target (parsed target u) = at_version target (parse_version u)

said_line : Parsed (List ℕ) → Parsed (List ℕ × List ℕ × ℕ)
said_line r = then_parsed r (λ method t. said (target_line method [] t))

request_line-said : (s : List ℕ) → said (request_line s) ≡ said_line (parse_method s)
unfolding request_line said_line said target_line
request_line-said s = go (parse_method s)
  where
    go :
        (r : Parsed (List ℕ))
        → said (then_parsed r (λ method t. target_line method (b' ' ∷ t) t)) ≡ said_line r
    go (failed e) = refl
    go (parsed method t) = target_line-said method (b' ' ∷ t) [] t

-- More characters behind the ones that a request line was read from do not change what was said of
-- it: the method, the target and the version stay, with the new characters behind what was left, and
-- an error other than `need_more` stays that error.
pub request_line-Settles :
    (s more : List ℕ) → Settles (said (request_line s)) more (said (request_line (s ++ more)))
unfolding said_line
request_line-Settles s more =
    subst (λ r. Settles r more (said (request_line (s ++ more)))) (sym (request_line-said s))
      (subst (λ r. Settles (said_line (parse_method s)) more r)
        (sym (request_line-said (s ++ more)))
        (then_parsed-Settles (parse_method s) (parse_method (s ++ more)) _ more
          (parse_method-Settles s more)
          (λ method t.
            said-Settles (target_line method [] t) (target_line method [] (t ++ more)) more
              (target_line-Settles method [] t more))))

-- The same of a status line.
reason_of-Settles :
    (version : ℕ) (s more : List ℕ)
    → Settles (reason_of version s) more (reason_of version (s ++ more))
unfolding Settles
reason_of-Settles version s more =
    then_parsed-Settles (parse_status s) (parse_status (s ++ more)) _ more
      (parse_status-Settles s more)
      (λ status t.
        then_parsed-Settles (parse_reason t) (parse_reason (t ++ more)) _ more
          (parse_reason-Settles t more) (λ reason u. refl))

space_of-Settles :
    (version : ℕ) (s more : List ℕ)
    → Settles (space_of version s) more (space_of version (s ++ more))
unfolding Settles
space_of-Settles version [] more = inl refl
space_of-Settles version (c ∷ s) more = go (c != b' ')
  where
    go :
        (b : Bool)
        → Settles
            (if b then failed bad_version else reason_of version s)
            more
            (if b then failed bad_version else reason_of version (s ++ more))
    go true = inr refl
    go false = reason_of-Settles version s more

-- More characters behind the ones that a status line was read from do not change what was said of it:
-- the version, the status and the reason stay, with the new characters behind what was left, and an
-- error other than `need_more` stays that error.
pub status_line-Settles : (s more : List ℕ) → Settles (status_line s) more (status_line (s ++ more))
unfolding status_line Settles
status_line-Settles s more =
    then_parsed-Settles (parse_version s) (parse_version (s ++ more)) status_version_of more
      (parse_version-Settles s more) (λ version t. go version t (ltb version 10 || ltb 11 version))
  where
    go :
        (version : ℕ) (t : List ℕ) (b : Bool)
        → Settles
            (if b then failed bad_version else space_of version t)
            more
            (if b then failed bad_version else space_of version (t ++ more))
    go version t true = inr refl
    go version t false = space_of-Settles version t more

-- "HTTP/1.1" or "HTTP/1.0", with the line's end
abbrev pub version_line : Bool → List ℕ → List ℕ
version_line true rest = codes "HTTP/1.1\r\n" ++ rest
version_line false rest = codes "HTTP/1.0\r\n" ++ rest

abbrev pub version_number : Bool → ℕ
version_number true = 11
version_number false = 10

abbrev pub print_request_line : List ℕ → List ℕ → Bool → List ℕ → List ℕ
print_request_line method target v11 rest =
    method ++ b' ' ∷ (target ++ b' ' ∷ version_line v11 rest)

version_read :
    (method behind target : List ℕ) (v11 : Bool) (rest : List ℕ)
    → then_parsed (parse_version (version_line v11 rest)) (version_of method behind target)
      ≡ parsed
          (record {
            method = method;
            behind = behind;
            target = target;
            version = version_number v11;
          })
          rest
unfolding parse_version is_digit
version_read method behind target true rest = refl
version_read method behind target false rest = refl

-- A request line is read as it is written: a method of token characters, a target of path characters,
-- neither of them empty, and a version.
pub request_line-print :
    (m : ℕ) (method : List ℕ) (t : ℕ) (target : List ℕ) (v11 : Bool) (rest : List ℕ)
    → All (InClass is_token_char) (m ∷ method)
    → All (InClass is_pathchar) (t ∷ target)
    → request_line (print_request_line (m ∷ method) (t ∷ target) v11 rest)
      ≡ parsed
          (record {
            method = m ∷ method;
            behind = b' ' ∷ ((t ∷ target) ++ b' ' ∷ version_line v11 rest);
            target = t ∷ target;
            version = version_number v11;
          })
          rest
unfolding request_line
request_line-print m method t target v11 rest hm ht =
    let after : List ℕ = (t ∷ target) ++ b' ' ∷ version_line v11 rest in
    rw
      ((parse_method-Word ((m ∷ method) ++ b' ' ∷ after) (m ∷ method) after).1
        (record { first = m; others = method; is_word = refl; within = hm; split = refl }))
      (rw
        ((parse_target-Word after (t ∷ target) (version_line v11 rest)).1
          (record { first = t; others = target; is_word = refl; within = ht; split = refl }))
        (version_read (m ∷ method) (b' ' ∷ after) (t ∷ target) v11 rest))

-- ===== src/Http/StartLine/Prefix.antt =====
-- Input that arrives in parts: what a piece of the parser says of the characters so far stays true
-- when more of them come, unless it asks for more.
use beast_asio_standalone.Prelude.{
  ℕ, ◌≡◌, refl, ap, ◌∙◌, Bool, Option, none, some, List, [], ◌∷◌, ◌++◌, ◌==◌, ◌!=◌, arith,
  Bool-cases, inl, inr, ◌⊎◌,
}
use beast_asio_standalone.Http.Error.{
  Error, Parsed, parsed, failed, need_more, bad_method, bad_target,
}
use beast_asio_standalone.Http.Chars.{is_token_char, is_pathchar}
use beast_asio_standalone.Http.StartLine.{
  TokenLine, line, error, invalid, is_control, push_front, behind_cr, parse_token_to_eol, push_some,
  scan, before_space, parse_method, parse_target, parse_version, parse_status, parse_reason,
  reason_of,
}

-- what an outcome says of the outcome on more characters
unfoldable pub Settles {ℓ} : {A : Type ℓ} → Parsed A → List ℕ → Parsed A → Type ℓ
Settles (parsed a rest) more q = q ≡ parsed a (rest ++ more)
Settles (failed e) more q = (e ≡ need_more) ⊎ (q ≡ failed e)

abbrev Scans : Option (List ℕ × List ℕ) → List ℕ → Option (List ℕ × List ℕ) → Type 0
Scans none more q = Unit
Scans (some (front, rest)) more q = q ≡ some (front, rest ++ more)

push_some-Scans :
    (c : ℕ) (p : Option (List ℕ × List ℕ)) (more : List ℕ) (q : Option (List ℕ × List ℕ))
    → Scans p more q
    → Scans (push_some c p) more (push_some c q)
push_some-Scans c none more q h = tt
push_some-Scans c (some (front, rest)) more q h = ap (push_some c) h

scan-Scans : (test : ℕ → Bool) (s more : List ℕ) → Scans (scan test s) more (scan test (s ++ more))
unfolding scan
scan-Scans test [] more = tt
scan-Scans test (c ∷ s) more = elim (Bool-cases (test c)) [
  | inl within ↦
      rw within
        (push_some-Scans c (scan test s) more (scan test (s ++ more)) (scan-Scans test s more))
  | inr outside ↦ rw outside refl
]

before_space-Settles :
    (bad : Error) (p : Option (List ℕ × List ℕ)) (more : List ℕ) (q : Option (List ℕ × List ℕ))
    → Scans p more q
    → Settles (before_space bad p) more (before_space bad q)
unfolding Settles
before_space-Settles bad none more q h = inl refl
before_space-Settles bad (some (front, [])) more q h = inl refl
before_space-Settles bad (some ([], c ∷ it)) more q h = inr (ap (before_space bad) h)
before_space-Settles bad (some (a ∷ front, c ∷ it)) more q h = elim (Bool-cases (c != b' ')) [
  | inl other ↦ rw other (inr (ap (before_space bad) h ∙ rw other refl))
  | inr space ↦ rw space (ap (before_space bad) h ∙ rw space refl)
]

pub parse_method-Settles :
    (s more : List ℕ) → Settles (parse_method s) more (parse_method (s ++ more))
unfolding parse_method
parse_method-Settles s more =
    before_space-Settles bad_method (scan is_token_char s) more (scan is_token_char (s ++ more))
      (scan-Scans is_token_char s more)

pub parse_target-Settles :
    (s more : List ℕ) → Settles (parse_target s) more (parse_target (s ++ more))
unfolding parse_target
parse_target-Settles s more =
    before_space-Settles bad_target (scan is_pathchar s) more (scan is_pathchar (s ++ more))
      (scan-Scans is_pathchar s more)

pub parse_version-Settles :
    (s more : List ℕ) → Settles (parse_version s) more (parse_version (s ++ more))
unfolding parse_version Settles
parse_version-Settles (a ∷ b ∷ c ∷ d ∷ slash ∷ major ∷ dot ∷ minor ∷ it) more = ground arith
parse_version-Settles (a ∷ b ∷ c ∷ d ∷ slash ∷ major ∷ dot ∷ []) more = inl refl
parse_version-Settles (a ∷ b ∷ c ∷ d ∷ slash ∷ major ∷ []) more = inl refl
parse_version-Settles (a ∷ b ∷ c ∷ d ∷ slash ∷ []) more = inl refl
parse_version-Settles (a ∷ b ∷ c ∷ d ∷ []) more = inl refl
parse_version-Settles (a ∷ b ∷ c ∷ []) more = inl refl
parse_version-Settles (a ∷ b ∷ []) more = inl refl
parse_version-Settles (a ∷ []) more = inl refl
parse_version-Settles [] more = inl refl

pub parse_status-Settles :
    (s more : List ℕ) → Settles (parse_status s) more (parse_status (s ++ more))
unfolding parse_status Settles
parse_status-Settles (a ∷ b ∷ c ∷ space ∷ it) more = ground arith
parse_status-Settles (a ∷ b ∷ c ∷ []) more = inl refl
parse_status-Settles (a ∷ b ∷ []) more = inl refl
parse_status-Settles (a ∷ []) more = inl refl
parse_status-Settles [] more = inl refl

-- The same of the scan for the end of the line.
abbrev pub EndsLine : TokenLine → List ℕ → TokenLine → Type 0
EndsLine (line token rest) more q = q ≡ line token (rest ++ more)
EndsLine (error e) more q = (e ≡ need_more) ⊎ (q ≡ error e)
EndsLine invalid more q = q ≡ invalid

push_front-EndsLine :
    (c : ℕ) (p : TokenLine) (more : List ℕ) (q : TokenLine)
    → EndsLine p more q
    → EndsLine (push_front c p) more (push_front c q)
push_front-EndsLine c (line token rest) more q h = ap (push_front c) h
push_front-EndsLine c (error e) more q (inl waits) = inl waits
push_front-EndsLine c (error e) more q (inr same) = inr (ap (push_front c) same)
push_front-EndsLine c invalid more q h = ap (push_front c) h

behind_cr-EndsLine : (p more : List ℕ) → EndsLine (behind_cr p) more (behind_cr (p ++ more))
behind_cr-EndsLine [] more = inl refl
behind_cr-EndsLine (c ∷ p) more = elim (Bool-cases (c != b'\n')) [
  | inl other ↦ rw other (inr refl)
  | inr nl ↦ rw nl refl
]

pub parse_token_to_eol-EndsLine :
    (p more : List ℕ) → EndsLine (parse_token_to_eol p) more (parse_token_to_eol (p ++ more))
unfolding parse_token_to_eol
parse_token_to_eol-EndsLine [] more = inl refl
parse_token_to_eol-EndsLine (c ∷ p) more = elim (Bool-cases (is_control c)) [
  | inr plain ↦ rw plain (
      push_front-EndsLine c (parse_token_to_eol p) more (parse_token_to_eol (p ++ more))
        (parse_token_to_eol-EndsLine p more))
  | inl control ↦ elim (Bool-cases (c == b'\r')) [
    | inl cr ↦ rw (control, cr) (behind_cr-EndsLine p more)
    | inr other ↦ rw (control, other) refl
  ]
]

reason_of-Settles :
    (p : TokenLine) (more : List ℕ) (q : TokenLine)
    → EndsLine p more q
    → Settles (reason_of p) more (reason_of q)
unfolding Settles
reason_of-Settles (line token rest) more q h = ap reason_of h
reason_of-Settles (error e) more q (inl waits) = inl waits
reason_of-Settles (error e) more q (inr same) = inr (ap reason_of same)
reason_of-Settles invalid more q h = inr (ap reason_of h)

pub parse_reason-Settles :
    (s more : List ℕ) → Settles (parse_reason s) more (parse_reason (s ++ more))
unfolding parse_reason
parse_reason-Settles s more =
    reason_of-Settles (parse_token_to_eol s) more (parse_token_to_eol (s ++ more))
      (parse_token_to_eol-EndsLine s more)

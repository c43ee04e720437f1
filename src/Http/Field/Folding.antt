-- ===== src/Http/Field/Folding.antt =====
-- What a peer writes as one field, in one line or folded.
use beast_asio_standalone.Prelude.{
  ℕ, zero, suc, ◌+◌, ◌-◌, ◌≤◌, ◌<◌, ◌≡◌, refl, ap, sym, ◌∙◌, Bool, true, false, Option, some, List,
  [], ◌∷◌, ◌++◌, ◌==◌, arith, Bool-cases, inl, inr, length, drop, All, append_assoc, lt→ltb, ==→eq,
  ge→ltb_false,
}
use beast_asio_standalone.Http.Error.{parsed}
use beast_asio_standalone.Http.Chars.{is_blank, is_token_char, is_print}
use beast_asio_standalone.Http.StartLine.{line, is_control, push_front, parse_token_to_eol}
use beast_asio_standalone.Http.Field.{
  Piece, piece, look_past, from_blanks, next_piece, skip_blanks, trim_back, keep, grow, fold_loop,
  value_loop, max_obs_fold, FieldResult, field, length_error, fold_round, value_round, name_loop,
  parse_field, push_name, after_name, answer,
}

abbrev pub IsBlank : ℕ → Type 0
IsBlank c = is_blank c ≡ true

abbrev pub IsPlain : ℕ → Type 0
IsPlain c = is_control c ≡ false

abbrev pub IsTokenChar : ℕ → Type 0
IsTokenChar c = is_token_char c ≡ true

abbrev pub crlf : List ℕ → List ℕ
crlf rest = b'\r' ∷ b'\n' ∷ rest

cr_control : is_control b'\r' ≡ true
unfolding is_print
cr_control = refl

pub parse_token_to_eol-crlf :
    (v rest : List ℕ) → All IsPlain v → parse_token_to_eol (v ++ crlf rest) ≡ line v rest
unfolding parse_token_to_eol
parse_token_to_eol-crlf [] rest h = rw cr_control refl
parse_token_to_eol-crlf (c ∷ v) rest (plain, h) =
    rw plain (ap (push_front c) (parse_token_to_eol-crlf v rest h))

trim_blanks : (s : List ℕ) → All IsBlank s → trim_back s ≡ []
unfolding trim_back
trim_blanks [] h = refl
trim_blanks (c ∷ s) (blank, h) = ap (keep c) (trim_blanks s h) ∙ rw blank refl

trim_append : (v s : List ℕ) → All IsBlank s → trim_back (v ++ s) ≡ trim_back v
unfolding trim_back
trim_append [] s h = trim_blanks s h
trim_append (c ∷ v) s h = ap (keep c) (trim_append v s h)

skip_front : (s v : List ℕ) → All IsBlank s → skip_blanks (s ++ v) ≡ skip_blanks v
unfolding skip_blanks
skip_front [] v h = refl
skip_front (c ∷ s) v (blank, h) = rw blank (skip_front s v h)

skip_other : (c : ℕ) (s : List ℕ) → is_blank c ≡ false → skip_blanks (c ∷ s) ≡ c ∷ s
unfolding skip_blanks
skip_other c s other = rw other refl

drop_front : (w back : List ℕ) → drop (length w) (w ++ back) ≡ back
drop_front [] back = refl
drop_front (c ∷ w) back = drop_front w back

-- what one line gives: blanks, a text that begins and ends with no blank, blanks and the line's end
abbrev pub padded : List ℕ → List ℕ → List ℕ → List ℕ → List ℕ
padded front v back rest = front ++ (v ++ (back ++ crlf rest))

module _ (front : List ℕ) (a : ℕ) (v back : List ℕ) (blank_front : All IsBlank front)
    (starts : is_blank a ≡ false) (trimmed : trim_back (a ∷ v) ≡ a ∷ v)
    (blank_back : All IsBlank back) (plain : All IsPlain ((a ∷ v) ++ back)) where
  pub next_piece-padded :
      (c : ℕ) (rest : List ℕ)
      → next_piece (padded front (a ∷ v) back (c ∷ rest))
        ≡ piece (a ∷ v) (back ++ crlf (c ∷ rest)) (is_blank c) (c ∷ rest)
  unfolding next_piece
  next_piece-padded c rest =
      ap from_blanks (
        skip_front front (a ∷ (v ++ (back ++ crlf (c ∷ rest)))) blank_front
        ∙ skip_other a (v ++ (back ++ crlf (c ∷ rest))) starts)
      ∙ ap (λ s. look_past (parse_token_to_eol s))
          (sym (append_assoc (a ∷ v) back (crlf (c ∷ rest))))
      ∙ ap look_past (parse_token_to_eol-crlf ((a ∷ v) ++ back) (c ∷ rest) plain)
      ∙ looked
    where
      value : trim_back ((a ∷ v) ++ back) ≡ a ∷ v
      value = trim_append (a ∷ v) back blank_back ∙ trimmed

      looked :
          look_past (line ((a ∷ v) ++ back) (c ∷ rest))
          ≡ piece (a ∷ v) (back ++ crlf (c ∷ rest)) (is_blank c) (c ∷ rest)
      looked = rw value (
          ap (λ b. piece (a ∷ v) (b ++ crlf (c ∷ rest)) (is_blank c) (c ∷ rest))
            (drop_front (a ∷ v) back))

colon_other : is_token_char b':' ≡ false
unfolding is_token_char
colon_other = refl

colon_no_token : (c : ℕ) → IsTokenChar c → (c == b':') ≡ false
colon_no_token c h = elim (Bool-cases (c == b':')) [
  | inr other ↦ other
  | inl colon ↦ absurd (ground (arith, h, colon_other, ap is_token_char (==→eq c b':' colon)))
]

name_loop-name :
    (name p : List ℕ) → All IsTokenChar name → name_loop (name ++ b':' ∷ p) ≡ parsed name p
unfolding name_loop
name_loop-name [] p h = refl
name_loop-name (c ∷ name) p (token, h) =
    rw (colon_no_token c token, token) (ap (push_name c) (name_loop-name name p h))

abbrev pub header : List ℕ → List ℕ → List ℕ
header name p = name ++ b':' ∷ p

read_name :
    (n : ℕ) (name p : List ℕ)
    → All IsTokenChar (n ∷ name)
    → parse_field (header (n ∷ name) p) ≡ answer (value_loop (suc (length p)) (n ∷ name) p)
unfolding parse_field
read_name n name p h = ap after_name (name_loop-name (n ∷ name) p h)

-- The start of a field of that form: what its first line gives goes to the loops.
module _ (n : ℕ) (name front : List ℕ) (a : ℕ) (v back : List ℕ) (c : ℕ) (rest : List ℕ)
    (token : All IsTokenChar (n ∷ name)) (blank_front : All IsBlank front)
    (starts : is_blank a ≡ false) (trimmed : trim_back (a ∷ v) ≡ a ∷ v)
    (blank_back : All IsBlank back) (plain : All IsPlain ((a ∷ v) ++ back)) where
  abbrev lines : List ℕ
  lines = padded front (a ∷ v) back (c ∷ rest)

  abbrev pub first_line : List ℕ
  first_line = header (n ∷ name) lines

  abbrev from_first : FieldResult
  from_first = answer (
      value_round (value_loop (length lines) (n ∷ name)) (fold_loop (length lines) (n ∷ name))
        (n ∷ name) (piece (a ∷ v) (back ++ crlf (c ∷ rest)) (is_blank c) (c ∷ rest)))

  reads_first : parse_field first_line ≡ from_first
  unfolding value_loop
  reads_first =
      read_name n name lines token
      ∙ ap
          (λ q. answer (
            value_round (value_loop (length lines) (n ∷ name)) (fold_loop (length lines) (n ∷ name))
              (n ∷ name) q))
          (next_piece-padded front a v back blank_front starts trimmed blank_back plain c rest)

  -- A name of token characters, a ':' and a value between blanks, which begins and ends with no
  -- blank and has no control characters, with a line behind it that is no continuation: the field
  -- has that name and that value, and what is left starts with that line.
  pub parse_field-line :
      is_blank c ≡ false
      → parse_field first_line ≡ field (n ∷ name) (a ∷ v) (back ++ crlf (c ∷ rest)) (c ∷ rest)
  parse_field-line other = reads_first ∙ ends
    where
      ends : from_first ≡ field (n ∷ name) (a ∷ v) (back ++ crlf (c ∷ rest)) (c ∷ rest)
      ends = rw other refl

  -- A name of token characters, a ':' and a first line of a value, of more than 4096 characters
  -- between blanks, with none at its ends and no control characters, and a blank at the start of the
  -- next line: `std::length_error` leaves the function.
  pub parse_field-long :
      is_blank c ≡ true → max_obs_fold < length (a ∷ v) → parse_field first_line ≡ length_error
  parse_field-long blank long = reads_first ∙ ends
    where
      ends : from_first ≡ length_error
      ends = rw (blank, lt→ltb max_obs_fold (length (a ∷ v)) long) refl

  continues :
      is_blank c ≡ true
      → length (a ∷ v) ≤ max_obs_fold
      → parse_field first_line ≡ answer (fold_loop (length lines) (n ∷ name) (a ∷ v) rest)
  continues blank short = reads_first ∙ goes_on
    where
      goes_on : from_first ≡ answer (fold_loop (length lines) (n ∷ name) (a ∷ v) rest)
      goes_on = rw (blank, ge→ltb_false max_obs_fold (length (a ∷ v)) short) refl

fold_step :
    (k : ℕ) (name buf p : List ℕ) (q : Piece)
    → 0 < k
    → next_piece p ≡ q
    → fold_loop k name buf p ≡ fold_round (fold_loop (k - 1) name) name buf q
unfolding fold_loop
fold_step zero name buf p q h e = absurd (omega arith)
fold_step (suc k) name buf p q h e =
    ap (fold_round (fold_loop k name) name buf) e
    ∙ ap (λ (j : ℕ). fold_round (fold_loop j name) name buf q) (omega arith)

some_lines : (front : List ℕ) (c : ℕ) (s : List ℕ) → 0 < length (front ++ c ∷ s)
some_lines [] c s = omega arith
some_lines (d ∷ front) c s = omega arith

grow_fits :
    (buf : List ℕ) (b : ℕ) (w : List ℕ)
    → length buf + 1 + length (b ∷ w) ≤ max_obs_fold
    → grow buf (b ∷ w) ≡ some (buf ++ b' ' ∷ b ∷ w)
grow_fits buf b w h = ground arith

fold_ends :
    (again : List ℕ → List ℕ → Option FieldResult) (name buf value beyond longer rest : List ℕ)
    (continued : Bool)
    → grow buf value ≡ some longer
    → continued ≡ false
    → answer (fold_round again name buf (piece value beyond continued rest))
      ≡ field name longer (0 ∷ []) rest
fold_ends again name buf value beyond longer rest continued e other = rw (e, other) refl

-- A name of token characters, a ':' and a value in two lines, the second behind a blank and the one
-- after it no continuation, each a text between blanks with none at its ends and no control
-- characters, at most 4095 characters together: the value is the first text, a space and the second.
pub parse_field-folded :
    (n : ℕ) (name front : List ℕ) (a : ℕ) (v back : List ℕ) (c : ℕ) (front2 : List ℕ) (b : ℕ)
    (w back2 : List ℕ) (d : ℕ) (rest : List ℕ)
    → All IsTokenChar (n ∷ name)
    → All IsBlank front
    → is_blank a ≡ false
    → trim_back (a ∷ v) ≡ a ∷ v
    → All IsBlank back
    → All IsPlain ((a ∷ v) ++ back)
    → is_blank c ≡ true
    → All IsBlank front2
    → is_blank b ≡ false
    → trim_back (b ∷ w) ≡ b ∷ w
    → All IsBlank back2
    → All IsPlain ((b ∷ w) ++ back2)
    → is_blank d ≡ false
    → length (a ∷ v) + 1 + length (b ∷ w) ≤ max_obs_fold
    → parse_field
        (header (n ∷ name) (padded front (a ∷ v) back (c ∷ padded front2 (b ∷ w) back2 (d ∷ rest))))
      ≡ field (n ∷ name) ((a ∷ v) ++ b' ' ∷ b ∷ w) (0 ∷ []) (d ∷ rest)
parse_field-folded n name front a v back c front2 b w back2 d rest token f starts trimmed bk plain
      blank f2 starts2 trimmed2 bk2 plain2 other fits =
    let second : List ℕ = padded front2 (b ∷ w) back2 (d ∷ rest) in
    let fuel : ℕ = length (padded front (a ∷ v) back (c ∷ second)) in
    continues n name front a v back c second token f starts trimmed bk plain blank (omega arith)
    ∙ ap answer (
        fold_step fuel (n ∷ name) (a ∷ v) second
          (piece (b ∷ w) (back2 ++ crlf (d ∷ rest)) (is_blank d) (d ∷ rest))
          (some_lines front a (v ++ (back ++ crlf (c ∷ second))))
          (next_piece-padded front2 b w back2 f2 starts2 trimmed2 bk2 plain2 d rest))
    ∙ fold_ends (fold_loop (fuel - 1) (n ∷ name)) (n ∷ name) (a ∷ v) (b ∷ w)
        (back2 ++ crlf (d ∷ rest)) ((a ∷ v) ++ b' ' ∷ b ∷ w) (d ∷ rest) (is_blank d)
        (grow_fits (a ∷ v) b w fits) other

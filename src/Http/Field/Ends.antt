-- ===== src/Http/Field/Ends.antt =====
-- The loops over the lines of a value end.
use beast_asio_standalone.Prelude.{
  ℕ, zero, suc, ◌≤◌, ◌<◌, Bool, true, false, Option, none, some, List, [], ◌∷◌, ◌==◌, ◌!=◌, arith,
  Bool-cases, inl, inr, length, ltb,
}
use beast_asio_standalone.Http.Chars.{is_blank}
use beast_asio_standalone.Http.StartLine.{
  TokenLine, line, error, invalid, is_control, push_front, behind_cr, parse_token_to_eol,
}
use beast_asio_standalone.Http.Field.{
  Piece, piece, broken, look_past, from_blanks, next_piece, skip_blanks, tail, grow, fold_loop,
  value_loop, max_obs_fold, FieldResult, fold_on, fold_round, value_round,
}

-- a scan leaves fewer characters than it was given
abbrev Shorter : TokenLine → ℕ → Type 0
Shorter (line token rest) n = length rest < n
Shorter (error e) n = Unit
Shorter invalid n = Unit

push_front-Shorter :
    (c : ℕ) (p : TokenLine) (n : ℕ) → Shorter p n → Shorter (push_front c p) (suc n)
push_front-Shorter c (line token rest) n h = omega arith
push_front-Shorter c (error e) n h = tt
push_front-Shorter c invalid n h = tt

behind_cr-Shorter : (p : List ℕ) → Shorter (behind_cr p) (suc (length p))
behind_cr-Shorter [] = tt
behind_cr-Shorter (c ∷ p) = elim (Bool-cases (c != b'\n')) [
  | inl other ↦ rw other tt
  | inr nl ↦ rw nl (omega arith)
]

parse_token_to_eol-Shorter : (p : List ℕ) → Shorter (parse_token_to_eol p) (length p)
unfolding parse_token_to_eol
parse_token_to_eol-Shorter [] = tt
parse_token_to_eol-Shorter (c ∷ p) = elim (Bool-cases (is_control c)) [
  | inr plain ↦
      rw plain
        (push_front-Shorter c (parse_token_to_eol p) (length p) (parse_token_to_eol-Shorter p))
  | inl control ↦ elim (Bool-cases (c == b'\r')) [
    | inl cr ↦ rw (control, cr) (behind_cr-Shorter p)
    | inr other ↦ rw (control, other) tt
  ]
]

pub skip_blanks-le : (p : List ℕ) → length (skip_blanks p) ≤ length p
unfolding skip_blanks
skip_blanks-le [] = omega arith
skip_blanks-le (c ∷ p) = elim (Bool-cases (is_blank c)) [
  | inl blank ↦ rw blank (omega (arith, skip_blanks-le p))
  | inr other ↦ rw other (omega arith)
]

abbrev pub Consumes : Piece → ℕ → Type 0
Consumes (broken e) n = Unit
Consumes (piece value beyond continued rest) n = length rest < n

pub tail-le : (p : List ℕ) → length (tail p) ≤ length p
tail-le [] = omega arith
tail-le (c ∷ p) = omega arith

look_past-Consumes : (t : TokenLine) (n : ℕ) → Shorter t n → Consumes (look_past t) n
look_past-Consumes (error e) n h = tt
look_past-Consumes invalid n h = tt
look_past-Consumes (line token []) n h = tt
look_past-Consumes (line token (c ∷ p)) n h = omega arith

from_blanks-Consumes : (p : List ℕ) → Consumes (from_blanks p) (length p)
from_blanks-Consumes [] = tt
from_blanks-Consumes (c ∷ p) =
    look_past-Consumes (parse_token_to_eol (c ∷ p)) (length (c ∷ p))
      (parse_token_to_eol-Shorter (c ∷ p))

Consumes-more : (q : Piece) (m n : ℕ) → m ≤ n → Consumes q m → Consumes q n
Consumes-more (broken e) m n h c = tt
Consumes-more (piece value beyond continued rest) m n h c = omega arith

pub next_piece-Consumes : (p : List ℕ) → Consumes (next_piece p) (length p)
unfolding next_piece
next_piece-Consumes p =
    Consumes-more (from_blanks (skip_blanks p)) (length (skip_blanks p)) (length p)
      (skip_blanks-le p) (from_blanks-Consumes (skip_blanks p))

abbrev pub Finishes {ℓ} : {A : Type ℓ} → Option A → Type 0
Finishes none = ⊥
Finishes (some a) = Unit

-- A round of a loop whose next round, on fewer characters, gives a result.
abbrev Again : (List ℕ → List ℕ → Option FieldResult) → ℕ → Type 0
Again again n = (buf p : List ℕ) → length p < n → Finishes (again buf p)

fold_on-Finishes :
    (again : List ℕ → List ℕ → Option FieldResult) (name : List ℕ) (continued : Bool)
    (rest : List ℕ) (buf : Option (List ℕ)) (n : ℕ)
    → length rest < n
    → Again again n
    → Finishes (fold_on again name continued rest buf)
fold_on-Finishes again name continued rest none n c h = tt
fold_on-Finishes again name false rest (some buf) n c h = tt
fold_on-Finishes again name true rest (some buf) n c h =
    h buf (tail rest) (omega (arith, tail-le rest))

fold_round-Finishes :
    (again : List ℕ → List ℕ → Option FieldResult) (name buf : List ℕ) (q : Piece) (n : ℕ)
    → Consumes q n
    → Again again n
    → Finishes (fold_round again name buf q)
fold_round-Finishes again name buf (broken e) n c h = tt
fold_round-Finishes again name buf (piece value beyond continued rest) n c h =
    fold_on-Finishes again name continued rest (grow buf value) n c h

fold_loop-Finishes :
    (fuel : ℕ) (name buf p : List ℕ) → length p < fuel → Finishes (fold_loop fuel name buf p)
unfolding fold_loop
fold_loop-Finishes zero name buf p h = absurd (omega arith)
fold_loop-Finishes (suc fuel) name buf p h =
    fold_round-Finishes (fold_loop fuel name) name buf (next_piece p) (length p)
      (next_piece-Consumes p)
      (λ longer q shorter. fold_loop-Finishes fuel name longer q (omega arith))

value_round-Finishes :
    (again : List ℕ → Option FieldResult) (fold : List ℕ → List ℕ → Option FieldResult)
    (name : List ℕ) (q : Piece) (n : ℕ)
    → Consumes q n
    → ((p : List ℕ) → length p < n → Finishes (again p))
    → Again fold n
    → Finishes (value_round again fold name q)
value_round-Finishes again fold name (broken e) n c h k = tt
value_round-Finishes again fold name (piece value beyond false rest) n c h k = tt
value_round-Finishes again fold name (piece [] beyond true rest) n c h k =
    h (tail rest) (omega (arith, tail-le rest))
value_round-Finishes again fold name (piece (d ∷ value) beyond true rest) n c h k =
    elim (Bool-cases (ltb max_obs_fold (length (d ∷ value)))) [
      | inl long ↦ rw long tt
      | inr short ↦ rw short (k (d ∷ value) (tail rest) (omega (arith, tail-le rest)))
    ]

-- With fuel for more rounds than there are characters, the loops over the lines of a value come to a
-- result, whatever the characters are.
pub value_loop-Finishes :
    (fuel : ℕ) (name p : List ℕ) → length p < fuel → Finishes (value_loop fuel name p)
unfolding value_loop
value_loop-Finishes zero name p h = absurd (omega arith)
value_loop-Finishes (suc fuel) name p h =
    value_round-Finishes (value_loop fuel name) (fold_loop fuel name) name (next_piece p) (length p)
      (next_piece-Consumes p) (λ q shorter. value_loop-Finishes fuel name q (omega arith))
      (λ buf q shorter. fold_loop-Finishes fuel name buf q (omega arith))

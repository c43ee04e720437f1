-- ===== src/Http/Field/Rest.antt =====
-- What `parse_field` leaves is shorter than what it was given, so a loop over fields goes on.
use beast_asio_standalone.Prelude.{
  ℕ, zero, suc, ◌≤◌, ◌<◌, Bool, true, false, not, Option, none, some, List, [], ◌∷◌, ◌==◌, arith,
  length, ltb, if_cases,
}
use beast_asio_standalone.Http.Error.{Parsed, parsed, failed}
use beast_asio_standalone.Http.Chars.{is_token_char}
use beast_asio_standalone.Http.Field.{
  Piece, piece, broken, next_piece, tail, grow, fold_loop, value_loop, max_obs_fold, FieldResult,
  field, fault, length_error, fold_on, fold_round, value_round, answer, after_name, name_loop,
  push_name, parse_field,
}
use beast_asio_standalone.Http.Field.Ends.{Consumes, next_piece-Consumes, tail-le}

abbrev pub Leaves : FieldResult → ℕ → Type 0
Leaves (field name value beyond rest) n = length rest < n
Leaves (fault e) n = Unit
Leaves length_error n = Unit

abbrev LeavesSome : Option FieldResult → ℕ → Type 0
LeavesSome none n = Unit
LeavesSome (some r) n = Leaves r n

Leaves-more : (r : FieldResult) (m n : ℕ) → m ≤ n → Leaves r m → Leaves r n
Leaves-more (field name value beyond rest) m n h k = omega arith
Leaves-more (fault e) m n h k = tt
Leaves-more length_error m n h k = tt

LeavesSome-more : (r : Option FieldResult) (m n : ℕ) → m ≤ n → LeavesSome r m → LeavesSome r n
LeavesSome-more none m n h k = tt
LeavesSome-more (some r) m n h k = Leaves-more r m n h k

-- what the next round of a loop leaves
abbrev Next : (List ℕ → List ℕ → Option FieldResult) → Type 0
Next again = (buf p : List ℕ) → LeavesSome (again buf p) (length p)

fold_on-Leaves :
    (again : List ℕ → List ℕ → Option FieldResult) (name : List ℕ) (continued : Bool)
    (rest : List ℕ) (buf : Option (List ℕ)) (n : ℕ)
    → length rest < n
    → Next again
    → LeavesSome (fold_on again name continued rest buf) n
fold_on-Leaves again name continued rest none n c k = tt
fold_on-Leaves again name false rest (some buf) n c k = c
fold_on-Leaves again name true rest (some buf) n c k =
    LeavesSome-more (again buf (tail rest)) (length (tail rest)) n (omega (arith, tail-le rest))
      (k buf (tail rest))

fold_round-Leaves :
    (again : List ℕ → List ℕ → Option FieldResult) (name buf : List ℕ) (q : Piece) (n : ℕ)
    → Consumes q n
    → Next again
    → LeavesSome (fold_round again name buf q) n
fold_round-Leaves again name buf (broken e) n c k = tt
fold_round-Leaves again name buf (piece value beyond continued rest) n c k =
    fold_on-Leaves again name continued rest (grow buf value) n c k

fold_loop-Leaves :
    (fuel : ℕ) (name buf p : List ℕ) → LeavesSome (fold_loop fuel name buf p) (length p)
unfolding fold_loop
fold_loop-Leaves zero name buf p = tt
fold_loop-Leaves (suc fuel) name buf p =
    fold_round-Leaves (fold_loop fuel name) name buf (next_piece p) (length p)
      (next_piece-Consumes p) (fold_loop-Leaves fuel name)

value_round-Leaves :
    (again : List ℕ → Option FieldResult) (fold : List ℕ → List ℕ → Option FieldResult)
    (name : List ℕ) (q : Piece) (n : ℕ)
    → Consumes q n
    → ((p : List ℕ) → LeavesSome (again p) (length p))
    → Next fold
    → LeavesSome (value_round again fold name q) n
value_round-Leaves again fold name (broken e) n c h k = tt
value_round-Leaves again fold name (piece value beyond false rest) n c h k = c
value_round-Leaves again fold name (piece [] beyond true rest) n c h k =
    LeavesSome-more (again (tail rest)) (length (tail rest)) n (omega (arith, tail-le rest))
      (h (tail rest))
value_round-Leaves again fold name (piece (d ∷ value) beyond true rest) n c h k =
    if_cases (λ r. LeavesSome r n) (ltb max_obs_fold (length (d ∷ value))) _ _ (λ long. tt)
      (λ short.
        LeavesSome-more (fold (d ∷ value) (tail rest)) (length (tail rest)) n
          (omega (arith, tail-le rest)) (k (d ∷ value) (tail rest)))

value_loop-Leaves : (fuel : ℕ) (name p : List ℕ) → LeavesSome (value_loop fuel name p) (length p)
unfolding value_loop
value_loop-Leaves zero name p = tt
value_loop-Leaves (suc fuel) name p =
    value_round-Leaves (value_loop fuel name) (fold_loop fuel name) name (next_piece p) (length p)
      (next_piece-Consumes p) (value_loop-Leaves fuel name) (fold_loop-Leaves fuel name)

answer-Leaves : (r : Option FieldResult) (n : ℕ) → LeavesSome r n → Leaves (answer r) n
answer-Leaves none n k = tt
answer-Leaves (some r) n k = k

abbrev Behind : Parsed (List ℕ) → ℕ → Type 0
Behind (parsed name p) n = length p < n
Behind (failed e) n = Unit

push_name-Behind :
    (c : ℕ) (r : Parsed (List ℕ)) (n : ℕ) → Behind r n → Behind (push_name c r) (suc n)
push_name-Behind c (parsed name p) n k = omega arith
push_name-Behind c (failed e) n k = tt

name_loop-Behind : (p : List ℕ) → Behind (name_loop p) (length p)
unfolding name_loop
name_loop-Behind [] = tt
name_loop-Behind (c ∷ p) =
    if_cases (λ (r : Parsed (List ℕ)). Behind r (suc (length p))) (c == b':') _ _
      (λ colon. omega arith)
      (λ other.
        if_cases (λ (r : Parsed (List ℕ)). Behind r (suc (length p))) (not (is_token_char c)) _ _
          (λ bad. tt) (λ good. push_name-Behind c (name_loop p) (length p) (name_loop-Behind p)))

after_name-Leaves : (r : Parsed (List ℕ)) (n : ℕ) → Behind r n → Leaves (after_name r) n
after_name-Leaves (failed e) n k = tt
after_name-Leaves (parsed [] p) n k = tt
after_name-Leaves (parsed (c ∷ name) p) n k =
    Leaves-more (answer (value_loop (suc (length p)) (c ∷ name) p)) (length p) n (omega arith) (
      answer-Leaves (value_loop (suc (length p)) (c ∷ name) p) (length p)
        (value_loop-Leaves (suc (length p)) (c ∷ name) p))

pub parse_field-Leaves : (p : List ℕ) → Leaves (parse_field p) (length p)
unfolding parse_field
parse_field-Leaves p = after_name-Leaves (name_loop p) (length p) (name_loop-Behind p)

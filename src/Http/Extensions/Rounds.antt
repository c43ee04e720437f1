-- ===== src/Http/Extensions/Rounds.antt =====
-- The rounds of `parse_chunk_extensions` without their fuel.
use beast_asio_standalone.Prelude.{
  ℕ, zero, suc, ◌+◌, ◌≤◌, ◌<◌, ◌≡◌, refl, Bool, not, ◌&&◌, Option, none, some, List, [], ◌∷◌, ◌==◌,
  ◌!=◌, arith, length, if_cases,
}
use beast_asio_standalone.Http.Error.{Parsed}
use beast_asio_standalone.Http.Chars.{is_token_char, is_blank}
use beast_asio_standalone.Http.Field.{skip_blanks}
use beast_asio_standalone.Http.Field.Ends.{skip_blanks-le}
use beast_asio_standalone.Http.Extensions.{
  skip_token, skip_quoted, Label, loop, semi, Next, goes_to, returns, fails, expect_semi,
  after_quoted, after_token, at_value, at_equals, behind_name, at_name, at, then_round,
  extensions_loop, rounds, parse_chunk_extensions,
}

skip_token-le : (it : List ℕ) → length (skip_token it) ≤ length it
unfolding skip_token
skip_token-le [] = omega arith
skip_token-le (c ∷ it) =
    if_cases (λ (t : List ℕ). length t ≤ suc (length it)) (is_token_char c) (skip_token it) (c ∷ it)
      (λ token. omega (arith, skip_token-le it)) (λ other. omega arith)

abbrev Below : Option (List ℕ) → ℕ → Type 0
Below none n = Unit
Below (some it) n = length it ≤ n

Below-more : (r : Option (List ℕ)) (m n : ℕ) → m ≤ n → Below r m → Below r n
Below-more none m n h k = tt
Below-more (some it) m n h k = omega arith

skip_quoted-Below : (it : List ℕ) → Below (skip_quoted it) (length it)
unfolding skip_quoted
skip_quoted-Below [] = tt
skip_quoted-Below (c ∷ []) =
    if_cases (λ (r : Option (List ℕ)). Below r 1) (c == b'"') _ _ (λ quote. omega arith)
      (λ other. tt)
skip_quoted-Below (c ∷ d ∷ it) =
    let n = length (c ∷ d ∷ it) in
    if_cases (λ (r : Option (List ℕ)). Below r n) (c == b'"') _ _ (λ quote. omega arith)
      (λ other.
        if_cases (λ (r : Option (List ℕ)). Below r n) (c == b'\\') _ _
          (λ slash. Below-more (skip_quoted it) (length it) n (omega arith) (skip_quoted-Below it))
          (λ plain.
            Below-more (skip_quoted (d ∷ it)) (length (d ∷ it)) n (omega arith)
              (skip_quoted-Below (d ∷ it))))

-- a piece of a round leaves no more than `n` characters
abbrev Within : Next → ℕ → Type 0
Within (goes_to label it) n = length it ≤ n
Within (returns it) n = Unit
Within (fails e) n = Unit

after_quoted-Within : (r : Option (List ℕ)) (n : ℕ) → Below r n → Within (after_quoted r) n
after_quoted-Within none n k = tt
after_quoted-Within (some it) n k = k

after_token-Within : (it : List ℕ) (n : ℕ) → length it ≤ n → Within (after_token it) n
after_token-Within [] n k = tt
after_token-Within (c ∷ it) n k = k

at_value-Within : (it : List ℕ) (n : ℕ) → length it ≤ n → Within (at_value it) n
at_value-Within [] n k = tt
at_value-Within (c ∷ it) n k =
    if_cases (λ (r : Next). Within r n) (c != b'"') _ _
      (λ token.
        if_cases (λ (r : Next). Within r n) (not (is_token_char c)) _ _ (λ bad. tt)
          (λ good. after_token-Within (skip_token it) n (omega (arith, skip_token-le it))))
      (λ quoted.
        after_quoted-Within (skip_quoted it) n
          (Below-more (skip_quoted it) (length it) n (omega arith) (skip_quoted-Below it)))

at_equals-Within : (bws : Bool) (it : List ℕ) (n : ℕ) → length it ≤ n → Within (at_equals bws it) n
at_equals-Within bws [] n k = tt
at_equals-Within bws (c ∷ it) n k =
    if_cases (λ (r : Next). Within r n) (c == b';') _ _ (λ next. k)
      (λ other.
        if_cases (λ (r : Next). Within r n) (c != b'=') _ _
          (λ end. if_cases (λ (r : Next). Within r n) bws _ _ (λ bad. tt) (λ good. tt))
          (λ equals. at_value-Within (skip_blanks it) n (omega (arith, skip_blanks-le it))))

behind_name-Within : (it : List ℕ) (n : ℕ) → length it ≤ n → Within (behind_name it) n
behind_name-Within [] n k = tt
behind_name-Within (c ∷ it) n k =
    at_equals-Within (is_blank c) (skip_blanks (c ∷ it)) n (omega (arith, skip_blanks-le (c ∷ it)))

at_name-Within : (it : List ℕ) (n : ℕ) → length it ≤ n → Within (at_name it) n
at_name-Within [] n k = tt
at_name-Within (c ∷ it) n k =
    if_cases (λ (r : Next). Within r n) (not (is_token_char c)) _ _ (λ bad. tt)
      (λ good. behind_name-Within (skip_token it) n (omega (arith, skip_token-le it)))

-- a round leaves fewer rounds
abbrev Advances : Next → ℕ → Type 0
Advances (goes_to label it) n = rounds label it < n
Advances (returns it) n = Unit
Advances (fails e) n = Unit

Within-Advances : (r : Next) (n m : ℕ) → n < m → Within r n → Advances r (suc (m + m))
Within-Advances (goes_to loop it) n m h k = omega arith
Within-Advances (goes_to semi it) n m h k = omega arith
Within-Advances (returns it) n m h k = tt
Within-Advances (fails e) n m h k = tt

expect_semi-Advances :
    (it : List ℕ) (n : ℕ) → length it ≤ n → Advances (expect_semi it) (suc (suc (n + n)))
expect_semi-Advances [] n k = tt
expect_semi-Advances (c ∷ it) n k =
    if_cases (λ (r : Next). Advances r (suc (suc (n + n)))) (c != b';') _ _ (λ bad. tt)
      (λ next. omega arith)

at-Advances : (label : Label) (it : List ℕ) → Advances (at label it) (rounds label it)
at-Advances loop [] = tt
at-Advances loop (c ∷ it) =
    if_cases (λ (r : Next). Advances r (rounds loop (c ∷ it))) (not (is_blank c) && c != b';') _ _
      (λ end. tt)
      (λ more.
        expect_semi-Advances (skip_blanks (c ∷ it)) (length (c ∷ it)) (skip_blanks-le (c ∷ it)))
at-Advances semi [] = tt
at-Advances semi (c ∷ it) =
    Within-Advances (at_name (skip_blanks it)) (length it) (length (c ∷ it)) (omega arith)
      (at_name-Within (skip_blanks it) (length it) (skip_blanks-le it))

then_round-Same :
    (again again' : Label → List ℕ → Parsed (List ℕ)) (r : Next) (n : ℕ)
    → Advances r n
    → ((label : Label) (it : List ℕ) → rounds label it < n → again label it ≡ again' label it)
    → then_round again r ≡ then_round again' r
then_round-Same again again' (goes_to label it) n k same = same label it k
then_round-Same again again' (returns it) n k same = refl
then_round-Same again again' (fails e) n k same = refl

-- Fuel for more rounds than are left makes no difference.
extensions_loop-enough :
    (fuel fuel' : ℕ) (label : Label) (it : List ℕ)
    → rounds label it ≤ fuel
    → rounds label it ≤ fuel'
    → extensions_loop fuel label it ≡ extensions_loop fuel' label it
unfolding extensions_loop
extensions_loop-enough zero fuel' loop it k l = absurd (omega arith)
extensions_loop-enough zero fuel' semi it k l = absurd (omega arith)
extensions_loop-enough (suc fuel) zero loop it k l = absurd (omega arith)
extensions_loop-enough (suc fuel) zero semi it k l = absurd (omega arith)
extensions_loop-enough (suc fuel) (suc fuel') label it k l =
    then_round-Same (extensions_loop fuel) (extensions_loop fuel') (at label it) (rounds label it)
      (at-Advances label it)
      (λ label' it' less. extensions_loop-enough fuel fuel' label' it' (omega arith) (omega arith))

-- the rounds from a label on
abbrev from_label : Label → List ℕ → Parsed (List ℕ)
from_label label it = extensions_loop (rounds label it) label it

first_round :
    (label : Label) (it : List ℕ) (fuel : ℕ)
    → rounds label it ≤ suc fuel
    → extensions_loop (suc fuel) label it ≡ then_round from_label (at label it)
unfolding extensions_loop
first_round label it fuel k =
    then_round-Same (extensions_loop fuel) from_label (at label it) (rounds label it)
      (at-Advances label it)
      (λ label' it' less.
        extensions_loop-enough fuel (rounds label' it') label' it' (omega arith) (omega arith))

-- From a label on there is a round, and then what follows from the label that it goes to.
from_label-round :
    (label : Label) (it : List ℕ) → from_label label it ≡ then_round from_label (at label it)
unfolding extensions_loop
from_label-round loop it = first_round loop it (suc (length it + length it)) (omega arith)
from_label-round semi it = first_round semi it (length it + length it) (omega arith)

-- `parse_chunk_extensions` goes through the rounds, from `loop:` on.
parse_chunk_extensions-round :
    (it : List ℕ) → parse_chunk_extensions it ≡ then_round from_label (at loop it)
unfolding parse_chunk_extensions
parse_chunk_extensions-round it = from_label-round loop it

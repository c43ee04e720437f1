-- ===== src/Http/StartLine/Print.antt =====
-- What a peer writes is what the pieces read, and nothing else is taken.
use beast_asio_standalone.Prelude.{
  ℕ, ◌≡◌, refl, ap, sym, ◌∙◌, Bool, true, false, Option, none, some, List, [], ◌∷◌, ◌++◌, ◌↔◌, ◌!=◌,
  arith, Bool-cases, inl, inr, All,
}
use mathlib.Core.Path.{subst}
use beast_asio_standalone.Http.Error.{Error, Parsed, parsed, failed, bad_method, bad_target}
use beast_asio_standalone.Http.Chars.{is_token_char, is_pathchar}
use beast_asio_standalone.Http.StartLine.{push_some, scan, before_space, parse_method, parse_target}

abbrev pub InClass : (ℕ → Bool) → ℕ → Type 0
InClass test c = test c ≡ true

-- a text of the class, with what follows it
pub record Front (test : ℕ → Bool) (s front rest : List ℕ) : Type 0 where
  pub split : s ≡ front ++ rest
  pub within : All (InClass test) front

abbrev Fronts : (ℕ → Bool) → List ℕ → Option (List ℕ × List ℕ) → Type 0
Fronts test s none = Unit
Fronts test s (some (front, rest)) = Front test s front rest

push_some-Fronts :
    (test : ℕ → Bool) (c : ℕ) (s : List ℕ) (p : Option (List ℕ × List ℕ))
    → test c ≡ true
    → Fronts test s p
    → Fronts test (c ∷ s) (push_some c p)
push_some-Fronts test c s none h f = tt
push_some-Fronts test c s (some (front, rest)) h f = record {
  split = ap (λ t. c ∷ t) f.split;
  within = (h, f.within);
}

scan-Fronts : (test : ℕ → Bool) (s : List ℕ) → Fronts test s (scan test s)
unfolding scan
scan-Fronts test [] = tt
scan-Fronts test (c ∷ s) = elim (Bool-cases (test c)) [
  | inl within ↦ rw within (push_some-Fronts test c s (scan test s) within (scan-Fronts test s))
  | inr outside ↦ rw outside (record { split = refl; within = tt })
]

scan-front :
    (test : ℕ → Bool) (front : List ℕ) (c : ℕ) (rest : List ℕ)
    → All (InClass test) front
    → test c ≡ false
    → scan test (front ++ c ∷ rest) ≡ some (front, c ∷ rest)
unfolding scan
scan-front test [] c rest h e = rw e refl
scan-front test (a ∷ front) c rest (ha, h) e =
    rw ha (ap (push_some a) (scan-front test front c rest h e))

-- a text of the class that is not empty, with the space behind it and what is left
pub record Word (test : ℕ → Bool) (s word rest : List ℕ) : Type 0 where
  pub first : ℕ
  pub others : List ℕ
  pub is_word : word ≡ first ∷ others
  pub within : All (InClass test) word
  pub split : s ≡ word ++ b' ' ∷ rest

abbrev Words : (ℕ → Bool) → List ℕ → Parsed (List ℕ) → Type 0
Words test s (parsed word rest) = Word test s word rest
Words test s (failed e) = Unit

before_space-Words :
    (test : ℕ → Bool) (s : List ℕ) (bad : Error) (p : Option (List ℕ × List ℕ))
    → Fronts test s p
    → Words test s (before_space bad p)
before_space-Words test s bad none f = tt
before_space-Words test s bad (some (front, [])) f = tt
before_space-Words test s bad (some ([], c ∷ it)) f = tt
before_space-Words test s bad (some (a ∷ front, c ∷ it)) f = elim (Bool-cases (c != b' ')) [
  | inl other ↦ rw other tt
  | inr space ↦ rw space (record {
    first = a;
    others = front;
    is_word = refl;
    within = f.within;
    split = f.split ∙ ap (λ (d : ℕ). (a ∷ front) ++ d ∷ it) (ground arith);
  })
]

extract :
    (test : ℕ → Bool) (s word rest : List ℕ) (p : Parsed (List ℕ))
    → Words test s p
    → p ≡ parsed word rest
    → Word test s word rest
extract test s word rest p h e = subst (Words test s) e h

before_space-scan :
    (test : ℕ → Bool) (s word rest : List ℕ) (bad : Error)
    → test b' ' ≡ false
    → Word test s word rest
    → before_space bad (scan test s) ≡ parsed word rest
before_space-scan test s word rest bad space w =
    ap (λ t. before_space bad (scan test t)) w.split
    ∙ ap (before_space bad) (scan-front test word b' ' rest w.within space)
    ∙ ap (λ t. before_space bad (some (t, b' ' ∷ rest))) w.is_word
    ∙ ap (λ t. parsed t rest) (sym w.is_word)

-- `parse_method` gives a method and what is left exactly where the characters are that method, which
-- is not empty and has token characters only, a space, and what is left.
pub parse_method-Word :
    (s word rest : List ℕ) → (parse_method s ≡ parsed word rest) ↔ Word is_token_char s word rest
unfolding parse_method is_token_char
parse_method-Word s word rest = (
  extract is_token_char s word rest (parse_method s) (
      before_space-Words is_token_char s bad_method (scan is_token_char s)
        (scan-Fronts is_token_char s)),
  before_space-scan is_token_char s word rest bad_method refl,
)

-- `parse_target` gives a target and what is left exactly where the characters are that target, which
-- is not empty and has path characters only, a space, and what is left.
pub parse_target-Word :
    (s word rest : List ℕ) → (parse_target s ≡ parsed word rest) ↔ Word is_pathchar s word rest
unfolding parse_target is_pathchar
parse_target-Word s word rest = (
  extract is_pathchar s word rest (parse_target s) (
      before_space-Words is_pathchar s bad_target (scan is_pathchar s) (scan-Fronts is_pathchar s)),
  before_space-scan is_pathchar s word rest bad_target refl,
)

-- ===== src/Http/Lines/Eol.antt =====
-- `find_eol` finds the end of the first line.
use beast_asio_standalone.Prelude.{
  ℕ, suc, ◌≤◌, ◌<◌, ◌≡◌, ◌↔◌, refl, ap, ◌∙◌, true, false, List, [], ◌∷◌, ◌++◌, ◌==◌, ◌!=◌, ==→eq,
  if_cases, length, All, arith, Bool-cases, inl, inr,
}
use mathlib.Core.Path.{subst}
use beast_asio_standalone.Http.Lines.{Line, found, missing, wrong, after_cr, find_eol}

abbrev pub ShortLine : Line → ℕ → Type 0
ShortLine (found eol) n = length eol < n
ShortLine missing n = Unit
ShortLine (wrong e) n = Unit

pub longer : (l : Line) (m n : ℕ) → m ≤ n → ShortLine l m → ShortLine l n
longer (found eol) m n h k = omega arith
longer missing m n h k = tt
longer (wrong e) m n h k = tt

after_cr-Short : (s : List ℕ) → ShortLine (after_cr s) (suc (length s))
after_cr-Short [] = tt
after_cr-Short (c ∷ s) =
    if_cases (λ l. ShortLine l (suc (length (c ∷ s)))) (c != b'\n') _ _ (λ _. tt) (λ _. omega arith)

pub find_eol-Short : (s : List ℕ) → ShortLine (find_eol s) (length s)
unfolding find_eol
find_eol-Short [] = tt
find_eol-Short (c ∷ s) = elim (Bool-cases (c == b'\r')) [
  | inl cr ↦ rw cr (after_cr-Short s)
  | inr other ↦
      rw other (longer (find_eol s) (length s) (suc (length s)) (omega arith) (find_eol-Short s))
]

abbrev pub NoCr : ℕ → Type 0
NoCr c = (c == b'\r') ≡ false

-- a line with no '\r', its end, and what is behind it
pub record Ended (s rest : List ℕ) : Type 0 where
  pub text : List ℕ
  pub no_cr : All NoCr text
  pub split : s ≡ text ++ b'\r' ∷ b'\n' ∷ rest

abbrev Ends : List ℕ → Line → Type 0
Ends s (found rest) = Ended s rest
Ends s missing = Unit
Ends s (wrong e) = Unit

Ends-more : (c : ℕ) (s : List ℕ) (l : Line) → NoCr c → Ends s l → Ends (c ∷ s) l
Ends-more c s (found rest) h e = record {
  text = c ∷ e.text;
  no_cr = (h, e.no_cr);
  split = ap (λ t. c ∷ t) e.split;
}
Ends-more c s missing h e = tt
Ends-more c s (wrong e') h e = tt

after_cr-Ends : (c : ℕ) (s : List ℕ) → (c == b'\r') ≡ true → Ends (c ∷ s) (after_cr s)
after_cr-Ends c [] h = tt
after_cr-Ends c (d ∷ s) h =
    if_cases (Ends (c ∷ d ∷ s)) (d != b'\n') _ _ (λ _. tt)
      (λ nl. record {
        text = [];
        no_cr = tt;
        split =
            ap (λ (a : ℕ). a ∷ d ∷ s) (==→eq c b'\r' h)
            ∙ ap (λ (a : ℕ). b'\r' ∷ a ∷ s) (is_nl d nl);
      })
  where
    is_nl : (a : ℕ) → (a != b'\n') ≡ false → a ≡ b'\n'
    is_nl a e = ground arith

find_eol-Ends : (s : List ℕ) → Ends s (find_eol s)
unfolding find_eol
find_eol-Ends [] = tt
find_eol-Ends (c ∷ s) =
    if_cases (Ends (c ∷ s)) (c == b'\r') _ _ (after_cr-Ends c s)
      (λ other. Ends-more c s (find_eol s) other (find_eol-Ends s))

pub find_eol-text :
    (text rest : List ℕ) → All NoCr text → find_eol (text ++ b'\r' ∷ b'\n' ∷ rest) ≡ found rest
unfolding find_eol
find_eol-text [] rest h = refl
find_eol-text (c ∷ text) rest (other, h) = rw other (find_eol-text text rest h)

-- `find_eol` finds a place exactly where the characters are a line with no '\r', a '\r', a '\n' and
-- what stands from that place on.
pub find_eol-Ended : (s rest : List ℕ) → (find_eol s ≡ found rest) ↔ Ended s rest
find_eol-Ended s rest = (
  λ e. subst (Ends s) e (find_eol-Ends s),
  λ e. ap find_eol e.split ∙ find_eol-text e.text rest e.no_cr,
)

-- ===== src/Http/Text.antt =====
-- The characters of a string literal, and comparisons of strings (core/string.hpp, whose views hold
-- the characters that are listed).
use Prim.Native.Char.{code}
use Prim.Native.String.{String}
use beast_asio_standalone.Prelude.{
  ℕ, ◌+◌, ◌-◌, ◌≡◌, refl, List, [], ◌∷◌, Bool, true, false, ◌&&◌, ◌==◌, ◌!=◌, leb, if◌then◌else◌,
  length, arith, ap₂,
}

abbrev pub codes : String → List ℕ
codes String.[] = []
codes (String.◌∷◌ c s) = code c ∷ codes s

-- equality of two views
unfoldable pub same_text : List ℕ → List ℕ → Bool
same_text [] [] = true
same_text (a ∷ s) (b ∷ t) = a == b && same_text s t
same_text s t = false

pub same_text→eq : (s t : List ℕ) → same_text s t ≡ true → s ≡ t
unfolding same_text
same_text→eq [] [] h = refl
same_text→eq (a ∷ s) (b ∷ t) h =
    ap₂ (λ (c : ℕ) (u : List ℕ). c ∷ u) (ground arith) (same_text→eq s t (ground arith))
same_text→eq [] (b ∷ t) h = ground arith
same_text→eq (a ∷ s) [] h = ground arith

unfoldable pub ascii_tolower : ℕ → ℕ
ascii_tolower c = if leb b'A' c && leb c b'Z' then c + b'a' - b'A' else c

-- The slow loop, from the first two characters that differ on. The characters it reads behind the
-- last ones are not compared.
unfoldable pub slow_loop : List ℕ → List ℕ → Bool
slow_loop (a ∷ s) (b ∷ t) =
    let more = slow_loop s t in if ascii_tolower a != ascii_tolower b then false else more
slow_loop s t = true

unfoldable pub fast_loop : List ℕ → List ℕ → Bool
fast_loop (a ∷ s) (b ∷ t) =
    let more = fast_loop s t in if a != b then slow_loop (a ∷ s) (b ∷ t) else more
fast_loop s t = true

unfoldable pub iequals : List ℕ → List ℕ → Bool
iequals s t = if length s != length t then false else fast_loop s t

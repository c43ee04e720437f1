-- ===== src/Http/Names/Search.antt =====
-- The search for a field name.
use beast_asio_standalone.Prelude.{
  ℕ, ◌<◌, ◌≡◌, ◌≢◌, refl, true, false, List, [], ◌∷◌, ◌++◌, ◌==◌, ◌!=◌, ==→eq, arith,
}
use beast_asio_standalone.Prelude.Bits.{all_below, all_below_sound}
use beast_asio_standalone.Http.Text.{ascii_tolower}
use beast_asio_standalone.Http.Names.{
  hash, slow, iequal, find_name, string_to_field, field_to_string,
}

-- Every field is found under its name.
pub string_to_field-field_to_string : (f : ℕ) → f < 353 → string_to_field (field_to_string f) ≡ f
unfolding all_below string_to_field find_name hash iequal slow ascii_tolower
string_to_field-field_to_string f h =
    ==→eq (string_to_field (field_to_string f)) f
      (all_below_sound 353 (λ i. string_to_field (field_to_string i) == i) f h refl)

same_case : (a b : ℕ) → a ≡ b → (a != b) ≡ false
same_case a b h = ground arith

slow-last :
    (a b x y : ℕ) (s : List ℕ)
    → ascii_tolower a ≡ ascii_tolower b
    → slow a b (s ++ x ∷ []) (s ++ y ∷ []) ≡ true
unfolding slow
slow-last a b x y [] h = rw (same_case (ascii_tolower a) (ascii_tolower b) h) refl
slow-last a b x y (c ∷ []) h =
    rw (same_case (ascii_tolower a) (ascii_tolower b) h) (slow-last c c x y [] refl)
slow-last a b x y (c ∷ d ∷ s) h =
    rw (same_case (ascii_tolower a) (ascii_tolower b) h) (slow-last c c x y (d ∷ s) refl)

-- Two names that begin with the same letter in another case and go on alike are equal for `iequal`,
-- whatever their last characters are.
pub iequal-last :
    (a b x y : ℕ) (s : List ℕ)
    → a ≢ b
    → ascii_tolower a ≡ ascii_tolower b
    → iequal (a ∷ (s ++ x ∷ [])) (b ∷ (s ++ y ∷ [])) ≡ true
unfolding iequal
iequal-last a b x y s differ h = rw (other_case a b differ) (slow-last a b x y s h)
  where
    other_case : (c d : ℕ) → c ≢ d → (c != d) ≡ true
    other_case c d e = ground arith

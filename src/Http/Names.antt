-- ===== src/Http/Names.antt =====
-- The names of the fields (http/impl/field.ipp). A field is the number of its name in the table, which
-- is the value that http/field.hpp gives to its enumerator.
pub mod Search
pub mod Table
use beast_asio_standalone.Prelude.{
  ℕ, ◌+◌, ◌-◌, ◌*◌, ◌/◌, Bool, true, false, ◌&&◌, List, [], ◌∷◌, ◌==◌, ◌!=◌, if◌then◌else◌, length,
  get_or, bit_xor,
}
use beast_asio_standalone.Http.Text.{codes, ascii_tolower}
use beast_asio_standalone.Http.Names.Table.{by_name}

-- `hash`, of a name that is not empty
unfoldable pub hash : List ℕ → ℕ
hash s =
    bit_xor (ascii_tolower (get_or s 0 0) * ascii_tolower (get_or s (length s / 2) 0))
      (ascii_tolower (get_or s (length s - 1) 0))

-- `iequal`, whose arguments are equally long. From the first difference on: the characters that are
-- compared next, and those behind them. The loop ends where these are used up, before the last two
-- that it has read are compared.
unfoldable pub slow : ℕ → ℕ → List ℕ → List ℕ → Bool
slow a b (c ∷ d ∷ s) (e ∷ f ∷ t) =
    let more = slow c e (d ∷ s) (f ∷ t) in
    if ascii_tolower a != ascii_tolower b then false else more
slow a b s t = if ascii_tolower a != ascii_tolower b then false else true

unfoldable pub iequal : List ℕ → List ℕ → Bool
iequal (a ∷ s) (b ∷ t) = let more = iequal s t in if a != b then slow a b s t else more
iequal s t = true

-- `find` in the map for the size of the name: an element with the hash of the name that is equal to it
abbrev pub matches : List ℕ → List ℕ → Bool
matches s name = length name == length s && (hash name == hash s && iequal s name)

unfoldable pub find_name : ℕ → List (List ℕ) → List ℕ → ℕ
find_name i [] s = 0
find_name i (name ∷ names) s =
    let later = find_name (i + 1) names s in if matches s name then i else later

-- The first name of the table, `field::unknown`, is in no map.
abbrev pub known_names : List (List ℕ) → List (List ℕ)
known_names [] = []
known_names (unknown ∷ names) = names

unfoldable pub string_to_field : List ℕ → ℕ
unfolding find_name
string_to_field s = find_name 1 (known_names by_name) s

abbrev pub field_to_string : ℕ → List ℕ
field_to_string f = get_or by_name f []

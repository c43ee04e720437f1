-- ===== src/Websocket/Utf8/Spec.antt =====
-- RFC 3629, section 4: the syntax of UTF-8.
use beast_asio_standalone.Prelude.{ℕ, ◌≤◌, ◌<◌, ◌≡◌, List, [], ◌∷◌, ◌++◌}

-- `UTF8-tail`
abbrev pub IsTail : ℕ → Type 0
IsTail v = (128 ≤ v) × (v < 192)

-- `UTF8-char`, by the number of its octets
abbrev pub IsCodePoint : List ℕ → Type 0
IsCodePoint (a ∷ []) = a < 128
IsCodePoint (a ∷ b ∷ []) = (194 ≤ a) × (a < 224) × IsTail b
IsCodePoint (a ∷ b ∷ c ∷ []) =
    (224 ≤ a) × (a < 240) × IsTail b × IsTail c × (a ≡ 224 → 160 ≤ b) × (a ≡ 237 → b < 160)
IsCodePoint (a ∷ b ∷ c ∷ d ∷ []) =
    (240 ≤ a)
    × (a ≤ 244)
    × IsTail b
    × IsTail c
    × IsTail d
    × (a ≡ 240 → 144 ≤ b)
    × (a ≡ 244 → b < 144)
IsCodePoint _ = ⊥

-- `UTF8-octets`
pub data IsUtf8 : List ℕ → Type 0 where
  empty : IsUtf8 []
  more :
      {text : List ℕ} (c rest : List ℕ)
      → IsCodePoint c
      → IsUtf8 rest
      → text ≡ c ++ rest
      → IsUtf8 text

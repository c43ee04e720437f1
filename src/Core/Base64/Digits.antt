-- ===== src/Core/Base64/Digits.antt =====
-- The digits of base64: the two tables are inverse, and the masks cut bytes into digits.
use beast_asio_standalone.Prelude.{
  ℕ, ◌/◌, ◌%◌, ◌<◌, ◌≡◌, refl, bit_and, Bool, true, false, ◌&&◌, none, some, ◌==◌, arith,
}
use beast_asio_standalone.Prelude.Bits.{IsByte, all_below, all_below_sound, by_table}
use beast_asio_standalone.Core.Base64.{tab, pad, inverse}

-- a digit is read back from its character, which is no padding
abbrev reads_back : ℕ → Bool
reads_back v = elim (inverse (tab v)) [
  | none ↦ false
  | some w ↦ v == w && (elim (tab v == pad) [ true ↦ false | false ↦ true ])
]

table : all_below 64 reads_back ≡ true
unfolding all_below inverse
table = refl

pub inverse-tab : (v : ℕ) → v < 64 → (inverse (tab v) ≡ some v) × ((tab v == pad) ≡ false)
inverse-tab v h = ground (arith, all_below_sound 64 reads_back v h table)

pub high_six : (x : ℕ) → IsByte x → bit_and x 0xfc / 4 ≡ x / 4
unfolding all_below
high_six x h = by_table (λ y. bit_and y 0xfc / 4) (λ y. y / 4) x refl h

pub low_two : (x : ℕ) → IsByte x → bit_and x 0x03 ≡ x % 4
unfolding all_below
low_two x h = by_table (λ y. bit_and y 0x03) (λ y. y % 4) x refl h

pub high_four : (x : ℕ) → IsByte x → bit_and x 0xf0 / 16 ≡ x / 16
unfolding all_below
high_four x h = by_table (λ y. bit_and y 0xf0 / 16) (λ y. y / 16) x refl h

pub high_two : (x : ℕ) → IsByte x → bit_and x 0xc0 / 64 ≡ x / 64
unfolding all_below
high_two x h = by_table (λ y. bit_and y 0xc0 / 64) (λ y. y / 64) x refl h

pub low_four : (x : ℕ) → IsByte x → bit_and x 0x0f ≡ x % 16
unfolding all_below
low_four x h = by_table (λ y. bit_and y 0x0f) (λ y. y % 16) x refl h

pub low_six : (x : ℕ) → IsByte x → bit_and x 0x3f ≡ x % 64
unfolding all_below
low_six x h = by_table (λ y. bit_and y 0x3f) (λ y. y % 64) x refl h

pub mid_two : (x : ℕ) → IsByte x → bit_and x 0x30 / 16 ≡ x / 16 % 4
unfolding all_below
mid_two x h = by_table (λ y. bit_and y 0x30 / 16) (λ y. y / 16 % 4) x refl h

pub mid_four : (x : ℕ) → IsByte x → bit_and x 0x3c / 4 ≡ x / 4 % 16
unfolding all_below
mid_four x h = by_table (λ y. bit_and y 0x3c / 4) (λ y. y / 4 % 16) x refl h

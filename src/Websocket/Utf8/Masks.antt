-- ===== src/Websocket/Utf8/Masks.antt =====
-- The masks of the checker as ranges, found by trying every byte.
use beast_asio_standalone.Prelude.{
  ℕ, ◌≡◌, refl, bit_and, Bool, true, not, ◌&&◌, leb, ◌==◌, ◌!=◌, if◌then◌else◌, arith,
}
use beast_asio_standalone.Prelude.Bits.{IsByte, all_below, all_below_sound}

-- a test on a byte that holds exactly in the range from `low` to `high`
abbrev agrees : (ℕ → Bool) → ℕ → ℕ → ℕ → Bool
agrees test low high v = if test v then leb low v && leb v high else not (leb low v && leb v high)

in_range :
    (test : ℕ → Bool) (low high v : ℕ)
    → IsByte v
    → all_below 256 (agrees test low high) ≡ true
    → test v ≡ (leb low v && leb v high)
in_range test low high v b h = ground (arith, all_below_sound 256 (agrees test low high) v b h)

pub lead_two : (v : ℕ) → IsByte v → (bit_and v 0xe0 == 0xc0) ≡ (leb 192 v && leb v 223)
unfolding all_below
lead_two v b = in_range (λ v. bit_and v 0xe0 == 0xc0) 192 223 v b refl

pub overlong_two : (v : ℕ) → IsByte v → (bit_and v 0xfe == 0xc0) ≡ (leb 192 v && leb v 193)
unfolding all_below
overlong_two v b = in_range (λ v. bit_and v 0xfe == 0xc0) 192 193 v b refl

pub lead_three : (v : ℕ) → IsByte v → (bit_and v 0xf0 == 0xe0) ≡ (leb 224 v && leb v 239)
unfolding all_below
lead_three v b = in_range (λ v. bit_and v 0xf0 == 0xe0) 224 239 v b refl

pub lead_four : (v : ℕ) → IsByte v → (bit_and v 0xf8 == 0xf0) ≡ (leb 240 v && leb v 247)
unfolding all_below
lead_four v b = in_range (λ v. bit_and v 0xf8 == 0xf0) 240 247 v b refl

pub overlong_three : (v : ℕ) → IsByte v → (bit_and v 0xe0 == 0x80) ≡ (leb 128 v && leb v 159)
unfolding all_below
overlong_three v b = in_range (λ v. bit_and v 0xe0 == 0x80) 128 159 v b refl

pub surrogate : (v : ℕ) → IsByte v → (bit_and v 0xe0 == 0xa0) ≡ (leb 160 v && leb v 191)
unfolding all_below
surrogate v b = in_range (λ v. bit_and v 0xe0 == 0xa0) 160 191 v b refl

pub overlong_four : (v : ℕ) → IsByte v → (bit_and v 0xf0 == 0x80) ≡ (leb 128 v && leb v 143)
unfolding all_below
overlong_four v b = in_range (λ v. bit_and v 0xf0 == 0x80) 128 143 v b refl

pub high_bit : (v : ℕ) → IsByte v → (bit_and v 0x80 != 0) ≡ (leb 128 v && leb v 255)
unfolding all_below
high_bit v b = in_range (λ v. bit_and v 0x80 != 0) 128 255 v b refl

pub tail_byte : (v : ℕ) → IsByte v → (bit_and v 0xc0 == 0x80) ≡ (leb 128 v && leb v 191)
unfolding all_below
tail_byte v b = in_range (λ v. bit_and v 0xc0 == 0x80) 128 191 v b refl

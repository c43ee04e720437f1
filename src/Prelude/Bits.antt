-- ===== src/Prelude/Bits.antt =====
-- Bytes, and facts about the bit operations: equations for the lowest digit, masks as remainders,
-- and a check of every byte by evaluation.
use Prim.Native.Nat.{
  ℕ, zero, suc, ◌+◌, ◌*◌, ◌/◌, ◌%◌, ◌^◌, ◌≤◌, ◌<◌, min, max, digits, bitwise, differ, bit_and,
  bit_or, bit_xor, bit_and-bitwise, bit_or-bitwise, bit_xor-bitwise,
}
use mathlib.Core.Path.{◌≡◌, refl, ap}
use mathlib.Core.Bool.{Bool, true, false, ◌&&◌}
use beast_asio_standalone.Prelude.Tests.{◌==◌, ==→eq}
use native.Mathlib.Nat.{le_refl, pow-suc}
use native.Mathlib.Omega.{arith}

abbrev pub IsByte : ℕ → Type 0
IsByte b = b < 256

-- A test that every number below a bound passes, checked by evaluation.
unfoldable pub all_below : ℕ → (ℕ → Bool) → Bool
all_below zero test = true
all_below (suc bound) test = all_below bound test && test bound

pub all_below_sound :
    (bound : ℕ) (test : ℕ → Bool) (v : ℕ) → v < bound → all_below bound test ≡ true → test v ≡ true
unfolding all_below
all_below_sound zero test v below passed = elim below [ ]
all_below_sound (suc bound) test v below passed =
    ground (arith, λ (q : v < bound). all_below_sound bound test v q)

unfoldable pub all_bool : (Bool → Bool) → Bool
all_bool test = test false && test true

pub all_bool_sound : (test : Bool → Bool) (flag : Bool) → all_bool test ≡ true → test flag ≡ true
unfolding all_bool
all_bool_sound test true passed = ground arith
all_bool_sound test false passed = ground arith

-- The native operations recur on a count of digits to go. A count that is at least the first
-- number is as good as that number itself, so the count can be dropped.
module _ (rest : ℕ → ℕ) (digit : ℕ → ℕ → ℕ) where
  count_suffices :
      (k l a b : ℕ) → (a ≤ k) × (a ≤ l) → digits rest digit k a b ≡ digits rest digit l a b
  count_suffices (suc k) (suc l) (suc a) b h =
      ap (λ t. t * 2 + digit (suc a % 2) (b % 2))
        (count_suffices k l (suc a / 2) (b / 2) (omega arith))
  count_suffices zero l (suc a) b h = absurd (omega arith)
  count_suffices (suc k) zero (suc a) b h = absurd (omega arith)
  count_suffices zero zero zero b h = refl
  count_suffices zero (suc l) zero b h = refl
  count_suffices (suc k) zero zero b h = refl
  count_suffices (suc k) (suc l) zero b h = refl

  lowest_digit :
      (a b : ℕ)
      → bitwise rest digit (suc a) b
        ≡ bitwise rest digit (suc a / 2) (b / 2) * 2 + digit (suc a % 2) (b % 2)
  lowest_digit a b =
      ap (λ t. t * 2 + digit (suc a % 2) (b % 2))
        (count_suffices a (suc a / 2) (suc a / 2) (b / 2) (omega arith, le_refl _))

differ_digits : (x y : ℕ) → x < 2 → y < 2 → differ x y ≡ (x + y) % 2
differ_digits zero y hx hy = omega arith
differ_digits (suc zero) zero hx hy = refl
differ_digits (suc zero) (suc zero) hx hy = refl
differ_digits (suc zero) (suc (suc y)) hx hy = absurd (omega arith)
differ_digits (suc (suc x)) y hx hy = absurd (omega arith)

pub bit_and_step : (a b : ℕ) → bit_and a b ≡ bit_and (a / 2) (b / 2) * 2 + min (a % 2) (b % 2)
bit_and_step (suc a) b = simp bit_and-bitwise (lowest_digit (λ y. 0) min a b)
bit_and_step zero b = simp bit_and-bitwise (omega arith)

pub bit_or_step : (a b : ℕ) → bit_or a b ≡ bit_or (a / 2) (b / 2) * 2 + max (a % 2) (b % 2)
bit_or_step (suc a) b = simp bit_or-bitwise (lowest_digit (λ y. y) max a b)
bit_or_step zero b = simp bit_or-bitwise (omega arith)

pub bit_xor_step : (a b : ℕ) → bit_xor a b ≡ bit_xor (a / 2) (b / 2) * 2 + (a % 2 + b % 2) % 2
bit_xor_step (suc a) b =
    rw (← differ_digits (suc a % 2) (b % 2) (omega arith) (omega arith))
      (simp bit_xor-bitwise (lowest_digit (λ y. y) differ a b))
bit_xor_step zero b = simp bit_xor-bitwise (omega arith)

bit_xor_half : (a b : ℕ) → bit_xor a b / 2 ≡ bit_xor (a / 2) (b / 2)
bit_xor_half a b = omega (arith, bit_xor_step a b)

-- `x ^ k ^ k` is `x`, at every width: from the halves, so by recursion on a bound of both.
xor_twice_below : (n a b : ℕ) → a ≤ n → b ≤ n → bit_xor (bit_xor a b) b ≡ a
xor_twice_below zero zero zero ha hb = refl
xor_twice_below zero (suc a) b ha hb = absurd (omega arith)
xor_twice_below zero zero (suc b) ha hb = absurd (omega arith)
xor_twice_below (suc n) a b ha hb = omega (
  arith,
  bit_xor_step (bit_xor a b) b,
  bit_xor_step a b,
  ap (λ t. bit_xor t (b / 2)) (bit_xor_half a b),
  xor_twice_below n (a / 2) (b / 2) (omega arith) (omega arith),
)

pub bit_xor_twice : (a b : ℕ) → bit_xor (bit_xor a b) b ≡ a
bit_xor_twice a b = xor_twice_below (a + b) a b (omega arith) (omega arith)

bit_xor-lt : (k a b : ℕ) → a < 2 ^ k → b < 2 ^ k → bit_xor a b < 2 ^ k
bit_xor-lt zero zero zero ha hb = omega arith
bit_xor-lt zero (suc a) b ha hb = absurd (omega arith)
bit_xor-lt zero zero (suc b) ha hb = absurd (omega arith)
bit_xor-lt (suc k) a b ha hb = omega (
  arith,
  bit_xor_step a b,
  pow-suc 2 k,
  bit_xor-lt k (a / 2) (b / 2) (omega (arith, pow-suc 2 k)) (omega (arith, pow-suc 2 k)),
)

pub bit_xor-IsByte : (a b : ℕ) → IsByte a → IsByte b → IsByte (bit_xor a b)
bit_xor-IsByte a b ha hb = bit_xor-lt 8 a b ha hb

zero_below : (n a : ℕ) → a ≤ n → bit_and a 0 ≡ 0
zero_below zero zero h = refl
zero_below zero (suc a) h = absurd (omega arith)
zero_below (suc n) a h = omega (arith, bit_and_step a 0, zero_below n (a / 2) (omega arith))

bit_and-zero : (a : ℕ) → bit_and a 0 ≡ 0
bit_and-zero a = zero_below a a (le_refl a)

-- One digit of a mask, by what the mask has there.
or_clear : (m v : ℕ) → m % 2 ≡ 0 → bit_or m v ≡ bit_or (m / 2) (v / 2) * 2 + v % 2
or_clear m v h = omega (arith, bit_or_step m v)

and_set : (m v : ℕ) → m % 2 ≡ 1 → bit_and v m ≡ bit_and (v / 2) (m / 2) * 2 + v % 2
and_set m v h = omega (arith, bit_and_step v m)

-- `v & 0xff`, whatever the width of `v`
pub and_low_eight : (v : ℕ) → bit_and v 0xff ≡ v % 256
and_low_eight v = omega (
  arith,
  and_set 0xff v refl,
  and_set 0x7f (v / 2) refl,
  and_set 0x3f (v / 2 / 2) refl,
  and_set 0x1f (v / 2 / 2 / 2) refl,
  and_set 0xf (v / 2 / 2 / 2 / 2) refl,
  and_set 7 (v / 2 / 2 / 2 / 2 / 2) refl,
  and_set 3 (v / 2 / 2 / 2 / 2 / 2 / 2) refl,
  and_set 1 (v / 2 / 2 / 2 / 2 / 2 / 2 / 2) refl,
  bit_and-zero (v / 2 / 2 / 2 / 2 / 2 / 2 / 2 / 2),
)

-- `v & 0xf`, whatever the width of `v`
pub and_low_four : (v : ℕ) → bit_and v 0xf ≡ v % 16
and_low_four v = omega (
  arith,
  and_set 0xf v refl,
  and_set 7 (v / 2) refl,
  and_set 3 (v / 2 / 2) refl,
  and_set 1 (v / 2 / 2 / 2) refl,
  bit_and-zero (v / 2 / 2 / 2 / 2),
)

-- Masks over a byte, by evaluation at each of its values.
pub by_table : (f g : ℕ → ℕ) (x : ℕ) → all_below 256 (λ y. f y == g y) ≡ true → IsByte x → f x ≡ g x
by_table f g x h hx = ==→eq (f x) (g x) (all_below_sound 256 (λ y. f y == g y) x hx h)

pub and_low_seven : (b : ℕ) → IsByte b → bit_and b 0x7f ≡ b % 128
unfolding all_below
and_low_seven b h = by_table (λ y. bit_and y 0x7f) (λ y. y % 128) b refl h

pub and_top : (b : ℕ) → IsByte b → bit_and b 0x80 ≡ b / 128 * 128
unfolding all_below
and_top b h = by_table (λ y. bit_and y 0x80) (λ y. y / 128 * 128) b refl h

-- `(uint8)(0x80 | v)`, whatever the width of `v`
pub or_top : (v : ℕ) → bit_or 0x80 v % 256 ≡ v % 128 + 128
or_top v = omega (
  arith,
  or_clear 0x80 v refl,
  or_clear 64 (v / 2) refl,
  or_clear 32 (v / 2 / 2) refl,
  or_clear 16 (v / 2 / 2 / 2) refl,
  or_clear 8 (v / 2 / 2 / 2 / 2) refl,
  or_clear 4 (v / 2 / 2 / 2 / 2 / 2) refl,
  or_clear 2 (v / 2 / 2 / 2 / 2 / 2 / 2) refl,
  bit_or_step 1 (v / 2 / 2 / 2 / 2 / 2 / 2 / 2),
)

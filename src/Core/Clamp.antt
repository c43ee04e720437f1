-- ===== src/Core/Clamp.antt =====
-- core/detail/clamp.hpp. `UInt` is an unsigned type of any width, `std::size_t` has 64 bits.
use beast_asio_standalone.Prelude.{
  ℕ, ◌+◌, ◌-◌, ◌^◌, ◌<◌, min, ◌≡◌, ◌↔◌, Bool, true, ◌||◌, arith, leb, ltb, if◌then◌else◌,
}

-- `std::numeric_limits<std::size_t>::max()`
abbrev pub size_max : ℕ
size_max = 2 ^ 64 - 1

unfoldable pub clamp : ℕ → ℕ
clamp x = if leb size_max x then size_max else x

unfoldable pub clamp_limit : ℕ → ℕ → ℕ
clamp_limit x limit = if leb limit x then limit else x

-- The subtraction `z - y` is made only where `y <= z`, so it does not wrap.
unfoldable pub sum_exceeds : ℕ → ℕ → ℕ → Bool
sum_exceeds x y z = ltb z y || ltb (z - y) x

-- `clamp` is the lesser of the number and the limit, in both its forms.
pub clamp-eq-min : (x limit : ℕ) → (clamp x ≡ min x size_max) × (clamp_limit x limit ≡ min x limit)
unfolding clamp clamp_limit
clamp-eq-min x limit = (ground arith, ground arith)

-- `sum_exceeds` tells exactly when the sum passes the bound, with no addition that could wrap.
pub sum_exceeds_iff : (x y z : ℕ) → (sum_exceeds x y z ≡ true) ↔ (z < x + y)
unfolding sum_exceeds
sum_exceeds_iff x y z = ground arith

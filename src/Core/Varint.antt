-- ===== src/Core/Varint.antt =====
-- core/detail/varint.hpp. Bytes go out through an iterator and come in through one: a list of bytes
-- written, and the list of bytes that stand before the reader. `std::size_t` has 64 bits.
pub mod RoundTrip
use mathlib.Core.WellFounded.{Acc, WellFounded}
use native.Mathlib.Decide.{dec_lt}
use mathlib.Core.Logic.{dite}
use beast_asio_standalone.Prelude.{
  ℕ, ◌+◌, ◌*◌, ◌/◌, ◌%◌, ◌^◌, ◌<◌, bit_and, bit_or, Option, none, some, List, [], ◌∷◌, arith, lt_wf,
  ◌!=◌, if◌then◌else◌,
}

-- `while(value > 127) { ++n; value /= 128; }`
size_loop : (n value : ℕ) → Acc ◌<◌ value → ℕ
size_loop n value (Acc.intro _ smaller) =
    dite (dec_lt 127 value)
      (λ h. size_loop (n + 1) (value / 128) (smaller (value / 128) (omega arith))) (λ _. n)

pub varint_size : ℕ → ℕ
unfolding size_loop lt_wf dec_lt
varint_size value = size_loop 1 value (lt_wf.apply value)

-- the bytes that are written; the cast to the one-byte type keeps the low eight bits
write_loop : (value : ℕ) → Acc ◌<◌ value → List ℕ
write_loop value (Acc.intro _ smaller) =
    dite (dec_lt 127 value)
      (λ h.
        bit_or 0x80 value % 256 ∷ write_loop (value / 128) (smaller (value / 128) (omega arith)))
      (λ _. value % 256 ∷ [])

pub varint_write : ℕ → List ℕ
unfolding write_loop lt_wf dec_lt
varint_write value = write_loop value (lt_wf.apply value)

-- The value and what is left to read; `none` is a read behind the last byte.
read_loop : List ℕ → ℕ → ℕ → Option (ℕ × List ℕ)
read_loop [] value factor = none
read_loop (b ∷ bs) value factor =
    let more = read_loop bs ((value + bit_and b 0x7f * factor) % 2 ^ 64) (factor * 128 % 2 ^ 64) in
    if bit_and b 0x80 != 0 then more else some ((value + b * factor) % 2 ^ 64, bs)

pub varint_read : List ℕ → Option (ℕ × List ℕ)
unfolding read_loop
varint_read bs = read_loop bs 0 1

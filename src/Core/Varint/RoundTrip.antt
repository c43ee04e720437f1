-- ===== src/Core/Varint/RoundTrip.antt =====
-- What is written is read back, and takes the size that is announced.
use mathlib.Core.WellFounded.{Acc}
use mathlib.Core.Logic.{dif_pos, dif_neg}
use native.Mathlib.Decide.{dec_lt}
use native.Mathlib.Bridge.{le_prop}
use native.Mathlib.Nat.{div-add-mod, mod-eq_of_lt}
use beast_asio_standalone.Prelude.{
  ℕ, ◌+◌, ◌*◌, ◌/◌, ◌%◌, ◌^◌, ◌<◌, ◌≤◌, ◌≡◌, ap, ◌∙◌, some, List, ◌∷◌, ◌++◌, arith, lt_wf, length,
}
use beast_asio_standalone.Prelude.Bits.{and_low_seven, and_top, or_top}
use beast_asio_standalone.Core.Varint.{
  size_loop, varint_size, write_loop, varint_write, read_loop, varint_read,
}

-- One more group: its share of the value leaves the accumulator, and no product wraps.
regroup : (v f : ℕ) → v * f ≡ v % 128 * f + v / 128 * (f * 128)
regroup v f = omega (arith, ap (λ (t : ℕ). t * f) (div-add-mod v 128))

group_fits : (v f : ℕ) → 127 < v → f * 128 ≤ v * f
group_fits v f h = grind arith

-- One round of the reader: on a byte with the top bit set over the group `g`, and on a last byte.
read_more :
    (g acc f : ℕ) (bs : List ℕ)
    → g < 128
    → acc + g * f < 2 ^ 64
    → f * 128 < 2 ^ 64
    → read_loop ((g + 128) ∷ bs) acc f ≡ read_loop bs (acc + g * f) (f * 128)
unfolding read_loop
read_more g acc f bs hg fits hf =
    ground (arith, and_low_seven (g + 128) (omega arith), and_top (g + 128) (omega arith))

read_last :
    (b acc f : ℕ) (bs : List ℕ)
    → b < 128
    → acc + b * f < 2 ^ 64
    → read_loop (b ∷ bs) acc f ≡ some (acc + b * f, bs)
unfolding read_loop
read_last b acc f bs hb fits = ground (arith, and_top b (omega arith))

read_loop-write_loop :
    (v : ℕ) (w : Acc ◌<◌ v) (acc f : ℕ) (rest : List ℕ)
    → acc + v * f < 2 ^ 64
    → read_loop (write_loop v w ++ rest) acc f ≡ some (acc + v * f, rest)
unfolding write_loop
read_loop-write_loop v (Acc.intro _ smaller) acc f rest h = elim (dec_lt 127 v) [
  | yes p ↦
      rw (dif_pos _ le_prop p, or_top v)
        (read_more (v % 128) acc f _ (omega arith) (omega (arith, regroup v f))
            (omega (arith, group_fits v f p))
          ∙ read_loop-write_loop (v / 128) (smaller (v / 128) _) (acc + v % 128 * f) (f * 128) rest
              (omega (arith, regroup v f))
          ∙ ap (λ t. some (t, rest)) (omega (arith, regroup v f)))
  | no p ↦
      rw (dif_neg _ p)
        (rw (mod-eq_of_lt {n = v} {m = 256} (omega arith)) (read_last v acc f rest (omega arith) h))
]

length-write_loop : (v n : ℕ) (w : Acc ◌<◌ v) → length (write_loop v w) + n ≡ size_loop n v w + 1
unfolding write_loop size_loop
length-write_loop v n (Acc.intro _ smaller) =
    grind (arith, λ (p : v / 128 < v). length-write_loop (v / 128) (n + 1) (smaller (v / 128) p))

-- What `varint_write` writes is read back by `varint_read`, which leaves the bytes that follow, and
-- its size is the one that `varint_size` announces.
pub varint_read-varint_write :
    (v : ℕ) (rest : List ℕ)
    → v < 2 ^ 64
    → (varint_read (varint_write v ++ rest) ≡ some (v, rest))
      × (length (varint_write v) ≡ varint_size v)
unfolding varint_read varint_write varint_size
varint_read-varint_write v rest h = (
  ground (arith, read_loop-write_loop v (lt_wf.apply v) 0 1 rest),
  omega (arith, length-write_loop v 1 (lt_wf.apply v)),
)

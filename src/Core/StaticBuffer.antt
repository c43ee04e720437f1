-- ===== src/Core/StaticBuffer.antt =====
-- core/static_buffer.hpp and core/impl/static_buffer.ipp: a ring in a block of memory. The memory
-- is a function from offsets off `begin_`.
pub mod Ring
mod Cells
pub mod Output
pub mod Queue
mod Samples
use beast_asio_standalone.Prelude.{
  ℕ, zero, suc, ◌+◌, ◌-◌, ◌%◌, min, Bool, ◌&&◌, Option, none, some, List, [], ◌∷◌, ◌++◌, leb, ltb,
  if◌then◌else◌, length, get_or, take, drop,
}

pub record StaticBuffer : Type 0 where
  pub mem : ℕ → ℕ
  pub capacity : ℕ
  pub in_off : ℕ
  pub in_size : ℕ
  pub out_size : ℕ

-- the constructor, and `reset`
abbrev pub init : (ℕ → ℕ) → ℕ → StaticBuffer
init p size = record { mem = p; capacity = size; in_off = 0; in_size = 0; out_size = 0 }

-- the bytes of a region of memory
abbrev pub region : (ℕ → ℕ) → ℕ → ℕ → List ℕ
region m off zero = []
region m off (suc n) = m off ∷ region m (off + 1) n

-- the memory after bytes have been put into it
abbrev pub write_at : ℕ → List ℕ → (ℕ → ℕ) → ℕ → ℕ
write_at off xs m a = if leb off a && ltb a (off + length xs) then get_or xs (a - off) 0 else m a

-- the bytes of the two buffers of `data()`, and of `mutable_data()`
unfoldable pub contents : StaticBuffer → List ℕ
contents b =
    if leb (b.in_off + b.in_size) b.capacity
    then region b.mem b.in_off b.in_size ++ region b.mem 0 0
    else region b.mem b.in_off (b.capacity - b.in_off)
      ++ region b.mem 0 (b.in_size - (b.capacity - b.in_off))

-- a `mutable_buffer`: where it begins, off `begin_`, and its size
pub record MutableBuffer : Type 0 where
  pub off : ℕ
  pub size : ℕ

-- `mutable_buffers_type`, an array of two
pub record MutableBuffers : Type 0 where
  pub first : MutableBuffer
  pub second : MutableBuffer

abbrev pub out_off : StaticBuffer → ℕ
out_off b = (b.in_off + b.in_size) % b.capacity

-- the two buffers of the output, once its size is set
unfoldable pub out_buffers : StaticBuffer → MutableBuffers
out_buffers b =
    if leb (out_off b + b.out_size) b.capacity
    then record {
      first = record { off = out_off b; size = b.out_size };
      second = record { off = 0; size = 0 };
    }
    else record {
      first = record { off = out_off b; size = b.capacity - out_off b };
      second = record { off = 0; size = b.out_size - (b.capacity - out_off b) };
    }

-- The ring, and the buffers that are returned; `none` is the `length_error`.
unfoldable pub prepare : ℕ → StaticBuffer → Option (StaticBuffer × MutableBuffers)
prepare size b =
    if ltb (b.capacity - b.in_size) size
    then none
    else let b' = record b { out_size = size } in some (b', out_buffers b')

-- Bytes that a caller, or `buffer_copy`, puts into two buffers, in order; what they have no room for
-- is left out.
abbrev pub put_into : MutableBuffers → List ℕ → (ℕ → ℕ) → ℕ → ℕ
put_into buffers xs m =
    write_at buffers.second.off (take buffers.second.size (drop buffers.first.size xs))
      (write_at buffers.first.off (take buffers.first.size xs) m)

abbrev pub store : MutableBuffers → List ℕ → StaticBuffer → StaticBuffer
store buffers xs b = record b { mem = put_into buffers xs b.mem }

-- bytes put into the buffers that `prepare` has returned
unfoldable pub fill : List ℕ → StaticBuffer → StaticBuffer
fill xs b = store (out_buffers b) xs b

unfoldable pub commit : ℕ → StaticBuffer → StaticBuffer
commit size b = record b { in_size = b.in_size + min size b.out_size; out_size = 0 }

unfoldable pub consume : ℕ → StaticBuffer → StaticBuffer
consume size b =
    if ltb size b.in_size
    then record b { in_off = (b.in_off + size) % b.capacity; in_size = b.in_size - size }
    else record b { in_off = 0; in_size = 0 }

-- `operator=`
unfoldable pub assign : StaticBuffer → StaticBuffer → Option StaticBuffer
assign other b = elim (prepare other.in_size (consume b.in_size b)) [
  | none ↦ none
  | some (b', buffers) ↦ some (commit other.in_size (store buffers (contents other) b'))
]

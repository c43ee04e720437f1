-- ===== src/Core/FlatBuffer.antt =====
-- core/flat_buffer.hpp and core/impl/flat_buffer.ipp: one block of memory, whose pointers are
-- offsets from `begin_`. The block is the list of its cells, empty where `begin_` is null.
pub mod Queue
pub mod Script
pub mod Copies
mod Samples
use beast_asio_standalone.Prelude.{
  ℕ, ◌+◌, ◌-◌, ◌*◌, ◌^◌, ◌%◌, ◌≤◌, ◌<◌, min, max, ◌≡◌, Bool, true, false, Option, none, some, List,
  [], ◌++◌, leb, ltb, ◌==◌, if◌then◌else◌, length, take, drop,
}
use beast_asio_standalone.Core.Clamp.{size_max}

pub record FlatBuffer : Type 0 where
  pub mem : List ℕ
  pub in_off : ℕ
  pub out_off : ℕ
  pub last_off : ℕ
  pub max_size : ℕ

-- `basic_flat_buffer(limit)`, and the default constructor
abbrev pub init : ℕ → FlatBuffer
init limit = record { mem = []; in_off = 0; out_off = 0; last_off = 0; max_size = limit }

abbrev pub default : FlatBuffer
default = init size_max

abbrev pub size : FlatBuffer → ℕ
size b = b.out_off - b.in_off

abbrev pub capacity : FlatBuffer → ℕ
capacity b = length b.mem

-- the bytes of `data()`
abbrev pub contents : FlatBuffer → List ℕ
contents b = take (size b) (drop b.in_off b.mem)

unfoldable pub commit : ℕ → FlatBuffer → FlatBuffer
commit n b = record b { out_off = b.out_off + min n (b.last_off - b.out_off) }

unfoldable pub consume : ℕ → FlatBuffer → FlatBuffer
consume n b =
    if leb (b.out_off - b.in_off) n
    then record b { in_off = 0; out_off = 0 }
    else record b { in_off = b.in_off + n }

-- What a caller does with the region that `prepare` returns: it puts bytes at its begin.
unfoldable pub fill : List ℕ → FlatBuffer → FlatBuffer
fill xs b = record b { mem = take b.out_off b.mem ++ (xs ++ drop (b.out_off + length xs) b.mem) }

-- The allocator gives a block of the size that is asked for, with anything in it.
pub record Allocator : Type 0 where
  pub allocate : ℕ → List ℕ
  pub allocate_lem : (n : ℕ) → length (allocate n) ≡ n

module _ (alloc : Allocator) where
  -- The region that is returned goes from `out_off` to `last_off`; `none` is the `length_error`.
  unfoldable pub prepare : ℕ → FlatBuffer → Option FlatBuffer
  prepare n b =
      let len = size b in
      if leb n (capacity b - b.out_off)
      then some (record b { last_off = b.out_off + n })
      else if leb n (capacity b - len)
      then some (record b {
        mem = contents b ++ drop len b.mem;
        in_off = 0;
        out_off = len;
        last_off = len + n;
      })
      else if ltb ((b.max_size + 2 ^ 64 - len) % 2 ^ 64) n
      then none
      else let new_size = min b.max_size (max (2 * len % 2 ^ 64) ((len + n) % 2 ^ 64)) in
        some (record b {
          mem = contents b ++ drop len (alloc.allocate new_size);
          in_off = 0;
          out_off = len;
          last_off = len + n;
        })

  unfoldable pub shrink_to_fit : FlatBuffer → FlatBuffer
  shrink_to_fit b =
      let len = size b in
      if len == capacity b then b else record b {
        mem = if ltb 0 len then contents b ++ drop len (alloc.allocate len) else [];
        in_off = 0;
        out_off = len;
        last_off = len;
      }

  unfoldable pub reset : FlatBuffer → FlatBuffer
  reset b = shrink_to_fit (consume (size b) b)

  -- from the bytes of the other buffer; an error leaves the buffer as it was
  unfoldable pub copy_from : List ℕ → FlatBuffer → Option FlatBuffer
  copy_from xs b = if length xs == 0 then some b else elim (prepare (length xs) b) [
    | none ↦ none
    | some b' ↦ some (commit (length xs) (fill xs b'))
  ]

  -- the copy constructor
  unfoldable pub copy : FlatBuffer → Option FlatBuffer
  copy other = copy_from (contents other) (init other.max_size)

  -- `operator=` from a buffer of another allocator
  unfoldable pub assign : FlatBuffer → FlatBuffer → Option FlatBuffer
  assign other b = copy_from (contents other) (record (reset b) { max_size = other.max_size })

-- The move constructor, by its initializers and its body: the new buffer, and what is left of the
-- other.
unfoldable pub move : FlatBuffer → FlatBuffer × FlatBuffer
move other = (
  record {
    mem = other.mem;
    in_off = other.in_off;
    out_off = other.out_off;
    last_off = other.out_off;
    max_size = other.max_size;
  },
  record { mem = []; in_off = 0; out_off = 0; last_off = 0; max_size = other.max_size },
)

-- `*this` and the other after the swap; `begin_` and `end_` go with the block
unfoldable pub swap : FlatBuffer → FlatBuffer → FlatBuffer × FlatBuffer
swap a b = (
  record {
    mem = b.mem;
    in_off = b.in_off;
    out_off = b.out_off;
    last_off = b.out_off;
    max_size = b.max_size;
  },
  record {
    mem = a.mem;
    in_off = a.in_off;
    out_off = a.out_off;
    last_off = a.out_off;
    max_size = a.max_size;
  },
)

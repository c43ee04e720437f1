-- ===== src/Core/StaticBuffer/Output.antt =====
-- The output of a ring: how it is cut into two buffers, and the cells after bytes have been put there.
use beast_asio_standalone.Prelude.{
  ℕ, ◌+◌, ◌-◌, ◌%◌, ◌≤◌, ◌<◌, ◌≡◌, refl, ap, ◌∙◌, ◌⊎◌, inl, inr, List, leb, ltb, if◌then◌else◌,
  length, get_or, take, drop, take_all, length-drop, arith, Bool-cases, leb→le, leb_false→lt,
}
use beast_asio_standalone.Core.StaticBuffer.{
  StaticBuffer, MutableBuffers, write_at, out_off, out_buffers, fill,
}
use beast_asio_standalone.Core.StaticBuffer.Ring.{wrap}
use beast_asio_standalone.Core.StaticBuffer.Cells.{mod_wrap, put, old_cell, new_cell}

-- how the output is cut into its two buffers
pub record Cut (b : StaticBuffer) (buffers : MutableBuffers) : Type 0 where
  pub first_off : buffers.first.off ≡ out_off b
  pub second_off : buffers.second.off ≡ 0
  pub sizes : buffers.first.size + buffers.second.size ≡ b.out_size
  pub in_block : buffers.first.size ≤ b.capacity - out_off b
  pub cut : (buffers.first.size ≡ b.capacity - out_off b) ⊎ (buffers.second.size ≡ 0)

pub out_buffers-Cut : (b : StaticBuffer) → Cut b (out_buffers b)
unfolding out_buffers
out_buffers-Cut b = elim (Bool-cases (leb (out_off b + b.out_size) b.capacity)) [
  | inl flat ↦ rw flat (record {
    first_off = refl;
    second_off = refl;
    sizes = omega arith;
    in_block = omega (arith, leb→le _ _ flat);
    cut = inr refl;
  })
  | inr split ↦ rw split (record {
    first_off = refl;
    second_off = refl;
    sizes = omega (arith, leb_false→lt _ _ split);
    in_block = omega arith;
    cut = inl refl;
  })
]

-- the place in the block of byte `i` of two buffers, one behind the other
abbrev pub place : MutableBuffers → ℕ → ℕ
place buffers i =
    if ltb i buffers.first.size
    then buffers.first.off + i
    else buffers.second.off + (i - buffers.first.size)

pub place-out_buffers :
    (b : StaticBuffer)
    → b.in_off < b.capacity
    → b.in_size + b.out_size ≤ b.capacity
    → (i : ℕ) → i < b.out_size
    → place (out_buffers b) i ≡ (b.in_off + b.in_size + i) % b.capacity
place-out_buffers b begins fits i h =
    let c = out_buffers-Cut b in
    let s = b.in_off + b.in_size in
    ground (
      arith,
      c.first_off,
      c.second_off,
      c.sizes,
      c.in_block,
      c.cut,
      begins,
      fits,
      mod_wrap s b.capacity (omega (arith, begins, fits)),
      mod_wrap (s + i) b.capacity (omega (arith, begins, fits)),
    )

module _ (b : StaticBuffer) (begins : b.in_off < b.capacity)
    (fits : b.in_size + b.out_size ≤ b.capacity) (xs : List ℕ) (room : length xs ≤ b.out_size) where
  o : ℕ
  o = out_off b

  r : ℕ
  r = (out_buffers b).first.size

  wrapped : o ≡ wrap b.capacity (b.in_off + b.in_size)
  unfolding o
  wrapped = mod_wrap (b.in_off + b.in_size) b.capacity (omega (arith, begins, fits))

  in_block : r ≤ b.capacity - o
  unfolding o r
  in_block = (out_buffers-Cut b).in_block

  cut : (r ≡ b.capacity - o) ⊎ (length xs ≤ r)
  unfolding o r
  cut = elim (out_buffers-Cut b).cut [
    | inl full ↦ inl full
    | inr only ↦ inr (omega (arith, only, (out_buffers-Cut b).sizes, room))
  ]

  abbrev cells : ℕ → ℕ
  cells = put b.mem b.capacity (b.in_off + b.in_size) o r xs wrapped in_block cut

  fill-cells : (fill xs b).mem ≡ cells
  unfolding fill put o r
  fill-cells =
      let c = out_buffers-Cut b in
      let B = out_buffers b in
      let all : take B.second.size (drop B.first.size xs) ≡ drop B.first.size xs =
        take_all B.second.size (drop B.first.size xs)
          (omega (arith, length-drop B.first.size xs, c.sizes, room)) in
      λ i. write_at (c.second_off i) (all i) (write_at (c.first_off i) (take B.first.size xs) b.mem)

  pub old_cells :
      (i : ℕ)
      → i < b.in_size
      → (fill xs b).mem (wrap b.capacity (b.in_off + i)) ≡ b.mem (wrap b.capacity (b.in_off + i))
  old_cells i less =
      ap (λ (m : ℕ → ℕ). m (wrap b.capacity (b.in_off + i))) fill-cells
      ∙ old_cell b.mem b.capacity (b.in_off + b.in_size) o r xs wrapped in_block cut b.in_off
          b.in_size refl begins (omega (arith, fits, room)) i less

  pub new_cells :
      (i : ℕ)
      → i < length xs
      → (fill xs b).mem (wrap b.capacity (b.in_off + b.in_size + i)) ≡ get_or xs i 0
  new_cells i less =
      ap (λ (m : ℕ → ℕ). m (wrap b.capacity (b.in_off + b.in_size + i))) fill-cells
      ∙ new_cell b.mem b.capacity (b.in_off + b.in_size) o r xs wrapped in_block cut b.in_off
          b.in_size refl begins (omega (arith, fits, room)) i less

-- ===== src/Core/StaticBuffer/Queue.antt =====
-- The ring as a queue of bytes.
use beast_asio_standalone.Prelude.{
  ℕ, ◌+◌, ◌-◌, ◌%◌, ◌≤◌, ◌<◌, ◌≡◌, refl, ap, ap₂, sym, ◌∙◌, Option, none, some, List, [], ◌++◌, ltb,
  length, drop, arith, Bool-cases, inl, inr, ltb→lt, ltb_false→le, drop-append, drop_past,
}
use mathlib.Core.Path.{subst}
use beast_asio_standalone.Core.StaticBuffer.{
  StaticBuffer, MutableBuffers, contents, prepare, out_buffers, store, fill, commit, consume,
  assign,
}
use beast_asio_standalone.Core.StaticBuffer.Ring.{
  wrap, ring, length-ring, ring-append, ring_same, ring_list, contents-ring,
}
use beast_asio_standalone.Core.StaticBuffer.Output.{
  out_buffers-Cut, old_cells, new_cells, place, place-out_buffers,
}
use beast_asio_standalone.Core.StaticBuffer.Cells.{mod_wrap}

-- The input and the output are within the block, which is not empty.
pub record IsRing (b : StaticBuffer) : Type 0 where
  pub begins : b.in_off < b.capacity
  pub fits : b.in_size + b.out_size ≤ b.capacity

pub length-contents : (b : StaticBuffer) → IsRing b → length (contents b) ≡ b.in_size
length-contents b w =
    ap (λ (t : List ℕ). length t) (contents-ring b (omega (arith, w.begins)))
    ∙ length-ring b.mem b.capacity b.in_off b.in_size

drop-ring : (m : ℕ → ℕ) (cap o k n : ℕ) → drop k (ring m cap o (k + n)) ≡ ring m cap (o + k) n
drop-ring m cap o k n =
    let size = length-ring m cap o k in
    ap (drop k) (ring-append m cap o k n)
    ∙ drop-append k (ring m cap o k) (ring m cap (o + k) n) (omega (arith, size))
    ∙ ap (λ t. t ++ ring m cap (o + k) n) (drop_past k (ring m cap o k) (omega (arith, size)))

commit-store-IsRing :
    (b : StaticBuffer)
    → IsRing b
    → (buffers : MutableBuffers) (xs : List ℕ) → length xs ≤ b.out_size
    → IsRing (commit (length xs) (store buffers xs b))
unfolding commit
commit-store-IsRing b w buffers xs room = record { begins = w.begins; fits = omega (arith, w.fits) }

module _ (b : StaticBuffer) (w : IsRing b) (xs : List ℕ) (room : length xs ≤ b.out_size) where
  commit-fill-ring :
      contents (commit (length xs) (fill xs b))
      ≡ ring (fill xs b).mem b.capacity b.in_off (b.in_size + length xs)
  unfolding commit fill
  commit-fill-ring =
      contents-ring (commit (length xs) (fill xs b)) (omega (arith, w.begins))
      ∙ ap (ring (fill xs b).mem b.capacity b.in_off) (omega (arith, room))

  pub contents-commit-fill : contents (commit (length xs) (fill xs b)) ≡ contents b ++ xs
  contents-commit-fill =
      let s = b.in_off + b.in_size in
      let m : ℕ → ℕ = (fill xs b).mem in
      commit-fill-ring
      ∙ ring-append m b.capacity b.in_off b.in_size (length xs)
      ∙ ap₂ (λ x y. x ++ y)
          (ring_same m b.mem b.capacity b.in_off b.in_off b.in_size
              (old_cells b w.begins w.fits xs room)
            ∙ sym (contents-ring b (omega (arith, w.begins))))
          (ring_list m b.capacity s xs (new_cells b w.begins w.fits xs room))

-- what `consume` leaves: the ring without the front bytes
pub record Consumed (n : ℕ) (b b' : StaticBuffer) : Type 0 where
  pub in_ring : IsRing b'
  pub left : contents b' ≡ drop n (contents b)
  pub capacity : b'.capacity ≡ b.capacity

module _ (n : ℕ) (b : StaticBuffer) (w : IsRing b) where
  rewound : StaticBuffer
  rewound = record b { in_off = 0; in_size = 0 }

  rewound-Consumed : b.in_size ≤ n → Consumed n b rewound
  unfolding rewound
  rewound-Consumed all = record {
    in_ring = record { begins = omega (arith, w.begins); fits = omega (arith, w.fits) };
    left =
        contents-ring rewound (omega arith)
        ∙ sym (drop_past n (contents b) (omega (arith, length-contents b w, all)));
    capacity = refl;
  }

  moved : StaticBuffer
  moved = record b { in_off = (b.in_off + n) % b.capacity; in_size = b.in_size - n }

  moved-Consumed : n < b.in_size → Consumed n b moved
  unfolding moved
  moved-Consumed part =
      let all : n + (b.in_size - n) ≡ b.in_size = omega (arith, part) in
      let e = mod_wrap (b.in_off + n) b.capacity (omega (arith, w.begins, w.fits, part)) in
      let inside : wrap b.capacity (b.in_off + n) < b.capacity = ground (arith, w.begins, w.fits) in
      record {
        in_ring = record { begins = omega (arith, e, inside); fits = omega (arith, w.fits) };
        left =
            contents-ring moved (omega (arith, e, inside))
            ∙ ap (λ o. ring b.mem b.capacity o (b.in_size - n)) e
            ∙ ring_same b.mem b.mem b.capacity (wrap b.capacity (b.in_off + n)) (b.in_off + n)
                (b.in_size - n) (λ i h. ap b.mem (ground (arith, w.begins, w.fits)))
            ∙ sym (drop-ring b.mem b.capacity b.in_off n (b.in_size - n))
            ∙ ap (drop n) (
                ap (ring b.mem b.capacity b.in_off) all
                ∙ sym (contents-ring b (omega (arith, w.begins))));
        capacity = refl;
      }

  -- On a ring in order, `consume` takes as many bytes off the front as it is told, all if there
  -- are fewer, leaves the others as they were, and keeps the order and the capacity.
  pub consume-Consumed : Consumed n b (consume n b)
  unfolding consume rewound moved
  consume-Consumed = elim (Bool-cases (ltb n b.in_size)) [
    | inl part ↦ rw part (moved-Consumed (ltb→lt _ _ part))
    | inr all ↦ rw all (rewound-Consumed (ltb_false→le _ _ all))
  ]

-- The two buffers are the `n` cells of the ring behind its bytes, and what a caller puts into them
-- and commits stands behind these.
pub record Region (n : ℕ) (b b' : StaticBuffer) (buffers : MutableBuffers) : Type 0 where
  pub sizes : buffers.first.size + buffers.second.size ≡ n
  pub places : (i : ℕ) → i < n → place buffers i ≡ (b.in_off + b.in_size + i) % b.capacity
  pub stored :
      (xs : List ℕ)
      → length xs ≤ n
      → contents (commit (length xs) (store buffers xs b')) ≡ contents b ++ xs

out_buffers-Region :
    (n : ℕ) (b : StaticBuffer)
    → IsRing (record b { out_size = n })
    → Region n b (record b { out_size = n }) (out_buffers (record b { out_size = n }))
unfolding fill
out_buffers-Region n b w =
    let b' : StaticBuffer = record b { out_size = n } in
    record {
      sizes = (out_buffers-Cut b').sizes;
      places = place-out_buffers b' w.begins w.fits;
      stored = λ xs h. contents-commit-fill b' w xs h ∙ (unfold contents in refl);
    }

-- what `prepare` leaves: the same bytes, and a region of `n` bytes
pub data Reserves (n : ℕ) (b : StaticBuffer) : Option (StaticBuffer × MutableBuffers) → Type 0 where
  overflow : b.capacity < b.in_size + n → Reserves n b none
  ready :
      (b' : StaticBuffer) (buffers : MutableBuffers)
      → b.in_size + n ≤ b.capacity
      → IsRing b'
      → contents b' ≡ contents b
      → b'.out_size ≡ n
      → Region n b b' buffers
      → Reserves n b (some (b', buffers))

-- On a ring in order, `prepare` throws where the block has no room for the bytes and as many more as
-- are asked for. Else it keeps the bytes and the order, and the two buffers that it returns have the
-- size that is asked for together; byte `i` of them, one behind the other, is the cell of the ring
-- that is `i` places behind the last byte; and bytes that are put into them, no more than their size,
-- and committed stand behind the ones that were there.
pub prepare-Reserves : (n : ℕ) (b : StaticBuffer) → IsRing b → Reserves n b (prepare n b)
unfolding prepare
prepare-Reserves n b w = elim (Bool-cases (ltb (b.capacity - b.in_size) n)) [
  | inl over ↦ rw over (Reserves.overflow (omega (arith, w.fits, ltb→lt _ _ over)))
  | inr room ↦
      let k = ltb_false→le _ _ room in
      let v : IsRing (record b { out_size = n }) = record {
        begins = w.begins;
        fits = omega (arith, w.fits, k);
      } in
      rw room (
        Reserves.ready (record b { out_size = n }) (out_buffers (record b { out_size = n }))
          (omega (arith, w.fits, k)) v (unfold contents in refl) refl (out_buffers-Region n b v))
]

-- a buffer in order that holds `xs`
pub record Holds (xs : List ℕ) (b : StaticBuffer) : Type 0 where
  pub in_ring : IsRing b
  pub bytes : contents b ≡ xs

filled :
    (xs : List ℕ) (n : ℕ) (b : StaticBuffer) {r : Option (StaticBuffer × MutableBuffers)}
    → length xs ≡ n
    → contents b ≡ []
    → b.in_size + n ≤ b.capacity
    → Reserves n b r
    → (c : StaticBuffer) × (elim r [
      | none ↦ none
      | some (b', buffers) ↦ some (commit n (store buffers xs b'))
    ]
        ≡ some c)
      × Holds xs c
filled xs n b size empty room (Reserves.overflow over) = absurd (omega arith)
filled xs n b size empty room (Reserves.ready b' buffers fits w same out region) =
    let k : length xs ≤ n = omega (arith, size) in
    (
      commit n (store buffers xs b'),
      refl,
      subst (λ j. Holds xs (commit j (store buffers xs b'))) size
          (record {
            in_ring = commit-store-IsRing b' w buffers xs (omega (arith, k, out));
            bytes = region.stored xs k ∙ ap (λ t. t ++ xs) empty;
          }),
    )

-- A ring in order that is assigned to another of the same capacity does not throw, and the other
-- is then in order and holds the same bytes.
pub assign-Holds :
    (other b : StaticBuffer)
    → IsRing other
    → IsRing b
    → other.capacity ≡ b.capacity
    → (c : StaticBuffer) × (assign other b ≡ some c) × Holds (contents other) c
unfolding assign
assign-Holds other b v w same =
    let d = consume-Consumed b.in_size b w in
    let empty = d.left ∙ drop_past b.in_size (contents b) (omega (arith, length-contents b w)) in
    let size = length-contents (consume b.in_size b) d.in_ring in
    filled (contents other) other.in_size (consume b.in_size b) (length-contents other v) empty
      (omega (arith, size, ap (λ (t : List ℕ). length t) empty, d.capacity, same, v.fits))
      (prepare-Reserves other.in_size (consume b.in_size b) d.in_ring)

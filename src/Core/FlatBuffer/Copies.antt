-- ===== src/Core/FlatBuffer/Copies.antt =====
-- Copies, assignment, moves and swaps of flat buffers.
use beast_asio_standalone.Prelude.{
  ℕ, suc, ◌-◌, ◌^◌, ◌≤◌, ◌<◌, ◌≡◌, refl, ap, ◌∙◌, false, Option, none, some, List, [], ◌∷◌, ◌++◌,
  arith, ◌==◌, length, take_all, drop_past,
}
use native.Mathlib.Nat.{le_refl}
use beast_asio_standalone.Core.FlatBuffer.{
  FlatBuffer, init, size, capacity, contents, commit, consume, fill, Allocator, reset, copy_from,
  copy, assign, move, swap,
}
use beast_asio_standalone.Core.FlatBuffer.Queue.{
  IsOrdered, length-contents, Prepares, prepare-Prepares, commit-fill-IsOrdered, commit-fill,
  consume-IsOrdered, contents-consume, shrink_to_fit-Shrunk,
}

-- a buffer in order that holds `xs`
pub record Holds (xs : List ℕ) (b : FlatBuffer) : Type 0 where
  pub ordered : IsOrdered b
  pub bytes : contents b ≡ xs

-- the result of a copy: `none` where the bytes are more than the limit
pub data Copies (limit : ℕ) (xs : List ℕ) : Option FlatBuffer → Type 0 where
  overflow : limit < length xs → Copies limit xs none
  copied : (b : FlatBuffer) → length xs ≤ limit → Holds xs b → Copies limit xs (some b)

not_zero : (n : ℕ) → (suc n == 0) ≡ false
not_zero n = ground arith

fits_limit : (b : FlatBuffer) → IsOrdered b → length (contents b) ≤ b.max_size
fits_limit b w = omega (arith, length-contents b w, w.out_last, w.last_end, w.in_limit)

-- a copy that does not throw, and what it holds
abbrev pub Succeeds : List ℕ → Option FlatBuffer → Type 0
Succeeds xs r = (c : FlatBuffer) × (r ≡ some c) × Holds xs c

succeeds :
    (limit : ℕ) (xs : List ℕ) {r : Option FlatBuffer}
    → length xs ≤ limit
    → Copies limit xs r
    → Succeeds xs r
succeeds limit xs le (Copies.overflow over) = absurd (omega arith)
succeeds limit xs le (Copies.copied c fits h) = (c, refl, h)

module _ (alloc : Allocator) where
  -- `reset` leaves an empty buffer with no memory.
  pub reset-Holds : (b : FlatBuffer) → IsOrdered b → Holds [] (reset alloc b)
  unfolding reset
  reset-Holds b w =
      let c = consume-IsOrdered (size b) b w in
      let s = shrink_to_fit-Shrunk alloc (consume (size b) b) c in
      record {
        ordered = s.ordered;
        bytes =
            s.same
            ∙ contents-consume (size b) b w
            ∙ drop_past (size b) (contents b) (omega (arith, length-contents b w));
      }

  capacity-reset : (b : FlatBuffer) → IsOrdered b → capacity (reset alloc b) ≡ 0
  unfolding reset
  capacity-reset b w =
      let c = consume-IsOrdered (size b) b w in
      let s = shrink_to_fit-Shrunk alloc (consume (size b) b) c in
      let none_left = drop_past (size b) (contents b) (omega (arith, length-contents b w)) in
      omega (
        arith,
        s.exact,
        length-contents (consume (size b) b) c,
        ap (λ (t : List ℕ). length t) (contents-consume (size b) b w ∙ none_left),
      )

  limited-Holds :
      (limit : ℕ) (b : FlatBuffer)
      → limit < 2 ^ 64
      → capacity b ≡ 0
      → Holds [] b
      → Holds [] (record b { max_size = limit })
  limited-Holds limit b h none_left k = record {
    ordered = record {
      in_out = k.ordered.in_out;
      out_last = k.ordered.out_last;
      last_end = k.ordered.last_end;
      in_limit = omega (arith, none_left);
      limit = h;
    };
    bytes = k.bytes;
  }

  filled :
      (x : ℕ) (xs : List ℕ) (b : FlatBuffer) {r : Option FlatBuffer}
      → contents b ≡ []
      → Prepares (length (x ∷ xs)) b r
      → IsOrdered b
      → Copies b.max_size
          (x ∷ xs)
          (elim r [ none ↦ none | some c ↦ some (commit (length (x ∷ xs)) (fill (x ∷ xs) c)) ])
  filled x xs b empty (Prepares.overflow over) w =
      Copies.overflow
        (omega (arith, over, length-contents b w, ap (λ (t : List ℕ). length t) empty))
  filled x xs b empty (Prepares.ready c fits p) w =
      let n = length (x ∷ xs) in
      let room : length (x ∷ xs) ≤ c.last_off - c.out_off = omega (arith, p.room) in
      Copies.copied (commit n (fill (x ∷ xs) c)) (omega (arith, fits)) (record {
        ordered = commit-fill-IsOrdered c p.ordered (x ∷ xs) room n;
        bytes =
            commit-fill c p.ordered (x ∷ xs) room n (le_refl _)
            ∙ ap (λ t. contents c ++ t) (take_all n (x ∷ xs) (le_refl _))
            ∙ ap (λ t. t ++ (x ∷ xs)) (p.same ∙ empty);
      })

  pub copy_from-Copies :
      (xs : List ℕ) (b : FlatBuffer) → Holds [] b → Copies b.max_size xs (copy_from alloc xs b)
  unfolding copy_from
  copy_from-Copies [] b h = Copies.copied b (omega arith) h
  copy_from-Copies (x ∷ xs) b h =
      rw (not_zero (length xs))
        (filled x xs b h.bytes (prepare-Prepares alloc (length (x ∷ xs)) b h.ordered) h.ordered)

  init-Holds : (limit : ℕ) → limit < 2 ^ 64 → Holds [] (init limit)
  init-Holds limit h = record {
    ordered = record {
      in_out = omega arith;
      out_last = omega arith;
      last_end = omega arith;
      in_limit = omega arith;
      limit = h;
    };
    bytes = refl;
  }

  -- A copy of a buffer in order does not throw, and holds the bytes of the other, in order; and so
  -- does the assignment over a buffer in order.
  pub copy-Holds :
      (other b : FlatBuffer)
      → IsOrdered other
      → IsOrdered b
      → Succeeds (contents other) (copy alloc other)
        × Succeeds (contents other) (assign alloc other b)
  unfolding copy assign
  copy-Holds other b w v =
      let xs = contents other in
      let limit = other.max_size in
      (
        succeeds limit xs (fits_limit other w)
            (copy_from-Copies xs (init limit) (init-Holds limit w.limit)),
        succeeds limit xs (fits_limit other w) (
            copy_from-Copies xs (record (reset alloc b) { max_size = limit })
              (limited-Holds limit (reset alloc b) w.limit (capacity-reset b v) (reset-Holds b v))),
      )

-- A buffer in order that holds `xs`, with a limit and a capacity, whose output is empty: nothing that
-- was prepared before can be committed.
pub record Released (xs : List ℕ) (limit cap : ℕ) (b : FlatBuffer) : Type 0 where
  pub holds : Holds xs b
  pub same_limit : b.max_size ≡ limit
  pub same_capacity : capacity b ≡ cap
  pub none_prepared : b.last_off ≡ b.out_off
  pub none_committed : (n : ℕ) → commit n b ≡ b

no_commit : (b : FlatBuffer) → b.last_off ≡ b.out_off → (n : ℕ) → commit n b ≡ b
unfolding commit
no_commit b e n = ap (λ o. record b { out_off = o }) (omega (arith, e))

released :
    (b : FlatBuffer)
    → IsOrdered b
    → Released (contents b) b.max_size (capacity b) (record b { last_off = b.out_off })
released b w = record {
  holds = record {
    ordered = record {
      in_out = w.in_out;
      out_last = omega arith;
      last_end = omega (arith, w.out_last, w.last_end);
      in_limit = w.in_limit;
      limit = w.limit;
    };
    bytes = refl;
  };
  same_limit = refl;
  same_capacity = refl;
  none_prepared = refl;
  none_committed = no_commit (record b { last_off = b.out_off }) refl;
}

abandoned : (limit : ℕ) → limit < 2 ^ 64 → Released [] limit 0 (init limit)
abandoned limit h = record {
  holds = record {
    ordered = record {
      in_out = omega arith;
      out_last = omega arith;
      last_end = omega arith;
      in_limit = omega arith;
      limit = h;
    };
    bytes = refl;
  };
  same_limit = refl;
  same_capacity = refl;
  none_prepared = refl;
  none_committed = no_commit (init limit) refl;
}

-- For buffers in order: the new buffer of a move has the bytes, the limit and the capacity of the old
-- one, which keeps its limit and is left empty with no memory; a swap exchanges the bytes, the limits
-- and the capacities of its two buffers. All are in order, and the output of each is empty, also where
-- a region had been prepared: a commit of any size changes nothing.
pub move-swap :
    (a b : FlatBuffer)
    → IsOrdered a
    → IsOrdered b
    → Released (contents a) a.max_size (capacity a) (move a).0
      × Released [] a.max_size 0 (move a).1
      × Released (contents b) b.max_size (capacity b) (swap a b).0
      × Released (contents a) a.max_size (capacity a) (swap a b).1
unfolding move swap
move-swap a b w v = (released a w, abandoned a.max_size w.limit, released b v, released a w)

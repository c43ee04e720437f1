-- ===== src/Core/FlatBuffer/Script.antt =====
-- The flat buffer against a bounded queue of bytes, over any sequence of operations.
use beast_asio_standalone.Prelude.{
  ℕ, ◌+◌, ◌-◌, ◌≤◌, ◌≡◌, refl, ap, ◌∙◌, Option, none, some, List, [], ◌∷◌, ◌++◌, ltb, if◌then◌else◌,
  length, take, drop, arith, length-take, take_all, ge→ltb_false, lt→ltb,
}
use mathlib.Core.Path.{subst}
use native.Mathlib.Nat.{le_refl}
use beast_asio_standalone.Core.FlatBuffer.{
  FlatBuffer, contents, commit, consume, fill, Allocator, prepare, shrink_to_fit,
}
use beast_asio_standalone.Core.FlatBuffer.Queue.{
  IsOrdered, length-contents, Prepares, prepare-Prepares, commit-fill-IsOrdered, commit-fill,
  consume-IsOrdered, contents-consume, shrink_to_fit-Shrunk,
}

-- `write`: `n` bytes are prepared, as many of `xs` as there is room for are put there, and these
-- are committed, as a read from a stream does.
pub data Operation : Type 0 where
  write : (n : ℕ) (xs : List ℕ) → Operation
  consume_front : (n : ℕ) → Operation
  shrink : Operation

module _ (alloc : Allocator) where
  abbrev pub written : ℕ → List ℕ → Option FlatBuffer → Option FlatBuffer
  written n xs none = none
  written n xs (some b) = some (commit (length (take n xs)) (fill (take n xs) b))

  abbrev pub step : Operation → FlatBuffer → Option FlatBuffer
  step (write n xs) b = written n xs (prepare alloc n b)
  step (consume_front n) b = some (consume n b)
  step shrink b = some (shrink_to_fit alloc b)

  abbrev pub run : List Operation → FlatBuffer → Option FlatBuffer
  run [] b = some b
  run (o ∷ os) b = elim (step o b) [ none ↦ none | some b' ↦ run os b' ]

-- the queue, which holds at most `limit` bytes with what is prepared
abbrev pub queue_step : ℕ → Operation → List ℕ → Option (List ℕ)
queue_step limit (write n xs) q = if ltb limit (length q + n) then none else some (q ++ take n xs)
queue_step limit (consume_front n) q = some (drop n q)
queue_step limit shrink q = some q

abbrev pub queue_run : ℕ → List Operation → List ℕ → Option (List ℕ)
queue_run limit [] q = some q
queue_run limit (o ∷ os) q = elim (queue_step limit o q) [
  | none ↦ none
  | some q' ↦ queue_run limit os q'
]

-- both have overflown, or the buffer is in order and holds what the queue holds
pub data Agrees (limit : ℕ) : Option FlatBuffer → Option (List ℕ) → Type 0 where
  overflown : Agrees limit none none
  holds :
      (b : FlatBuffer)
      → IsOrdered b
      → b.max_size ≡ limit
      → Agrees limit (some b) (some (contents b))

Agrees-some :
    (limit : ℕ) (b : FlatBuffer) (q : List ℕ)
    → IsOrdered b
    → b.max_size ≡ limit
    → contents b ≡ q
    → Agrees limit (some b) (some q)
Agrees-some limit b q w m e = subst (λ t. Agrees limit (some b) (some t)) e (Agrees.holds b w m)

commit-fill-max :
    (xs : List ℕ) (b : FlatBuffer) → (commit (length xs) (fill xs b)).max_size ≡ b.max_size
unfolding commit fill
commit-fill-max xs b = refl

consume-max : (n : ℕ) (b : FlatBuffer) → (consume n b).max_size ≡ b.max_size
unfolding consume
consume-max n b = ground arith

module _ (alloc : Allocator) where
  write-Agrees :
      (n : ℕ) (xs : List ℕ) (b : FlatBuffer) {r : Option FlatBuffer}
      → IsOrdered b
      → Prepares n b r
      → Agrees b.max_size (written alloc n xs r) (queue_step b.max_size (write n xs) (contents b))
  write-Agrees n xs b w (Prepares.overflow over) =
      rw (lt→ltb b.max_size (length (contents b) + n) (omega (arith, over, length-contents b w)))
        Agrees.overflown
  write-Agrees n xs b w (Prepares.ready b' fits p) =
      let ys = take n xs in
      let room : length ys ≤ b'.last_off - b'.out_off = omega (arith, p.room, length-take n xs) in
      let put = commit (length ys) (fill ys b') in
      rw
        (ge→ltb_false b.max_size (length (contents b) + n)
          (omega (arith, fits, length-contents b w)))
        (Agrees-some b.max_size put (contents b ++ ys)
          (commit-fill-IsOrdered b' p.ordered ys room (length ys)) (commit-fill-max ys b' ∙ p.limit)
          (commit-fill b' p.ordered ys room (length ys) (le_refl _)
            ∙ ap (λ t. contents b' ++ t) (take_all (length ys) ys (le_refl _))
            ∙ ap (λ t. t ++ ys) p.same))

  step-Agrees :
      (o : Operation) (b : FlatBuffer)
      → IsOrdered b
      → Agrees b.max_size (step alloc o b) (queue_step b.max_size o (contents b))
  step-Agrees (write n xs) b w = write-Agrees n xs b w (prepare-Prepares alloc n b w)
  step-Agrees (consume_front n) b w =
      Agrees-some b.max_size (consume n b) (drop n (contents b)) (consume-IsOrdered n b w)
        (consume-max n b) (contents-consume n b w)
  step-Agrees shrink b w =
      let s = shrink_to_fit-Shrunk alloc b w in
      Agrees-some b.max_size (shrink_to_fit alloc b) (contents b) s.ordered s.limit s.same

  run_more :
      (os : List Operation) (limit : ℕ) {r : Option FlatBuffer} {q : Option (List ℕ)}
      → ((b : FlatBuffer)
          → IsOrdered b
          → Agrees b.max_size (run alloc os b) (queue_run b.max_size os (contents b)))
      → Agrees limit r q
      → Agrees limit
          (elim r [ none ↦ none | some b ↦ run alloc os b ])
          (elim q [ none ↦ none | some t ↦ queue_run limit os t ])
  run_more os limit rest Agrees.overflown = Agrees.overflown
  run_more os limit rest (Agrees.holds b w m) =
      subst (λ k. Agrees k (run alloc os b) (queue_run k os (contents b))) m (rest b w)

  -- Whatever sequence of operations a flat buffer in order goes through, with any allocator, it
  -- throws exactly where the bounded queue of bytes overflows, and else it ends in order, under
  -- the same limit, with the bytes of the queue.
  pub run-Agrees :
      (os : List Operation) (b : FlatBuffer)
      → IsOrdered b
      → Agrees b.max_size (run alloc os b) (queue_run b.max_size os (contents b))
  run-Agrees [] b w = Agrees.holds b w refl
  run-Agrees (o ∷ os) b w = run_more os b.max_size (λ c v. run-Agrees os c v) (step-Agrees o b w)

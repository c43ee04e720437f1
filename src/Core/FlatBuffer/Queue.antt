-- ===== src/Core/FlatBuffer/Queue.antt =====
-- The flat buffer as a queue of bytes: each operation keeps the pointers in order, and does to the
-- contents what the queue would.
use beast_asio_standalone.Prelude.{
  ℕ, ◌+◌, ◌-◌, ◌*◌, ◌^◌, ◌%◌, ◌≤◌, ◌<◌, min, max, ◌≡◌, refl, ap, sym, ◌∙◌, Option, none, some, List,
  [], ◌++◌, leb, ltb, ◌==◌, if◌then◌else◌, length, take, drop, arith, Bool-cases, inl, inr,
  length-append, length-take, length-drop, take_front, take-append, take_within, drop-drop,
  drop-take, drop-append, ==→eq, drop_past, leb→le, leb_false→lt, ltb→lt, ltb_false→le,
}
use beast_asio_standalone.Core.FlatBuffer.{
  FlatBuffer, size, capacity, contents, commit, consume, fill, Allocator, prepare, shrink_to_fit,
}

-- `begin_ <= in_ <= out_ <= last_ <= end_`, and the block is within the limit
pub record IsOrdered (b : FlatBuffer) : Type 0 where
  pub in_out : b.in_off ≤ b.out_off
  pub out_last : b.out_off ≤ b.last_off
  pub last_end : b.last_off ≤ capacity b
  pub in_limit : capacity b ≤ b.max_size
  pub limit : b.max_size < 2 ^ 64

pub length-contents : (b : FlatBuffer) → IsOrdered b → length (contents b) ≡ size b
length-contents b w = omega (
  arith,
  w.in_out,
  w.out_last,
  w.last_end,
  length-take (size b) (drop b.in_off b.mem),
  length-drop b.in_off b.mem,
)

-- a block that begins with the contents has them as its contents
begins : (xs more : List ℕ) (n : ℕ) → n ≡ length xs → take n (xs ++ more) ≡ xs
begins xs more n e = ap (λ k. take k (xs ++ more)) e ∙ take_front xs more

-- what `prepare` leaves: the same contents, and a region of `n` bytes behind them
pub record Prepared (n : ℕ) (b : FlatBuffer) (b' : FlatBuffer) : Type 0 where
  pub ordered : IsOrdered b'
  pub same : contents b' ≡ contents b
  pub room : b'.last_off ≡ b'.out_off + n
  pub limit : b'.max_size ≡ b.max_size

pub data Prepares (n : ℕ) (b : FlatBuffer) : Option FlatBuffer → Type 0 where
  overflow : b.max_size < size b + n → Prepares n b none
  ready : (b' : FlatBuffer) → size b + n ≤ b.max_size → Prepared n b b' → Prepares n b (some b')

module _ (alloc : Allocator) (n : ℕ) (b : FlatBuffer) (w : IsOrdered b) where
  length-moved :
      (block : List ℕ)
      → size b ≤ length block
      → length (contents b ++ drop (size b) block) ≡ length block
  length-moved block h = omega (
    arith,
    length-contents b w,
    length-append (contents b) (drop (size b) block),
    length-drop (size b) block,
  )

  moved : List ℕ → FlatBuffer
  moved block = record b {
    mem = contents b ++ drop (size b) block;
    in_off = 0;
    out_off = size b;
    last_off = size b + n;
  }

  moved-Prepared :
      (block : List ℕ)
      → size b + n ≤ length block
      → length block ≤ b.max_size
      → Prepared n b (moved block)
  unfolding moved
  moved-Prepared block h k =
      let len = length-moved block (omega arith) in
      record {
        ordered = record {
          in_out = omega arith;
          out_last = omega arith;
          last_end = omega (arith, len);
          in_limit = omega (arith, len);
          limit = w.limit;
        };
        same =
            begins (contents b) (drop (size b) block) (size b - 0)
              (omega (arith, length-contents b w));
        room = refl;
        limit = refl;
      }

  -- On a buffer in order, `prepare` gives a region of the size that is asked for, keeps the
  -- contents, the limit and the order, exactly where the contents and the region are within the
  -- limit together; else it throws.
  pub prepare-Prepares : Prepares n b (prepare alloc n b)
  unfolding prepare moved
  prepare-Prepares =
      let len = size b in
      let new_size = min b.max_size (max (2 * len % 2 ^ 64) ((len + n) % 2 ^ 64)) in
      elim (Bool-cases (leb n (capacity b - b.out_off))) [
        | inl here ↦
            let k = leb→le _ _ here in
            rw here (
              Prepares.ready (record b { last_off = b.out_off + n })
                (omega (arith, w.in_out, w.out_last, w.last_end, w.in_limit, w.limit, k))
                (record {
                  ordered = record {
                    in_out = w.in_out;
                    out_last = omega arith;
                    last_end =
                        omega (arith, w.in_out, w.out_last, w.last_end, w.in_limit, w.limit, k);
                    in_limit = w.in_limit;
                    limit = w.limit;
                  };
                  same = refl;
                  room = refl;
                  limit = refl;
                }))
        | inr not_here ↦ elim (Bool-cases (leb n (capacity b - len))) [
          | inl fits ↦
              let k = leb→le _ _ fits in
              rw (not_here, fits)
                (Prepares.ready (moved b.mem)
                  (omega (arith, w.in_out, w.out_last, w.last_end, w.in_limit, w.limit, k))
                  (moved-Prepared b.mem
                    (omega (arith, w.in_out, w.out_last, w.last_end, w.in_limit, w.limit, k))
                    w.in_limit))
          | inr no_fit ↦ elim (Bool-cases (ltb ((b.max_size + 2 ^ 64 - len) % 2 ^ 64) n)) [
            | inl over ↦
                rw (not_here, no_fit, over)
                  (Prepares.overflow (
                    omega (
                      arith,
                      w.in_out,
                      w.out_last,
                      w.last_end,
                      w.in_limit,
                      w.limit,
                      ltb→lt _ _ over,
                    )))
            | inr room ↦
                let k = ltb_false→le _ _ room in
                let got = alloc.allocate_lem new_size in
                rw (not_here, no_fit, room)
                  (Prepares.ready (moved (alloc.allocate new_size))
                    (omega (arith, w.in_out, w.out_last, w.last_end, w.in_limit, w.limit, k))
                    (moved-Prepared (alloc.allocate new_size)
                      (omega (arith, w.in_out, w.out_last, w.last_end, w.in_limit, w.limit, k, got))
                      (omega (arith, got))))
          ]
        ]
      ]

-- bytes put into the region and then committed
module _ (b : FlatBuffer) (w : IsOrdered b) (xs : List ℕ)
    (fits : length xs ≤ b.last_off - b.out_off) where
  length-fill : length (fill xs b).mem ≡ length b.mem
  unfolding fill
  length-fill = omega (
    arith,
    w.out_last,
    w.last_end,
    fits,
    length-append (take b.out_off b.mem) (xs ++ drop (b.out_off + length xs) b.mem),
    length-append xs (drop (b.out_off + length xs) b.mem),
    length-take b.out_off b.mem,
    length-drop (b.out_off + length xs) b.mem,
  )

  pub commit-fill-IsOrdered : (n : ℕ) → IsOrdered (commit n (fill xs b))
  unfolding commit fill
  commit-fill-IsOrdered n = record {
    in_out = omega (arith, w.in_out);
    out_last = omega (arith, w.out_last);
    last_end = omega (arith, w.last_end, length-fill);
    in_limit = omega (arith, w.in_limit, length-fill);
    limit = w.limit;
  }

  pub commit-fill :
      (n : ℕ) → n ≤ length xs → contents (commit n (fill xs b)) ≡ contents b ++ take n xs
  unfolding commit fill
  commit-fill n le =
      let behind = drop (b.out_off + length xs) b.mem in
      let count = b.out_off + min n (b.last_off - b.out_off) - b.in_off in
      ap (take count) (
        drop-append b.in_off (take b.out_off b.mem) (xs ++ behind)
          (omega (arith, w.in_out, w.out_last, w.last_end, length-take b.out_off b.mem))
        ∙ ap (λ t. t ++ (xs ++ behind)) (drop-take b.in_off b.out_off b.mem))
      ∙ ap (λ k. take k (contents b ++ (xs ++ behind)))
          (omega (arith, w.in_out, w.out_last, fits, length-contents b w))
      ∙ take-append (contents b) (xs ++ behind) n
      ∙ ap (λ t. contents b ++ t) (take_within n xs behind le)

pub consume-IsOrdered : (n : ℕ) (b : FlatBuffer) → IsOrdered b → IsOrdered (consume n b)
unfolding consume
consume-IsOrdered n b w = elim (Bool-cases (leb (b.out_off - b.in_off) n)) [
  | inl all ↦ rw all (record {
    in_out = omega arith;
    out_last = omega arith;
    last_end = w.last_end;
    in_limit = w.in_limit;
    limit = w.limit;
  })
  | inr part ↦ rw part (record {
    in_out = omega (arith, leb_false→lt _ _ part);
    out_last = w.out_last;
    last_end = w.last_end;
    in_limit = w.in_limit;
    limit = w.limit;
  })
]

none_taken : (xs : List ℕ) (k : ℕ) → k ≡ 0 → take k xs ≡ []
none_taken xs k e = ap (λ n. take n xs) e

minus_plus : (a b n : ℕ) → a - (b + n) ≡ a - b - n
minus_plus a b n = omega arith

pub contents-consume :
    (n : ℕ) (b : FlatBuffer) → IsOrdered b → contents (consume n b) ≡ drop n (contents b)
unfolding consume
contents-consume n b w = elim (Bool-cases (leb (b.out_off - b.in_off) n)) [
  | inl all ↦ rw all (
      none_taken b.mem (0 - 0) (omega arith)
      ∙ sym (drop_past n (contents b) (omega (arith, length-contents b w, leb→le _ _ all))))
  | inr part ↦ rw part (
      ap (λ k. take k (drop (b.in_off + n) b.mem)) (minus_plus b.out_off b.in_off n)
      ∙ ap (take (b.out_off - b.in_off - n)) (sym (drop-drop b.in_off n b.mem))
      ∙ sym (drop-take n (size b) (drop b.in_off b.mem)))
]

-- `shrink_to_fit` gives back all memory that the contents do not need, and keeps them.
pub record Shrunk (b b' : FlatBuffer) : Type 0 where
  pub ordered : IsOrdered b'
  pub same : contents b' ≡ contents b
  pub exact : capacity b' ≡ size b
  pub limit : b'.max_size ≡ b.max_size

module _ (alloc : Allocator) (b : FlatBuffer) (w : IsOrdered b) where
  shrunk_block : List ℕ
  shrunk_block =
      if ltb 0 (size b) then contents b ++ drop (size b) (alloc.allocate (size b)) else []

  shrunk_contents : take (size b - 0) shrunk_block ≡ contents b
  unfolding shrunk_block
  shrunk_contents = elim (Bool-cases (ltb 0 (size b))) [
    | inl some_left ↦ rw some_left (
        begins (contents b) (drop (size b) (alloc.allocate (size b))) (size b - 0)
          (omega (arith, length-contents b w)))
    | inr empty ↦
        let none = ltb_false→le _ _ empty in
        rw empty (
          none_taken [] (size b - 0) (omega (arith, none))
          ∙ sym (none_taken (drop b.in_off b.mem) (size b) (omega (arith, none))))
  ]

  length-shrunk_block : length shrunk_block ≡ size b
  unfolding shrunk_block
  length-shrunk_block = elim (Bool-cases (ltb 0 (size b))) [
    | inl some_left ↦
        let got = alloc.allocate_lem (size b) in
        rw some_left (length-moved alloc 0 b w (alloc.allocate (size b)) (omega (arith, got)) ∙ got)
    | inr empty ↦ rw empty (omega (arith, ltb_false→le _ _ empty))
  ]

  pub shrink_to_fit-Shrunk : Shrunk b (shrink_to_fit alloc b)
  unfolding shrink_to_fit shrunk_block
  shrink_to_fit-Shrunk = elim (Bool-cases (size b == capacity b)) [
    | inl full ↦
        rw full (record { ordered = w; same = refl; exact = sym (==→eq _ _ full); limit = refl })
    | inr loose ↦ rw loose (record {
      ordered = record {
        in_out = omega arith;
        out_last = omega arith;
        last_end = omega (arith, length-shrunk_block);
        in_limit = omega (arith, length-shrunk_block, w.out_last, w.last_end, w.in_limit);
        limit = w.limit;
      };
      same = shrunk_contents;
      exact = length-shrunk_block;
      limit = refl;
    })
  ]

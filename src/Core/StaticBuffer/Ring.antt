-- ===== src/Core/StaticBuffer/Ring.antt =====
-- The cells of a ring, and what is read out of memory.
use beast_asio_standalone.Prelude.{
  ℕ, zero, suc, ◌+◌, ◌-◌, ◌≤◌, ◌<◌, ◌≡◌, refl, ap, ap₂, sym, ◌∙◌, List, [], ◌∷◌, ◌++◌, append-nil,
  leb, ltb, if◌then◌else◌, length, get_or, arith, Bool-cases, inl, inr, leb→le, leb_false→lt,
}
use beast_asio_standalone.Core.StaticBuffer.{StaticBuffer, region, contents}

-- the offset in the ring, for one that is less than twice the capacity
abbrev pub wrap : ℕ → ℕ → ℕ
wrap cap o = if ltb o cap then o else o - cap

-- `n` bytes of the ring from `o` on
abbrev pub ring : (ℕ → ℕ) → ℕ → ℕ → ℕ → List ℕ
ring m cap o zero = []
ring m cap o (suc n) = m (wrap cap o) ∷ ring m cap (o + 1) n

pub length-ring : (m : ℕ → ℕ) (cap o n : ℕ) → length (ring m cap o n) ≡ n
length-ring m cap o zero = refl
length-ring m cap o (suc n) = omega (arith, length-ring m cap (o + 1) n)

pub ring-append :
    (m : ℕ → ℕ) (cap o k n : ℕ) → ring m cap o (k + n) ≡ ring m cap o k ++ ring m cap (o + k) n
ring-append m cap o zero n = ap₂ (ring m cap) (omega arith) (omega arith)
ring-append m cap o (suc k) n =
    ap (ring m cap o) (suc_plus k)
    ∙ ap (λ t. m (wrap cap o) ∷ t)
        (ring-append m cap (o + 1) k n ∙ ap (λ p. ring m cap (o + 1) k ++ ring m cap p n) (assoc k))
  where
    suc_plus : (k : ℕ) → suc k + n ≡ suc (k + n)
    suc_plus k = omega arith

    assoc : (k : ℕ) → o + 1 + k ≡ o + suc k
    assoc k = omega arith

-- two stretches with the same cells
pub ring_same :
    (m m' : ℕ → ℕ) (cap o p n : ℕ)
    → ((i : ℕ) → i < n → m (wrap cap (o + i)) ≡ m' (wrap cap (p + i)))
    → ring m cap o n ≡ ring m' cap p n
ring_same m m' cap o p zero same = refl
ring_same m m' cap o p (suc n) same =
    ap₂ (λ x t. x ∷ t)
      (ap (λ k. m (wrap cap k)) (plus_zero o)
        ∙ same 0 (omega arith)
        ∙ ap (λ k. m' (wrap cap k)) (sym (plus_zero p)))
      (ring_same m m' cap (o + 1) (p + 1) n (λ i h.
        ap (λ k. m (wrap cap k)) (assoc o i)
        ∙ same (suc i) (omega arith)
        ∙ ap (λ k. m' (wrap cap k)) (sym (assoc p i))))
  where
    plus_zero : (a : ℕ) → a ≡ a + 0
    plus_zero a = omega arith

    assoc : (a i : ℕ) → a + 1 + i ≡ a + suc i
    assoc a i = omega arith

-- a stretch whose cells are the members of a list
pub ring_list :
    (m : ℕ → ℕ) (cap o : ℕ) (xs : List ℕ)
    → ((i : ℕ) → i < length xs → m (wrap cap (o + i)) ≡ get_or xs i 0)
    → ring m cap o (length xs) ≡ xs
ring_list m cap o [] same = refl
ring_list m cap o (x ∷ xs) same =
    ap₂ (λ y t. y ∷ t) (ap (λ k. m (wrap cap k)) (plus_zero o) ∙ same 0 (omega arith))
      (ring_list m cap (o + 1) xs
        (λ i h. ap (λ k. m (wrap cap k)) (assoc o i) ∙ same (suc i) (omega arith)))
  where
    plus_zero : (a : ℕ) → a ≡ a + 0
    plus_zero a = omega arith

    assoc : (a i : ℕ) → a + 1 + i ≡ a + suc i
    assoc a i = omega arith

-- a region is a stretch that does not go over the end, or one that begins behind it
region_low : (m : ℕ → ℕ) (cap o n : ℕ) → o + n ≤ cap → region m o n ≡ ring m cap o n
region_low m cap o zero h = refl
region_low m cap o (suc n) h =
    ap₂ (λ x t. x ∷ t) (ap m (low o n h)) (region_low m cap (o + 1) n (omega arith))
  where
    low : (o n : ℕ) → o + suc n ≤ cap → o ≡ wrap cap o
    low o n h = ground arith

region_high : (m : ℕ → ℕ) (cap o n : ℕ) → region m o n ≡ ring m cap (cap + o) n
region_high m cap o zero = refl
region_high m cap o (suc n) =
    ap₂ (λ x t. x ∷ t) (ap m (high o))
      (region_high m cap (o + 1) n ∙ ap (λ k. ring m cap k n) (assoc o))
  where
    high : (o : ℕ) → o ≡ wrap cap (cap + o)
    high o = ground arith

    assoc : (o : ℕ) → cap + (o + 1) ≡ cap + o + 1
    assoc o = omega arith

-- `data()` shows the bytes of the ring from `in_off` on.
pub contents-ring :
    (b : StaticBuffer)
    → b.in_off ≤ b.capacity
    → contents b ≡ ring b.mem b.capacity b.in_off b.in_size
unfolding contents
contents-ring b h = elim (Bool-cases (leb (b.in_off + b.in_size) b.capacity)) [
  | inl flat ↦ rw flat (
      append-nil (region b.mem b.in_off b.in_size)
      ∙ region_low b.mem b.capacity b.in_off b.in_size (leb→le _ _ flat))
  | inr split ↦
      let over = leb_false→lt _ _ split in
      let first = b.capacity - b.in_off in
      let left : first + (b.in_size - first) ≡ b.in_size = omega (arith, over) in
      let end : b.capacity + 0 ≡ b.in_off + first = omega (arith, h) in
      rw split (
        ap₂ (λ x y. x ++ y) (region_low b.mem b.capacity b.in_off first (omega (arith, h)))
          (region_high b.mem b.capacity 0 (b.in_size - first)
            ∙ ap (λ k. ring b.mem b.capacity k (b.in_size - first)) end)
        ∙ sym (ring-append b.mem b.capacity b.in_off first (b.in_size - first))
        ∙ ap (ring b.mem b.capacity b.in_off) left)
]

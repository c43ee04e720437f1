-- ===== src/Core/StaticBuffer/Cells.antt =====
-- The cells of the ring after a caller has put bytes into its two buffers.
use beast_asio_standalone.Prelude.{
  ℕ, zero, suc, ◌+◌, ◌-◌, ◌%◌, ◌≤◌, ◌<◌, ◌≡◌, refl, ap, ◌∙◌, true, ◌&&◌, ◌⊎◌, List, [], ◌∷◌, leb,
  ltb, length, get_or, take, drop, arith, Bool-cases, inl, inr, ltb→lt, ltb_false→le, length-take,
  length-drop,
}
use native.Mathlib.Nat.{mod-eq_of_lt, mod-eq-sub-mod}
use beast_asio_standalone.Core.StaticBuffer.{write_at}
use beast_asio_standalone.Core.StaticBuffer.Ring.{wrap}

pub mod_wrap : (x cap : ℕ) → x < cap + cap → x % cap ≡ wrap cap x
mod_wrap x cap h = elim (Bool-cases (ltb x cap)) [
  | inl low ↦ rw low (mod-eq_of_lt (ltb→lt _ _ low))
  | inr high ↦
      let over = ltb_false→le _ _ high in rw high (mod-eq-sub-mod over ∙ mod-eq_of_lt (less over))
]
  where
    less : cap ≤ x → x - cap < cap
    less over = omega arith

get_or-take : (xs : List ℕ) (k i : ℕ) → i < k → get_or (take k xs) i 0 ≡ get_or xs i 0
get_or-take xs zero i h = absurd (omega arith)
get_or-take [] (suc k) i h = refl
get_or-take (x ∷ xs) (suc k) zero h = refl
get_or-take (x ∷ xs) (suc k) (suc i) h = get_or-take xs k i (omega arith)

get_or-drop : (xs : List ℕ) (k i : ℕ) → k ≤ i → get_or (drop k xs) (i - k) 0 ≡ get_or xs i 0
get_or-drop xs zero i h = ap (λ j. get_or xs j 0) (omega arith)
get_or-drop [] (suc k) i h = refl
get_or-drop (x ∷ xs) (suc k) zero h = absurd (omega arith)
get_or-drop (x ∷ xs) (suc k) (suc i) h =
    ap (λ j. get_or (drop k xs) j 0) (minus i k) ∙ get_or-drop xs k i (omega arith)
  where
    minus : (i k : ℕ) → suc i - suc k ≡ i - k
    minus i k = omega arith

write_skip :
    (off : ℕ) (xs : List ℕ) (m : ℕ → ℕ) (a : ℕ)
    → (a < off) ⊎ (off + length xs ≤ a)
    → write_at off xs m a ≡ m a
write_skip off xs m a h = ground arith

write_hit :
    (off : ℕ) (xs : List ℕ) (m : ℕ → ℕ) (a i : ℕ)
    → a ≡ off + i
    → i < length xs
    → write_at off xs m a ≡ get_or xs i 0
write_hit off xs m a i e h =
    rw (e, inside off i (length xs) h) (ap (λ j. get_or xs j 0) (omega arith))
  where
    inside : (off i n : ℕ) → i < n → (leb off (off + i) && ltb (off + i) (off + n)) ≡ true
    inside off i n h = ground arith

-- the memory after `xs` has been put into the two buffers from offset `o` of the ring on
module _ (m : ℕ → ℕ) (cap s o r : ℕ) (xs : List ℕ) (eo : o ≡ wrap cap s) (er : r ≤ cap - o)
    (all : (r ≡ cap - o) ⊎ (length xs ≤ r)) where
  unfoldable pub put : ℕ → ℕ
  put = write_at 0 (drop r xs) (write_at o (take r xs) m)

  -- how far the first buffer goes, and that the second does not reach the first
  module _ (i0 n : ℕ) (es : s ≡ i0 + n) (h0 : i0 < cap) (h : n + length xs ≤ cap) where
    pub old_cell : (i : ℕ) → i < n → put (wrap cap (i0 + i)) ≡ m (wrap cap (i0 + i))
    unfolding put
    old_cell i hi =
        write_skip 0 (drop r xs) (write_at o (take r xs) m) (wrap cap (i0 + i))
          (ground (arith, length-drop r xs))
        ∙ write_skip o (take r xs) m (wrap cap (i0 + i)) (ground (arith, length-take r xs))

    pub new_cell : (i : ℕ) → i < length xs → put (wrap cap (s + i)) ≡ get_or xs i 0
    unfolding put
    new_cell i hi = elim (Bool-cases (ltb i r)) [
      | inl first ↦
          let k = ltb→lt i r first in
          write_skip 0 (drop r xs) (write_at o (take r xs) m) (wrap cap (s + i))
            (ground (arith, length-drop r xs))
          ∙ write_hit o (take r xs) m (wrap cap (s + i)) i (ground arith)
              (omega (arith, k, length-take r xs))
          ∙ get_or-take xs r i k
      | inr second ↦
          let k = ltb_false→le i r second in
          write_hit 0 (drop r xs) (write_at o (take r xs) m) (wrap cap (s + i)) (i - r)
            (ground arith) (omega (arith, k, length-drop r xs))
          ∙ get_or-drop xs r i k
    ]

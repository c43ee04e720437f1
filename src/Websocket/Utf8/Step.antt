-- ===== src/Websocket/Utf8/Step.antt =====
-- One code point of the checker against RFC 3629.
use beast_asio_standalone.Prelude.{
  ℕ, zero, suc, ◌≡◌, refl, ap, Option, none, some, List, [], ◌∷◌, ◌++◌, arith, ◌⊎◌, inl, inr, drop,
  All, get_or, length,
}
use beast_asio_standalone.Prelude.Bits.{IsByte}
use beast_asio_standalone.Websocket.Utf8.{valid_step, valid, needed}
use beast_asio_standalone.Websocket.Utf8.Spec.{IsCodePoint}
use beast_asio_standalone.Websocket.Utf8.Masks.{
  lead_two, overlong_two, lead_three, lead_four, overlong_three, surrogate, overlong_four,
  tail_byte,
}

module _ (a b c d : ℕ) (ha : IsByte a) (hb : IsByte b) (hc : IsByte c) (hd : IsByte d) where
  pub valid_step-one : IsCodePoint (a ∷ []) → valid_step a b c d ≡ some 1
  unfolding valid_step
  valid_step-one h = ground arith

  pub valid_step-two : IsCodePoint (a ∷ b ∷ []) → valid_step a b c d ≡ some 2
  unfolding valid_step
  valid_step-two h = ground (arith, lead_two a ha, overlong_two a ha, tail_byte b hb)

  pub valid_step-three : IsCodePoint (a ∷ b ∷ c ∷ []) → valid_step a b c d ≡ some 3
  unfolding valid_step
  valid_step-three h = ground (
    arith,
    lead_two a ha,
    lead_three a ha,
    tail_byte b hb,
    tail_byte c hc,
    overlong_three b hb,
    surrogate b hb,
  )

  pub valid_step-four : IsCodePoint (a ∷ b ∷ c ∷ d ∷ []) → valid_step a b c d ≡ some 4
  unfolding valid_step
  valid_step-four h = ground (
    arith,
    lead_two a ha,
    lead_three a ha,
    lead_four a ha,
    tail_byte b hb,
    tail_byte c hc,
    tail_byte d hd,
    overlong_four b hb,
  )

  valid_step_sound :
      (n : ℕ)
      → valid_step a b c d ≡ some n
      → ((n ≡ 1) × IsCodePoint (a ∷ []))
        ⊎ ((n ≡ 2) × IsCodePoint (a ∷ b ∷ []))
        ⊎ ((n ≡ 3) × IsCodePoint (a ∷ b ∷ c ∷ []))
        ⊎ ((n ≡ 4) × IsCodePoint (a ∷ b ∷ c ∷ d ∷ []))
  unfolding valid_step
  valid_step_sound n h = ground (
    arith,
    lead_two a ha,
    overlong_two a ha,
    lead_three a ha,
    lead_four a ha,
    tail_byte b hb,
    tail_byte c hc,
    tail_byte d hd,
    overlong_three b hb,
    surrogate b hb,
    overlong_four b hb,
  )

-- what `valid` passes is a code point, and it stands there in full
pub record Passed (p rest : List ℕ) : Type 0 where
  pub point : List ℕ
  pub is_point : IsCodePoint point
  pub split : p ≡ point ++ rest

module _ (rest : List ℕ) (n a b c d : ℕ) where
  Passed-one :
      (p : List ℕ) → IsCodePoint (a ∷ []) → drop n (a ∷ p) ≡ rest → n ≡ 1 → Passed (a ∷ p) rest
  Passed-one p h e one = record { point = a ∷ []; is_point = h; split = ground arith }

  Passed-two :
      (p : List ℕ)
      → IsCodePoint (a ∷ b ∷ [])
      → drop n (a ∷ b ∷ p) ≡ rest
      → n ≡ 2
      → Passed (a ∷ b ∷ p) rest
  Passed-two p h e one = record { point = a ∷ b ∷ []; is_point = h; split = ground arith }

  Passed-three :
      (p : List ℕ)
      → IsCodePoint (a ∷ b ∷ c ∷ [])
      → drop n (a ∷ b ∷ c ∷ p) ≡ rest
      → n ≡ 3
      → Passed (a ∷ b ∷ c ∷ p) rest
  Passed-three p h e one = record { point = a ∷ b ∷ c ∷ []; is_point = h; split = ground arith }

  Passed-four :
      (p : List ℕ)
      → IsCodePoint (a ∷ b ∷ c ∷ d ∷ [])
      → drop n (a ∷ b ∷ c ∷ d ∷ p) ≡ rest
      → n ≡ 4
      → Passed (a ∷ b ∷ c ∷ d ∷ p) rest
  Passed-four p h e one = record { point = a ∷ b ∷ c ∷ d ∷ []; is_point = h; split = ground arith }

record Sized (r : Option ℕ) (p rest : List ℕ) : Type 0 where
  size : ℕ
  step : r ≡ some size
  left : drop size p ≡ rest

sized :
    (r : Option ℕ) (p rest : List ℕ)
    → elim r [ none ↦ none | some n ↦ some (drop n p) ] ≡ some rest
    → Sized r p rest
sized none p rest h = cc
sized (some n) p rest h = record { size = n; step = refl; left = ground arith }

valid-Sized :
    (p rest : List ℕ)
    → valid p ≡ some rest
    → Sized (valid_step (get_or p 0 0) (get_or p 1 0) (get_or p 2 0) (get_or p 3 0)) p rest
unfolding valid
valid-Sized p rest h =
    sized (valid_step (get_or p 0 0) (get_or p 1 0) (get_or p 2 0) (get_or p 3 0)) p rest h

-- A code point that `valid` passes is one of RFC 3629, and all of it was there.
pub valid-Passed :
    (x : ℕ) (p rest : List ℕ) → All IsByte (x ∷ p) → valid (x ∷ p) ≡ some rest → Passed (x ∷ p) rest
valid-Passed a (b ∷ c ∷ d ∷ p) rest (ha, (hb, (hc, (hd, hp)))) h =
    let s = valid-Sized (a ∷ b ∷ c ∷ d ∷ p) rest h in
    elim (valid_step_sound a b c d ha hb hc hd s.size s.step) [
      | inl (e, k) ↦ Passed-one rest s.size a b c d (b ∷ c ∷ d ∷ p) k s.left e
      | inr (inl (e, k)) ↦ Passed-two rest s.size a b c d (c ∷ d ∷ p) k s.left e
      | inr (inr (inl (e, k))) ↦ Passed-three rest s.size a b c d (d ∷ p) k s.left e
      | inr (inr (inr (e, k))) ↦ Passed-four rest s.size a b c d p k s.left e
    ]
valid-Passed a (b ∷ c ∷ []) rest (ha, (hb, (hc, hp))) h =
    let s = valid-Sized (a ∷ b ∷ c ∷ []) rest h in
    elim (valid_step_sound a b c 0 ha hb hc (omega arith) s.size s.step) [
      | inl (e, k) ↦ Passed-one rest s.size a b c 0 (b ∷ c ∷ []) k s.left e
      | inr (inl (e, k)) ↦ Passed-two rest s.size a b c 0 (c ∷ []) k s.left e
      | inr (inr (inl (e, k))) ↦ Passed-three rest s.size a b c 0 [] k s.left e
      | inr (inr (inr (e, k))) ↦ absurd (omega (arith, k.3.1))
    ]
valid-Passed a (b ∷ []) rest (ha, (hb, hp)) h =
    let s = valid-Sized (a ∷ b ∷ []) rest h in
    elim (valid_step_sound a b 0 0 ha hb (omega arith) (omega arith) s.size s.step) [
      | inl (e, k) ↦ Passed-one rest s.size a b 0 0 (b ∷ []) k s.left e
      | inr (inl (e, k)) ↦ Passed-two rest s.size a b 0 0 [] k s.left e
      | inr (inr (inl (e, k))) ↦ absurd (omega (arith, k))
      | inr (inr (inr (e, k))) ↦ absurd (omega (arith, k))
    ]
valid-Passed a [] rest (ha, hp) h =
    let s = valid-Sized (a ∷ []) rest h in
    elim (valid_step_sound a 0 0 0 ha (omega arith) (omega arith) (omega arith) s.size s.step) [
      | inl (e, k) ↦ Passed-one rest s.size a 0 0 0 [] k s.left e
      | inr (inl (e, k)) ↦ absurd (omega (arith, k))
      | inr (inr (inl (e, k))) ↦ absurd (omega (arith, k))
      | inr (inr (inr (e, k))) ↦ absurd (omega (arith, k))
    ]

get_or-IsByte : (xs : List ℕ) (i : ℕ) → All IsByte xs → IsByte (get_or xs i 0)
get_or-IsByte [] i h = omega arith
get_or-IsByte (x ∷ xs) zero (h, hs) = h
get_or-IsByte (x ∷ xs) (suc i) (h, hs) = get_or-IsByte xs i hs

abbrev left_of : List ℕ → Option ℕ → Option (List ℕ)
left_of p r = elim r [ none ↦ none | some n ↦ some (drop n p) ]

-- Each code point of RFC 3629 is passed, whatever follows.
pub valid-IsCodePoint :
    (c rest : List ℕ) → All IsByte rest → IsCodePoint c → valid (c ++ rest) ≡ some rest
unfolding valid
valid-IsCodePoint [] rest bytes h = absurd h
valid-IsCodePoint (a ∷ []) rest bytes h = ap (left_of (a ∷ rest)) (
    valid_step-one a (get_or rest 0 0) (get_or rest 1 0) (get_or rest 2 0) (omega arith)
      (get_or-IsByte rest 0 bytes) (get_or-IsByte rest 1 bytes) (get_or-IsByte rest 2 bytes) h)
valid-IsCodePoint (a ∷ b ∷ []) rest bytes h = ap (left_of (a ∷ b ∷ rest)) (
    valid_step-two a b (get_or rest 0 0) (get_or rest 1 0) (omega arith) (omega arith)
      (get_or-IsByte rest 0 bytes) (get_or-IsByte rest 1 bytes) h)
valid-IsCodePoint (a ∷ b ∷ c ∷ []) rest bytes h = ap (left_of (a ∷ b ∷ c ∷ rest)) (
    valid_step-three a b c (get_or rest 0 0) (omega arith) (omega arith) (omega arith)
      (get_or-IsByte rest 0 bytes) h)
valid-IsCodePoint (a ∷ b ∷ c ∷ d ∷ []) rest bytes h =
    ap (left_of (a ∷ b ∷ c ∷ d ∷ rest))
      (valid_step-four a b c d (omega arith) (omega arith) (omega arith) (omega arith) h)
valid-IsCodePoint (a ∷ b ∷ c ∷ d ∷ e ∷ p) rest bytes h = absurd h

-- The first byte tells how many there are.
pub needed-length : (x : ℕ) (c : List ℕ) → IsCodePoint (x ∷ c) → needed x ≡ length (x ∷ c)
unfolding needed
needed-length x [] h = ground arith
needed-length x (b ∷ []) h = ground arith
needed-length x (b ∷ c ∷ []) h = ground arith
needed-length x (b ∷ c ∷ d ∷ []) h = ground arith
needed-length x (b ∷ c ∷ d ∷ e ∷ p) h = absurd h

-- ===== src/Websocket/Utf8/Loops.antt =====
-- The loops of the checker: each passes whole code points, and all of them where there are any.
use beast_asio_standalone.Prelude.{
  ℕ, zero, suc, ◌<◌, ◌≡◌, refl, ap, sym, ◌∙◌, Option, none, some, List, [], ◌∷◌, ◌++◌, append_assoc,
  append-nil, ltb, arith, inl, inr, All, All-back, length, Bool-cases, ltb_false→le,
}
use mathlib.Core.Path.{subst}
use beast_asio_standalone.Prelude.Bits.{IsByte}
use beast_asio_standalone.Websocket.Utf8.{valid, valid_loop}
use beast_asio_standalone.Websocket.Utf8.Spec.{IsCodePoint, IsUtf8}
use beast_asio_standalone.Websocket.Utf8.Step.{Passed, valid-Passed, valid-IsCodePoint}

pub IsUtf8-append : (xs ys : List ℕ) → IsUtf8 xs → IsUtf8 ys → IsUtf8 (xs ++ ys)
IsUtf8-append xs ys (IsUtf8.empty) v = v
IsUtf8-append xs ys (IsUtf8.more c rest k u e) v =
    IsUtf8.more c (rest ++ ys) k (IsUtf8-append rest ys u v)
      (ap (λ t. t ++ ys) e ∙ append_assoc c rest ys)

pub IsUtf8-one : (c : List ℕ) → IsCodePoint c → IsUtf8 c
IsUtf8-one c k = IsUtf8.more c [] k IsUtf8.empty (sym (append-nil c))

-- whole code points, and what stands behind them
pub record Scanned (p q : List ℕ) : Type 0 where
  pub whole : List ℕ
  pub utf8 : IsUtf8 whole
  pub split : p ≡ whole ++ q

pub Scanned-refl : (p : List ℕ) → Scanned p p
Scanned-refl p = record { whole = []; utf8 = IsUtf8.empty; split = refl }

pub Scanned-trans : (p q r : List ℕ) → Scanned p q → Scanned q r → Scanned p r
Scanned-trans p q r s t = record {
  whole = s.whole ++ t.whole;
  utf8 = IsUtf8-append s.whole t.whole s.utf8 t.utf8;
  split = s.split ∙ ap (λ x. s.whole ++ x) t.split ∙ sym (append_assoc s.whole t.whole r);
}

pub Scanned-Passed : (p q : List ℕ) → Passed p q → Scanned p q
Scanned-Passed p q s = record {
  whole = s.point;
  utf8 = IsUtf8-one s.point s.is_point;
  split = s.split;
}

pub Scanned-bytes : (p q : List ℕ) → Scanned p q → All IsByte p → All IsByte q
Scanned-bytes p q s h = All-back IsByte s.whole q (subst (All IsByte) s.split h)

-- The code point that a text begins with is the one that `valid` passes.
pub record Advanced (p : List ℕ) : Type 0 where
  pub rest : List ℕ
  pub point : List ℕ
  pub is_point : IsCodePoint point
  pub split : p ≡ point ++ rest
  pub passes : valid p ≡ some rest
  pub utf8 : IsUtf8 rest

pub IsUtf8-Advanced : (p : List ℕ) → 0 < length p → All IsByte p → IsUtf8 p → Advanced p
IsUtf8-Advanced p some_byte bytes (IsUtf8.empty) = absurd (omega arith)
IsUtf8-Advanced p some_byte bytes (IsUtf8.more c rest k u e) = record {
  rest = rest;
  point = c;
  is_point = k;
  split = e;
  passes =
      ap valid e ∙ valid-IsCodePoint c rest (All-back IsByte c rest (subst (All IsByte) e bytes)) k;
  utf8 = u;
}

pub point_size : (c q p : List ℕ) → IsCodePoint c → p ≡ c ++ q → 0 < length p
point_size [] q p k e = absurd k
point_size (x ∷ c) q p k e = omega (arith, ap (λ (t : List ℕ). length t) e)

same_rest : (r : Option (List ℕ)) (p q : List ℕ) → r ≡ some p → r ≡ some q → p ≡ q
same_rest r p q e f = cc

-- Texts are cut in one way only.
pub IsUtf8-rest : (p q : List ℕ) → IsUtf8 p → All IsByte (p ++ q) → IsUtf8 (p ++ q) → IsUtf8 q
IsUtf8-rest p q (IsUtf8.empty) bytes v = v
IsUtf8-rest p q (IsUtf8.more c rest k u e) bytes v =
    let cut = ap (λ t. t ++ q) e ∙ append_assoc c rest q in
    let behind = All-back IsByte c (rest ++ q) (subst (All IsByte) cut bytes) in
    let a = IsUtf8-Advanced (p ++ q) (point_size c (rest ++ q) (p ++ q) k cut) bytes v in
    let passed = ap valid cut ∙ valid-IsCodePoint c (rest ++ q) behind k in
    IsUtf8-rest rest q u behind (subst IsUtf8 (same_rest _ _ _ a.passes passed) a.utf8)

pub Scanned-IsUtf8 : (p q : List ℕ) → Scanned p q → All IsByte p → IsUtf8 p → IsUtf8 q
Scanned-IsUtf8 p q s bytes v =
    IsUtf8-rest s.whole q s.utf8 (subst (All IsByte) s.split bytes) (subst IsUtf8 s.split v)

pub data Answer (r : Option (List ℕ)) : Type 0 where
  refused : r ≡ none → Answer r
  passed : (q : List ℕ) → r ≡ some q → Answer r

pub answer : (r : Option (List ℕ)) → Answer r
answer none = refused refl
answer (some q) = passed q refl

pub valid_loop-Scanned :
    (n : ℕ) (p q : List ℕ) → All IsByte p → valid_loop n p ≡ some q → Scanned p q
unfolding valid_loop
valid_loop-Scanned zero p q bytes h = subst (Scanned p) (ground arith) (Scanned-refl p)
valid_loop-Scanned (suc n) [] q bytes h = subst (Scanned []) (ground arith) (Scanned-refl [])
valid_loop-Scanned (suc n) (x ∷ p) q bytes h = elim (Bool-cases (ltb (length (x ∷ p)) 4)) [
  | inl few ↦ subst (Scanned (x ∷ p)) (ground arith) (Scanned-refl (x ∷ p))
  | inr enough ↦ elim (answer (valid (x ∷ p))) [
    | refused e ↦ absurd (cc (rw (enough, e) at h))
    | passed r e ↦
        let s = Scanned-Passed (x ∷ p) r (valid-Passed x p r bytes e) in
        Scanned-trans (x ∷ p) r q s
          (valid_loop-Scanned n r q (Scanned-bytes (x ∷ p) r s bytes) (rw (enough, e) at h))
  ]
]

-- a text is passed, and what is left is a text
pub record Left (r : Option (List ℕ)) : Type 0 where
  pub left : List ℕ
  pub result : r ≡ some left
  pub utf8 : IsUtf8 left

pub valid_loop-Left : (n : ℕ) (p : List ℕ) → All IsByte p → IsUtf8 p → Left (valid_loop n p)
unfolding valid_loop
valid_loop-Left zero p bytes u = record { left = p; result = refl; utf8 = u }
valid_loop-Left (suc n) p bytes u = elim (Bool-cases (ltb (length p) 4)) [
  | inl few ↦ rw few (record { left = p; result = refl; utf8 = u })
  | inr enough ↦
      let a = IsUtf8-Advanced p (omega (arith, ltb_false→le _ _ enough)) bytes u in
      let behind = All-back IsByte a.point a.rest (subst (All IsByte) a.split bytes) in
      rw (enough, a.passes) (valid_loop-Left n a.rest behind a.utf8)
]

-- ===== src/Prelude/Slices.antt =====
-- Parts of lists: how `take` and `drop` go through an append and through each other.
use Prim.Native.Nat.{ℕ, zero, suc, ◌+◌, ◌-◌, ◌≤◌}
use mathlib.Core.Path.{◌≡◌, refl, ap, sym, ◌∙◌}
use mathlib.Core.List.{List, [], ◌∷◌, ◌++◌}
use native.Mathlib.Omega.{arith}
use beast_asio_standalone.Prelude.Lists.{length, take, drop}

module _ {ℓ} {A : Type ℓ} where
  pub take-append : (xs ys : List A) (k : ℕ) → take (length xs + k) (xs ++ ys) ≡ xs ++ take k ys
  take-append [] ys k = ap (λ n. take n ys) (omega arith)
  take-append (x ∷ xs) ys k =
      ap (λ n. take n (x ∷ (xs ++ ys))) (suc_plus (length xs))
      ∙ ap (λ t. x ∷ t) (take-append xs ys k)
    where
      suc_plus : (n : ℕ) → suc n + k ≡ suc (n + k)
      suc_plus n = omega arith

  pub take_front : (xs ys : List A) → take (length xs) (xs ++ ys) ≡ xs
  take_front [] ys = refl
  take_front (x ∷ xs) ys = ap (λ t. x ∷ t) (take_front xs ys)

  pub take_within : (k : ℕ) (xs ys : List A) → k ≤ length xs → take k (xs ++ ys) ≡ take k xs
  take_within zero xs ys h = refl
  take_within (suc k) [] ys h = absurd (omega arith)
  take_within (suc k) (x ∷ xs) ys h = ap (λ t. x ∷ t) (take_within k xs ys (omega arith))

  drop_nil : (k : ℕ) → drop {A = A} k [] ≡ []
  drop_nil zero = refl
  drop_nil (suc k) = refl

  take_nil : (k : ℕ) → take {A = A} k [] ≡ []
  take_nil zero = refl
  take_nil (suc k) = refl

  pub drop-drop : (m n : ℕ) (xs : List A) → drop n (drop m xs) ≡ drop (m + n) xs
  drop-drop zero n xs = ap (λ k. drop k xs) (omega arith)
  drop-drop (suc m) n [] = drop_nil n ∙ sym (drop_nil (suc m + n))
  drop-drop (suc m) n (x ∷ xs) = drop-drop m n xs ∙ ap (λ k. drop k (x ∷ xs)) (suc_plus m n)
    where
      suc_plus : (a b : ℕ) → suc (a + b) ≡ suc a + b
      suc_plus a b = omega arith

  pub drop-take : (i o : ℕ) (xs : List A) → drop i (take o xs) ≡ take (o - i) (drop i xs)
  drop-take zero o xs = ap (λ k. take k xs) (omega arith)
  drop-take (suc i) zero xs = ap (λ k. take k (drop (suc i) xs)) (nothing i)
    where
      nothing : (n : ℕ) → 0 ≡ 0 - suc n
      nothing n = omega arith
  drop-take (suc i) (suc o) [] = sym (take_nil (suc o - suc i))
  drop-take (suc i) (suc o) (x ∷ xs) = drop-take i o xs ∙ ap (λ k. take k (drop i xs)) (minus o i)
    where
      minus : (a b : ℕ) → a - b ≡ suc a - suc b
      minus a b = omega arith

  pub drop_past : (n : ℕ) (xs : List A) → length xs ≤ n → drop n xs ≡ []
  drop_past n [] h = drop_nil n
  drop_past zero (x ∷ xs) h = absurd (omega arith)
  drop_past (suc n) (x ∷ xs) h = drop_past n xs (omega arith)

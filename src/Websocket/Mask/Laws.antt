-- ===== src/Websocket/Mask/Laws.antt =====
-- Masking against RFC 6455, section 5.3: octet i of the payload is combined with octet i mod 4 of
-- the key, however the payload is cut into buffers.
use mathlib.Core.List.{flatten}
use beast_asio_standalone.Prelude.{
  ℕ, ◌+◌, ◌*◌, ◌/◌, ◌%◌, ◌^◌, ◌<◌, bit_xor, ◌≡◌, refl, sym, ap, ◌∙◌, List, [], ◌∷◌, ◌++◌, arith,
  length, length-append,
}
use beast_asio_standalone.Prelude.Bits.{bit_xor_twice, and_low_eight}
use beast_asio_standalone.Websocket.Mask.{
  PreparedKey, at_index, prepare_key, rol, mask_tail, mask_inplace, mask_inplace_seq,
}

-- the transformed payload, from its octet `i` on
unfoldable pub transformed : PreparedKey → ℕ → List ℕ → List ℕ
transformed key i [] = []
transformed key i (x ∷ xs) = bit_xor x (at_index key (i % 4)) ∷ transformed key (i + 1) xs

at_index-rol :
    (key : PreparedKey) (n i : ℕ) → at_index (rol key n) (i % 4) ≡ at_index key ((i + n) % 4)
unfolding at_index rol
at_index-rol key n i = ground arith

transformed-rol :
    (key : PreparedKey) (n i : ℕ) (xs : List ℕ)
    → transformed (rol key n) i xs ≡ transformed key (i + n) xs
unfolding transformed
transformed-rol key n i [] = refl
transformed-rol key n i (x ∷ xs) =
    ground (arith, at_index-rol key n i, transformed-rol key n (i + 1) xs)

-- only the place modulo four counts
transformed_period :
    (key : PreparedKey) (i : ℕ) (xs : List ℕ) → transformed key (i + 4) xs ≡ transformed key i xs
unfolding transformed
transformed_period key i [] = refl
transformed_period key i (x ∷ xs) = ground (arith, transformed_period key (i + 1) xs)

rol_period : (key : PreparedKey) (n : ℕ) → rol key (n + 4) ≡ rol key n
unfolding rol
rol_period key n = ground arith

rol_zero : (key : PreparedKey) → rol key 0 ≡ key
unfolding rol at_index
rol_zero key = refl

pub rol-rol : (key : PreparedKey) (n m : ℕ) → rol (rol key n) m ≡ rol key (n + m)
rol-rol key n m = unfold rol in ground (arith, place 0, place 1, place 2, place 3)
  where
    place : (j : ℕ) → at_index (rol key n) ((j + m) % 4) ≡ at_index key ((j + (n + m)) % 4)
    place j = at_index-rol key n (j + m) ∙ ap (λ t. at_index key (t % 4)) (omega arith)

-- The words of four bytes and the tail do together what the standard says of each octet, and the
-- key is left turned by the length of the buffer.
pub mask_inplace_lem :
    (xs : List ℕ) (key : PreparedKey)
    → mask_inplace xs key ≡ (transformed key 0 xs, rol key (length xs))
unfolding mask_inplace mask_tail transformed
mask_inplace_lem (w ∷ x ∷ y ∷ z ∷ p) key =
    ground (arith, mask_inplace_lem p key, transformed_period key 0 p, rol_period key (length p))
mask_inplace_lem [] key = rw rol_zero
mask_inplace_lem (x ∷ []) key = refl
mask_inplace_lem (x ∷ y ∷ []) key = refl
mask_inplace_lem (x ∷ y ∷ z ∷ []) key = refl

pub transformed-append :
    (key : PreparedKey) (i : ℕ) (xs ys : List ℕ)
    → transformed key i (xs ++ ys) ≡ transformed key i xs ++ transformed key (i + length xs) ys
unfolding transformed
transformed-append key i [] ys = ground arith
transformed-append key i (x ∷ xs) ys = ground (arith, transformed-append key (i + 1) xs ys)

pub transformed_twice :
    (key : PreparedKey) (i : ℕ) (xs : List ℕ) → transformed key i (transformed key i xs) ≡ xs
unfolding transformed
transformed_twice key i [] = refl
transformed_twice key i (x ∷ xs) =
    ground (arith, bit_xor_twice x (at_index key (i % 4)), transformed_twice key (i + 1) xs)

pub length-transformed :
    (key : PreparedKey) (i : ℕ) (xs : List ℕ) → length (transformed key i xs) ≡ length xs
unfolding transformed
length-transformed key i [] = refl
length-transformed key i (x ∷ xs) = omega (arith, length-transformed key (i + 1) xs)

-- Masking a sequence of buffers combines octet i of the whole payload with octet i mod 4 of the
-- key, wherever the buffers are cut, and leaves the key turned by the length of the payload.
pub mask_inplace_seq_lem :
    (bs : List (List ℕ)) (key : PreparedKey)
    → (flatten (mask_inplace_seq bs key).0 ≡ transformed key 0 (flatten bs))
      × ((mask_inplace_seq bs key).1 ≡ rol key (length (flatten bs)))
unfolding mask_inplace_seq flatten
mask_inplace_seq_lem [] key = (unfold transformed in refl, sym (rol_zero key))
mask_inplace_seq_lem (b ∷ bs) key =
    let rest = mask_inplace_seq_lem bs (rol key (length b)) in
    rw (mask_inplace_lem b key)
      (rw (rest.0, transformed-rol, transformed-append), rw (rest.1, rol-rol, length-append))

-- Masking twice with one key gives the payload back, also where the two passes cut it into
-- different buffers: the receiver need not see the buffers of the sender.
pub mask_inplace_seq_twice :
    (bs cs : List (List ℕ)) (key : PreparedKey)
    → flatten cs ≡ flatten (mask_inplace_seq bs key).0
    → flatten (mask_inplace_seq cs key).0 ≡ flatten bs
mask_inplace_seq_twice bs cs key h =
    (mask_inplace_seq_lem cs key).0
    ∙ ap (transformed key 0) (h ∙ (mask_inplace_seq_lem bs key).0)
    ∙ transformed_twice key 0 (flatten bs)

-- A prepared key holds the four bytes of the key, the lowest first.
pub at_index-prepare_key :
    (key : ℕ)
    → key < 2 ^ 32
    → let k = prepare_key key in
      key ≡ at_index k 0 + at_index k 1 * 2 ^ 8 + at_index k 2 * 2 ^ 16 + at_index k 3 * 2 ^ 24
unfolding at_index prepare_key
at_index-prepare_key key h = omega (
  arith,
  and_low_eight (key / 2 ^ 0),
  and_low_eight (key / 2 ^ 8),
  and_low_eight (key / 2 ^ 16),
  and_low_eight (key / 2 ^ 24),
)

-- ===== src/Websocket/Mask.antt =====
-- websocket/detail/mask.hpp. A buffer is the list of its bytes, a buffer sequence the list of its
-- buffers; an operation in place returns the new bytes.
pub mod Laws
use beast_asio_standalone.Prelude.{
  ℕ, ◌+◌, ◌/◌, ◌%◌, ◌^◌, bit_and, bit_xor, List, [], ◌∷◌, ◌==◌, if◌then◌else◌, length,
}

-- `std::array<unsigned char, 4>`
pub record PreparedKey : Type 0 where
  pub b0 : ℕ
  pub b1 : ℕ
  pub b2 : ℕ
  pub b3 : ℕ

unfoldable pub at_index : PreparedKey → ℕ → ℕ
at_index k i = if i == 0 then k.b0 else if i == 1 then k.b1 else if i == 2 then k.b2 else k.b3

pub prepare_key : ℕ → PreparedKey
prepare_key key = record {
  b0 = bit_and (key / 2 ^ 0) 0xff;
  b1 = bit_and (key / 2 ^ 8) 0xff;
  b2 = bit_and (key / 2 ^ 16) 0xff;
  b3 = bit_and (key / 2 ^ 24) 0xff;
}

-- the loop of `rol` over the four places of a key
unfoldable pub rol : PreparedKey → ℕ → PreparedKey
rol v0 n = record {
  b0 = at_index v0 ((0 + n) % 4);
  b1 = at_index v0 ((1 + n) % 4);
  b2 = at_index v0 ((2 + n) % 4);
  b3 = at_index v0 ((3 + n) % 4);
}

-- the last loop: `p[i] ^= mask[i]` for what is left of the buffer, from place `i` on
unfoldable pub mask_tail : PreparedKey → ℕ → List ℕ → List ℕ
mask_tail mask i [] = []
mask_tail mask i (x ∷ xs) = bit_xor x (at_index mask i) ∷ mask_tail mask (i + 1) xs

-- Four bytes at a time while there are four, then the rest, which turns the key if it is not empty.
unfoldable pub mask_inplace : List ℕ → PreparedKey → List ℕ × PreparedKey
mask_inplace (w ∷ x ∷ y ∷ z ∷ p) key =
    let (masked, key') = mask_inplace p key in
    (
      bit_xor w (at_index key 0)
          ∷ bit_xor x (at_index key 1)
          ∷ bit_xor y (at_index key 2)
          ∷ bit_xor z (at_index key 3)
          ∷ masked,
      key',
    )
mask_inplace [] key = ([], key)
mask_inplace p key = (mask_tail key 0 p, rol key (length p))

-- The key goes on from one buffer to the next.
unfoldable pub mask_inplace_seq : List (List ℕ) → PreparedKey → List (List ℕ) × PreparedKey
mask_inplace_seq [] key = ([], key)
mask_inplace_seq (b ∷ bs) key =
    let (b', key') = mask_inplace b key in
    let (bs', key'') = mask_inplace_seq bs key' in (b' ∷ bs', key'')

-- ===== src/Websocket/Frame/Bytes.antt =====
-- What the bytes of a written header say, field by field.
use beast_asio_standalone.Prelude.{
  ℕ, ◌%◌, ◌^◌, ◌<◌, bit_and, bit_or, ◌≡◌, refl, Bool, true, false, List, [], ◌∷◌, ◌++◌, arith, leb,
  ◌==◌, ◌!=◌, if◌then◌else◌, ==→eq,
}
use beast_asio_standalone.Prelude.Bits.{all_bool, all_bool_sound, all_below, all_below_sound}
use beast_asio_standalone.Websocket.Frame.{
  Endian, Opcode, cont, value, opcode_of, FrameHeader, write, native_to_little_uint32,
}

-- The first byte by its parts.
abbrev pub packed : Bool → Bool → Bool → Bool → ℕ → ℕ
packed fin r1 r2 r3 op =
    let b = bit_or (if fin then 0x80 else 0x00) op in
    let b = if r1 then bit_or b 0x40 else b in
    let b = if r2 then bit_or b 0x20 else b in if r3 then bit_or b 0x10 else b

abbrev Parts : Type 0
Parts = Bool → Bool → Bool → Bool → ℕ → ℕ

-- whether a mask takes a part out of every first byte
takes : ℕ → Parts → Bool
takes m part = all_bool λ fin. all_bool λ r1. all_bool λ r2.
    all_bool λ r3. all_below 16 λ op. bit_and (packed fin r1 r2 r3 op) m == part fin r1 r2 r3 op

takes_sound :
    (m : ℕ) (part : Parts) (fin r1 r2 r3 : Bool) (op : ℕ)
    → takes m part ≡ true
    → op < 16
    → bit_and (packed fin r1 r2 r3 op) m ≡ part fin r1 r2 r3 op
unfolding takes
takes_sound m part fin r1 r2 r3 op h hop = ==→eq _ _ (
    all_below_sound 16 _ op hop
      (all_bool_sound _ r3 (all_bool_sound _ r2 (all_bool_sound _ r1 (all_bool_sound _ fin h)))))

pub opcode_of-value : (op : Opcode) → opcode_of (value op) ≡ op
unfolding opcode_of
opcode_of-value cont = refl
opcode_of-value _ = refl

value-lt : (op : Opcode) → value op < 16
value-lt cont = omega arith
value-lt _ = omega arith

if_ne_zero : (b : Bool) (n : ℕ) → 0 < n → ((if b then n else 0) != 0) ≡ b
if_ne_zero b n h = ground arith

-- Reading the first byte gives back each of its parts.
pub packed_fields :
    (fin r1 r2 r3 : Bool) (op : Opcode)
    → let b = packed fin r1 r2 r3 (value op) in
      (opcode_of (bit_and b 0x0f) ≡ op)
      × ((bit_and b 0x80 != 0) ≡ fin)
      × ((bit_and b 0x40 != 0) ≡ r1)
      × ((bit_and b 0x20 != 0) ≡ r2)
      × ((bit_and b 0x10 != 0) ≡ r3)
unfolding takes all_bool all_below
packed_fields fin r1 r2 r3 op = (
  rw (takes_sound 0x0f (λ _ _ _ _ o. o) fin r1 r2 r3 (value op) refl (value-lt op))
      (opcode_of-value op),
  rw
      (takes_sound 0x80 (λ f _ _ _ _. if f then 0x80 else 0) fin r1 r2 r3 (value op) refl
        (value-lt op))
      (if_ne_zero fin 0x80 (omega arith)),
  rw
      (takes_sound 0x40 (λ _ r _ _ _. if r then 0x40 else 0) fin r1 r2 r3 (value op) refl
        (value-lt op))
      (if_ne_zero r1 0x40 (omega arith)),
  rw
      (takes_sound 0x20 (λ _ _ r _ _. if r then 0x20 else 0) fin r1 r2 r3 (value op) refl
        (value-lt op))
      (if_ne_zero r2 0x20 (omega arith)),
  rw
      (takes_sound 0x10 (λ _ _ _ r _. if r then 0x10 else 0) fin r1 r2 r3 (value op) refl
        (value-lt op))
      (if_ne_zero r3 0x10 (omega arith)),
)

-- The second byte: the mask bit over a length of seven bits.
abbrev pub second : Bool → ℕ → ℕ
second mask n = bit_or (if mask then 0x80 else 0x00) n % 2 ^ 8

second_table : (mask : Bool) → all_below 128 (λ n. bit_and (second mask n) 0x7f == n) ≡ true
unfolding all_below
second_table true = refl
second_table false = refl

mask_table :
    (mask : Bool)
    → all_below 128 (λ n. bit_and (second mask n) 0x80 == (if mask then 128 else 0)) ≡ true
unfolding all_below
mask_table true = refl
mask_table false = refl

pub second_len : (mask : Bool) (n : ℕ) → n < 128 → bit_and (second mask n) 0x7f ≡ n
second_len mask n h = ==→eq _ _ (all_below_sound 128 _ n h (second_table mask))

pub second_mask : (mask : Bool) (n : ℕ) → n < 128 → (bit_and (second mask n) 0x80 != 0) ≡ mask
second_mask true n h =
    ground (arith, ==→eq _ (if true then 128 else 0) (all_below_sound 128 _ n h (mask_table true)))
second_mask false n h =
    ground
      (arith, ==→eq _ (if false then 128 else 0) (all_below_sound 128 _ n h (mask_table false)))

-- The length that the second byte holds: itself, or the mark of an extended length.
abbrev pub short_len : ℕ → ℕ
short_len len = if leb len 125 then len else if leb len 65535 then 126 else 127

pub short_len-lt : (len : ℕ) → short_len len < 128
short_len-lt len = ground arith

-- how many bytes an extended length and a key take
abbrev pub extended_size : ℕ → ℕ
extended_size n = if n == 126 then 2 else if n == 127 then 8 else 0

abbrev pub key_size : FrameHeader → ℕ
key_size fh = if fh.mask then 4 else 0

abbrev pub key_bytes : FrameHeader → List ℕ
key_bytes fh = if fh.mask then native_to_little_uint32 fh.key else []

module _ (endian : Endian) where
  abbrev pub extended : ℕ → List ℕ
  extended len =
      if leb len 125
      then []
      else if leb len 65535
      then endian.big_uint16 (len % 2 ^ 16)
      else endian.big_uint64 len

  pub write_parts :
      (fh : FrameHeader)
      → write endian fh
        ≡ packed fh.fin fh.rsv1 fh.rsv2 fh.rsv3 (value fh.op)
          ∷ second fh.mask (short_len fh.len)
          ∷ (extended fh.len ++ key_bytes fh)
  unfolding write
  write_parts fh = ground arith

-- ===== src/Websocket/Stream/Rebuild.antt =====
-- The bytes of a header, from the fields that were read out of them.
use native.Mathlib.Nat.{mod-eq_of_lt}
use beast_asio_standalone.Prelude.{
  ℕ, ◌+◌, ◌*◌, ◌/◌, ◌%◌, ◌^◌, ◌≤◌, ◌<◌, bit_and, ◌≡◌, refl, ap, Bool, true, false, none, List, [],
  ◌∷◌, ◌++◌, All, arith, ltb, ◌==◌, ◌!=◌, if◌then◌else◌, length, Bool-cases, inl, inr, ==→eq,
  ltb_false→le, le→leb, lt→leb_false, some,
}
use beast_asio_standalone.Prelude.Bits.{IsByte, all_below, by_table, and_low_seven, and_low_eight}
use beast_asio_standalone.Websocket.Mask.{prepare_key}
use beast_asio_standalone.Websocket.Error.{Error, ErrorCode}
use beast_asio_standalone.Websocket.Frame.{
  Endian, value, opcode_of, FrameHeader, native_to_little_uint32, big_uint16_to_native,
  big_uint64_to_native, little_uint32_to_native,
}
use beast_asio_standalone.Websocket.Frame.Bytes.{packed, second, short_len, key_bytes, extended}
use beast_asio_standalone.Websocket.Stream.{ReadState, read_length, read_key}

pub first_rebuilt :
    (t : ℕ)
    → IsByte t
    → packed
        (bit_and t 0x80 != 0)
        (bit_and t 0x40 != 0)
        (bit_and t 0x20 != 0)
        (bit_and t 0x10 != 0)
        (value (opcode_of (bit_and t 0x0f)))
      ≡ t
unfolding all_below opcode_of
first_rebuilt t h =
    by_table
      (λ t.
        packed (bit_and t 0x80 != 0) (bit_and t 0x40 != 0) (bit_and t 0x20 != 0)
          (bit_and t 0x10 != 0) (value (opcode_of (bit_and t 0x0f))))
      (λ t. t) t refl h

pub second_rebuilt : (t : ℕ) → IsByte t → second (bit_and t 0x80 != 0) (bit_and t 0x7f) ≡ t
unfolding all_below
second_rebuilt t h = by_table (λ t. second (bit_and t 0x80 != 0) (bit_and t 0x7f)) (λ t. t) t refl h

pub seven_bits : (t : ℕ) → IsByte t → bit_and t 0x7f < 128
seven_bits t h = rw (and_low_seven t h) (omega arith)

-- What reading an extended length off `cb` has found out.
pub record Measured (endian : Endian) (fh : FrameHeader) (cb : List ℕ)
    (r : FrameHeader × List ℕ × ErrorCode) : Type 0 where
  pub same : r.0 ≡ record fh { len = (r.0).len }
  pub short : short_len (r.0).len ≡ fh.len
  pub fits : (r.0).len < 2 ^ 64
  pub bytes : cb ≡ extended endian (r.0).len ++ r.1

no_error : (t : Bool) (e : Error) → (if t then some e else none) ≡ none → t ≡ false
no_error true e h = cc
no_error false e h = refl

module _ (p0 p1 p2 p3 p4 p5 p6 p7 : ℕ) (h0 : IsByte p0) (h1 : IsByte p1) (h2 : IsByte p2)
    (h3 : IsByte p3) (h4 : IsByte p4) (h5 : IsByte p5) (h6 : IsByte p6) (h7 : IsByte p7) where
  abbrev big_sum : ℕ
  big_sum =
      p0 * 2 ^ 56
      + p1 * 2 ^ 48
      + p2 * 2 ^ 40
      + p3 * 2 ^ 32
      + p4 * 2 ^ 24
      + p5 * 2 ^ 16
      + p6 * 2 ^ 8
      + p7

  big_sum_bytes :
      let v = big_sum % 2 ^ 64 in
      (p0 ≡ v / 2 ^ 56 % 2 ^ 8)
      × (p1 ≡ v / 2 ^ 48 % 2 ^ 8)
      × (p2 ≡ v / 2 ^ 40 % 2 ^ 8)
      × (p3 ≡ v / 2 ^ 32 % 2 ^ 8)
      × (p4 ≡ v / 2 ^ 24 % 2 ^ 8)
      × (p5 ≡ v / 2 ^ 16 % 2 ^ 8)
      × (p6 ≡ v / 2 ^ 8 % 2 ^ 8)
      × (p7 ≡ v % 2 ^ 8)
  big_sum_bytes = omega arith

module _ (endian : Endian) where
  extended_two : (v : ℕ) → 126 ≤ v → v < 2 ^ 16 → extended endian v ≡ v / 2 ^ 8 ∷ v % 2 ^ 8 ∷ []
  extended_two v lo hi = rw (
    lt→leb_false v 125 lo,
    le→leb v 65535 (omega arith),
    mod-eq_of_lt {n = v} {m = 2 ^ 16} hi,
    endian.big_uint16_lem v hi,
  )

  extended_eight :
      (v : ℕ)
      → 65536 ≤ v
      → v < 2 ^ 64
      → extended endian v
        ≡ v / 2 ^ 56 % 2 ^ 8
          ∷ v / 2 ^ 48 % 2 ^ 8
          ∷ v / 2 ^ 40 % 2 ^ 8
          ∷ v / 2 ^ 32 % 2 ^ 8
          ∷ v / 2 ^ 24 % 2 ^ 8
          ∷ v / 2 ^ 16 % 2 ^ 8
          ∷ v / 2 ^ 8 % 2 ^ 8
          ∷ v % 2 ^ 8
          ∷ []
  extended_eight v lo hi =
      rw (lt→leb_false v 125 (omega arith), lt→leb_false v 65535 lo, endian.big_uint64_lem v hi)

module _ (endian : Endian) (fh : FrameHeader) where
  measured_two :
      (cb : List ℕ)
      → All IsByte cb
      → 2 ≤ length cb
      → fh.len ≡ 126
      → (read_length fh cb).2 ≡ none
      → Measured endian fh cb (read_length fh cb)
  unfolding read_length big_uint16_to_native
  measured_two (p0 ∷ p1 ∷ rest) h enough e ok =
      let v = (p0 * 2 ^ 8 + p1) % 2 ^ 16 in
      let lo = ltb_false→le v 126 (no_error (ltb v 126) _ (rw (ap (λ n. n == 126) e) at ok)) in
      rw (ap (λ n. n == 126) e) (record {
        same = refl;
        short = ground arith;
        fits = omega arith;
        bytes = rw (extended_two endian v lo (omega arith)) (ground arith);
      })
  measured_two cb h enough e ok = absurd (omega arith)

  measured_eight :
      (cb : List ℕ)
      → All IsByte cb
      → 8 ≤ length cb
      → fh.len ≡ 127
      → (read_length fh cb).2 ≡ none
      → Measured endian fh cb (read_length fh cb)
  unfolding read_length big_uint64_to_native
  measured_eight (p0 ∷ p1 ∷ p2 ∷ p3 ∷ p4 ∷ p5 ∷ p6 ∷ p7 ∷ rest) h enough e ok =
      let v =
        (p0 * 2 ^ 56
          + p1 * 2 ^ 48
          + p2 * 2 ^ 40
          + p3 * 2 ^ 32
          + p4 * 2 ^ 24
          + p5 * 2 ^ 16
          + p6 * 2 ^ 8
          + p7)
        % 2 ^ 64 in
      let q =
        big_sum_bytes p0 p1 p2 p3 p4 p5 p6 p7 h.0 (h.1).0 ((h.1).1).0 (((h.1).1).1).0
          ((((h.1).1).1).1).0 (((((h.1).1).1).1).1).0 ((((((h.1).1).1).1).1).1).0
          (((((((h.1).1).1).1).1).1).1).0 in
      let lo =
        ltb_false→le v 65536
          (no_error (ltb v 65536) _ (rw (ap (λ n. n == 126) e, ap (λ n. n == 127) e) at ok)) in
      rw (ap (λ n. n == 126) e, ap (λ n. n == 127) e)
        (record {
          same = refl;
          short = ground arith;
          fits = omega arith;
          bytes =
              rw (extended_eight endian v lo (omega arith))
                (λ i. q.0 i ∷ q.1 i ∷ q.2 i ∷ q.3 i ∷ q.4 i ∷ q.5 i ∷ q.6 i ∷ q.7 i ∷ rest);
        })
  measured_eight cb h enough e ok = absurd (omega arith)

  measured_none : (cb : List ℕ) → fh.len ≤ 125 → Measured endian fh cb (fh, cb, none)
  measured_none cb h = record {
    same = refl;
    short = rw (le→leb fh.len 125 h);
    fits = omega arith;
    bytes = rw (le→leb fh.len 125 h);
  }

  pub read_length-Measured :
      (cb : List ℕ)
      → All IsByte cb
      → fh.len < 128
      → (if fh.len == 126 then 2 else if fh.len == 127 then 8 else 0) ≤ length cb
      → (read_length fh cb).2 ≡ none
      → Measured endian fh cb (read_length fh cb)
  read_length-Measured cb h small enough ok = elim (Bool-cases (fh.len == 126)) [
    | inl two ↦ measured_two cb h (rw two at enough) (==→eq fh.len 126 two) ok
    | inr not_two ↦ elim (Bool-cases (fh.len == 127)) [
      | inl eight ↦ measured_eight cb h (rw (not_two, eight) at enough) (==→eq fh.len 127 eight) ok
      | inr not_eight ↦
          unfold read_length in rw (not_two, not_eight) (measured_none cb (ground arith))
    ]
  ]

-- What reading a key off `cb` has found out.
pub record Keyed (fh : FrameHeader) (cb : List ℕ) (s : ReadState)
    (r : FrameHeader × List ℕ × ReadState) : Type 0 where
  pub same : r.0 ≡ record fh { key = (r.0).key }
  pub fits : (r.0).key < 2 ^ 32
  pub zero : fh.mask ≡ false → (r.0).key ≡ 0
  pub bytes : cb ≡ key_bytes (r.0) ++ r.1
  pub stream : r.2 ≡ record s { rd_key = if fh.mask then prepare_key (r.0).key else s.rd_key }

little_bytes :
    (p0 p1 p2 p3 : ℕ)
    → IsByte p0
    → IsByte p1
    → IsByte p2
    → IsByte p3
    → let v = (p0 + p1 * 2 ^ 8 + p2 * 2 ^ 16 + p3 * 2 ^ 24) % 2 ^ 32 in
      (p0 ≡ bit_and v 0xff)
      × (p1 ≡ bit_and (v / 2 ^ 8) 0xff)
      × (p2 ≡ bit_and (v / 2 ^ 16) 0xff)
      × (p3 ≡ bit_and (v / 2 ^ 24) 0xff)
little_bytes p0 p1 p2 p3 h0 h1 h2 h3 =
    let v = (p0 + p1 * 2 ^ 8 + p2 * 2 ^ 16 + p3 * 2 ^ 24) % 2 ^ 32 in
    rw
      (
        and_low_eight v,
        and_low_eight (v / 2 ^ 8),
        and_low_eight (v / 2 ^ 16),
        and_low_eight (v / 2 ^ 24),
      )
      (omega arith)

module _ (fh : FrameHeader) (s : ReadState) where
  Keyed-four :
      (cb : List ℕ)
      → All IsByte cb
      → 4 ≤ length cb
      → fh.mask ≡ true
      → Keyed fh cb s (read_key fh cb s)
  unfolding read_key little_uint32_to_native native_to_little_uint32
  Keyed-four (p0 ∷ p1 ∷ p2 ∷ p3 ∷ rest) h enough m =
      let q = little_bytes p0 p1 p2 p3 h.0 (h.1).0 ((h.1).1).0 (((h.1).1).1).0 in
      rw m (record {
        same = refl;
        fits = omega arith;
        zero = λ z. cc;
        bytes = λ i. q.0 i ∷ q.1 i ∷ q.2 i ∷ q.3 i ∷ rest;
        stream = refl;
      })
  Keyed-four cb h enough m = absurd (omega arith)

  pub read_key-Keyed :
      (cb : List ℕ)
      → All IsByte cb
      → (if fh.mask then 4 else 0) ≤ length cb
      → Keyed fh cb s (read_key fh cb s)
  read_key-Keyed cb h enough = elim (Bool-cases fh.mask) [
    | inl m ↦ Keyed-four cb h (rw m at enough) m
    | inr m ↦
        unfold read_key in
        rw m (record {
          same = refl;
          fits = omega arith;
          zero = λ _. refl;
          bytes = refl;
          stream = refl;
        })
  ]

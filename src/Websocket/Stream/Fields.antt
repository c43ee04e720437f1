-- ===== src/Websocket/Stream/Fields.antt =====
-- Each part of a written header is read back.
use beast_asio_standalone.Prelude.{
  ℕ, ◌+◌, ◌*◌, ◌/◌, ◌%◌, ◌^◌, ◌≤◌, ◌<◌, bit_and, ◌≡◌, ap, false, none, List, ◌++◌, arith, leb, ◌==◌,
  if◌then◌else◌, length, Bool-cases, leb→le, leb_false→lt, ge→ltb_false, inl, inr,
}
use beast_asio_standalone.Prelude.Bits.{and_low_eight}
use beast_asio_standalone.Websocket.Mask.{prepare_key}
use beast_asio_standalone.Websocket.Frame.{
  Endian, value, FrameHeader, native_to_little_uint32, big_uint16_to_native, big_uint64_to_native,
  little_uint32_to_native,
}
use beast_asio_standalone.Websocket.Frame.Bytes.{
  packed, packed_fields, second, second_len, second_mask, short_len, short_len-lt, key_bytes,
  extended,
}
use beast_asio_standalone.Websocket.Stream.{
  ReadState, read_second, read_first, read_length, read_key,
}

pub header_read :
    (fh0 fh : FrameHeader)
    → read_first
        (read_second fh0 (second fh.mask (short_len fh.len)))
        (packed fh.fin fh.rsv1 fh.rsv2 fh.rsv3 (value fh.op))
      ≡ record fh { len = short_len fh.len; key = fh0.key }
unfolding read_first read_second
header_read fh0 fh =
    let fields = packed_fields fh.fin fh.rsv1 fh.rsv2 fh.rsv3 fh.op in
    λ i. record {
      len = second_len fh.mask (short_len fh.len) (short_len-lt fh.len) i;
      key = fh0.key;
      op = fields.0 i;
      fin = fields.1 i;
      mask = second_mask fh.mask (short_len fh.len) (short_len-lt fh.len) i;
      rsv1 = fields.2 i;
      rsv2 = fields.3 i;
      rsv3 = fields.4 i;
    }

two_bytes : (n : ℕ) → n ≤ 65535 → (n % 2 ^ 16 / 2 ^ 8 * 2 ^ 8 + n % 2 ^ 16 % 2 ^ 8) % 2 ^ 16 ≡ n
two_bytes n h = omega arith

eight_bytes :
    (n : ℕ)
    → n < 2 ^ 64
    → (n / 2 ^ 56 % 2 ^ 8 * 2 ^ 56
          + n / 2 ^ 48 % 2 ^ 8 * 2 ^ 48
          + n / 2 ^ 40 % 2 ^ 8 * 2 ^ 40
          + n / 2 ^ 32 % 2 ^ 8 * 2 ^ 32
          + n / 2 ^ 24 % 2 ^ 8 * 2 ^ 24
          + n / 2 ^ 16 % 2 ^ 8 * 2 ^ 16
          + n / 2 ^ 8 % 2 ^ 8 * 2 ^ 8
          + n % 2 ^ 8)
        % 2 ^ 64
      ≡ n
eight_bytes n h = omega arith

four_bytes :
    (n : ℕ)
    → n < 2 ^ 32
    → (bit_and n 0xff
          + bit_and (n / 2 ^ 8) 0xff * 2 ^ 8
          + bit_and (n / 2 ^ 16) 0xff * 2 ^ 16
          + bit_and (n / 2 ^ 24) 0xff * 2 ^ 24)
        % 2 ^ 32
      ≡ n
four_bytes n h = omega (
  arith,
  and_low_eight n,
  and_low_eight (n / 2 ^ 8),
  and_low_eight (n / 2 ^ 16),
  and_low_eight (n / 2 ^ 24),
)

module _ (endian : Endian) where
  pub length-extended :
      (len : ℕ)
      → len < 2 ^ 64
      → length (extended endian len)
        ≡ (if short_len len == 126 then 2 else if short_len len == 127 then 8 else 0)
  length-extended len h = ground (
    arith,
    ap length (endian.big_uint16_lem (len % 2 ^ 16) (omega arith)),
    ap length (endian.big_uint64_lem len h),
  )

  pub read_length-extended :
      (fh : FrameHeader) (len : ℕ) (rest : List ℕ)
      → len < 2 ^ 64
      → read_length (record fh { len = short_len len }) (extended endian len ++ rest)
        ≡ (record fh { len = len }, rest, none)
  unfolding read_length big_uint16_to_native big_uint64_to_native
  read_length-extended fh len rest h = elim (Bool-cases (leb len 125)) [
    | inl small ↦ rw small (ground (arith, leb→le len 125 small))
    | inr big ↦ rw big (elim (Bool-cases (leb len 65535)) [
      | inl mid ↦
          rw (mid, endian.big_uint16_lem (len % 2 ^ 16) (omega arith))
            (rw (two_bytes len (leb→le len 65535 mid))
              (rw (ge→ltb_false len 126 (leb_false→lt len 125 big))))
      | inr large ↦
          rw (large, endian.big_uint64_lem len h)
            (rw (eight_bytes len h) (rw (ge→ltb_false len 65536 (leb_false→lt len 65535 large))))
    ])
  ]

pub read_key-key_bytes :
    (fh : FrameHeader) (s : ReadState) (k0 : ℕ) (rest : List ℕ)
    → fh.key < 2 ^ 32
    → (fh.mask ≡ false → fh.key ≡ 0)
    → read_key (record fh { key = k0 }) (key_bytes fh ++ rest) s
      ≡ (fh, rest, record s { rd_key = if fh.mask then prepare_key fh.key else s.rd_key })
unfolding read_key native_to_little_uint32 little_uint32_to_native
read_key-key_bytes fh s k0 rest h z = elim (Bool-cases fh.mask) [
  | inl m ↦ rw m (ground (arith, four_bytes fh.key h))
  | inr m ↦ rw m (ground (arith, z m))
]

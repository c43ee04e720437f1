-- ===== src/Websocket/Frame.antt =====
-- websocket/detail/frame.hpp: opcodes, the frame header, and the writing of it.
pub mod Bytes
use beast_asio_standalone.Prelude.{
  ℕ, ◌+◌, ◌*◌, ◌/◌, ◌%◌, ◌^◌, ◌<◌, bit_and, bit_or, ◌≡◌, Bool, true, false, ◌&&◌, ◌||◌, List, [],
  ◌∷◌, ◌++◌, leb, ◌==◌, if◌then◌else◌,
}

-- `boost::endian::big_uint16_buf_t` and `big_uint64_buf_t`: the bytes that such a buffer occupies,
-- which are documented to stand in big-endian order.
pub record Endian : Type 0 where
  pub big_uint16 : ℕ → List ℕ
  pub big_uint64 : ℕ → List ℕ
  pub big_uint16_lem : (v : ℕ) → v < 2 ^ 16 → big_uint16 v ≡ v / 2 ^ 8 ∷ v % 2 ^ 8 ∷ []
  pub big_uint64_lem :
      (v : ℕ)
      → v < 2 ^ 64
      → big_uint64 v
        ≡ v / 2 ^ 56 % 2 ^ 8
          ∷ v / 2 ^ 48 % 2 ^ 8
          ∷ v / 2 ^ 40 % 2 ^ 8
          ∷ v / 2 ^ 32 % 2 ^ 8
          ∷ v / 2 ^ 24 % 2 ^ 8
          ∷ v / 2 ^ 16 % 2 ^ 8
          ∷ v / 2 ^ 8 % 2 ^ 8
          ∷ v % 2 ^ 8
          ∷ []

unfoldable pub big_uint16_to_native : ℕ → ℕ → ℕ
big_uint16_to_native p0 p1 = (p0 * 2 ^ 8 + p1) % 2 ^ 16

unfoldable pub big_uint64_to_native : ℕ → ℕ → ℕ → ℕ → ℕ → ℕ → ℕ → ℕ → ℕ
big_uint64_to_native p0 p1 p2 p3 p4 p5 p6 p7 =
    (p0 * 2 ^ 56
      + p1 * 2 ^ 48
      + p2 * 2 ^ 40
      + p3 * 2 ^ 32
      + p4 * 2 ^ 24
      + p5 * 2 ^ 16
      + p6 * 2 ^ 8
      + p7)
    % 2 ^ 64

unfoldable pub little_uint32_to_native : ℕ → ℕ → ℕ → ℕ → ℕ
little_uint32_to_native p0 p1 p2 p3 = (p0 + p1 * 2 ^ 8 + p2 * 2 ^ 16 + p3 * 2 ^ 24) % 2 ^ 32

unfoldable pub native_to_little_uint32 : ℕ → List ℕ
native_to_little_uint32 v =
    bit_and v 0xff
    ∷ bit_and (v / 2 ^ 8) 0xff
    ∷ bit_and (v / 2 ^ 16) 0xff
    ∷ bit_and (v / 2 ^ 24) 0xff
    ∷ []

pub data Opcode : Type 0 where
  cont text binary rsv3 rsv4 rsv5 rsv6 rsv7 : Opcode
  close ping pong crsvb crsvc crsvd crsve crsvf : Opcode

abbrev pub value : Opcode → ℕ
value cont = 0
value text = 1
value binary = 2
value rsv3 = 3
value rsv4 = 4
value rsv5 = 5
value rsv6 = 6
value rsv7 = 7
value close = 8
value ping = 9
value pong = 10
value crsvb = 11
value crsvc = 12
value crsvd = 13
value crsve = 14
value crsvf = 15

-- `static_cast<opcode>` of a number below 16
unfoldable pub opcode_of : ℕ → Opcode
opcode_of v =
    if v == 0
    then cont
    else if v == 1
    then text
    else if v == 2
    then binary
    else if v == 3
    then rsv3
    else if v == 4
    then rsv4
    else if v == 5
    then rsv5
    else if v == 6
    then rsv6
    else if v == 7
    then rsv7
    else if v == 8
    then close
    else if v == 9
    then ping
    else if v == 10
    then pong
    else if v == 11
    then crsvb
    else if v == 12
    then crsvc
    else if v == 13
    then crsvd
    else if v == 14
    then crsve
    else crsvf

pub record FrameHeader : Type 0 where
  pub len : ℕ
  pub key : ℕ
  pub op : Opcode
  pub fin : Bool
  pub mask : Bool
  pub rsv1 : Bool
  pub rsv2 : Bool
  pub rsv3 : Bool

abbrev pub is_reserved : Opcode → Bool
is_reserved op =
    leb (value rsv3) (value op) && leb (value op) (value rsv7)
    || leb (value crsvb) (value op) && leb (value op) (value crsvf)

abbrev pub is_control : Opcode → Bool
is_control op = leb (value close) (value op)

-- `b[0]`
unfoldable pub first_byte : FrameHeader → ℕ
first_byte fh =
    let b = bit_or (if fh.fin then 0x80 else 0x00) (value fh.op) in
    let b = if fh.rsv1 then bit_or b 0x40 else b in
    let b = if fh.rsv2 then bit_or b 0x20 else b in if fh.rsv3 then bit_or b 0x10 else b

module _ (endian : Endian) where
  -- `b[1]` and the extended length
  unfoldable pub length_bytes : FrameHeader → List ℕ
  length_bytes fh =
      let b1 = if fh.mask then 0x80 else 0x00 in
      if leb fh.len 125
      then bit_or b1 fh.len % 2 ^ 8 ∷ []
      else if leb fh.len 65535
      then bit_or b1 126 % 2 ^ 8 ∷ endian.big_uint16 (fh.len % 2 ^ 16)
      else bit_or b1 127 % 2 ^ 8 ∷ endian.big_uint64 fh.len

  -- the bytes that `write` commits to the dynamic buffer
  unfoldable pub write : FrameHeader → List ℕ
  unfolding first_byte length_bytes native_to_little_uint32
  write fh =
      first_byte fh ∷ (length_bytes fh ++ (if fh.mask then native_to_little_uint32 fh.key else []))

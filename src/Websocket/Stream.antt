-- ===== src/Websocket/Stream.antt =====
-- websocket/impl/stream.ipp: `parse_fh`, over the members of the stream that it reads and writes
-- (websocket/stream.hpp, websocket/detail/stream_base.hpp). The dynamic buffer is the list of the
-- bytes that it holds.
pub mod Spec
mod Fields
mod Checks
pub mod RoundTrip
mod Inversion
mod Rebuild
pub mod Decode
mod Verdict
pub mod Incremental
pub mod Sound
use beast_asio_standalone.Prelude.{
  ℕ, ◌+◌, ◌-◌, ◌^◌, bit_and, Bool, true, false, not, ◌&&◌, ◌||◌, Option, none, some, List, ◌∷◌, ltb,
  ◌==◌, ◌!=◌, if◌then◌else◌, length, get_or, drop,
}
use beast_asio_standalone.Core.Clamp.{sum_exceeds}
use beast_asio_standalone.Websocket.Mask.{PreparedKey, prepare_key}
use beast_asio_standalone.Websocket.Error.{
  ErrorCode, message_too_big, bad_opcode, bad_data_frame, bad_continuation, bad_reserved_bits,
  bad_control_fragment, bad_control_size, bad_unmasked_frame, bad_masked_frame, bad_size,
}
use beast_asio_standalone.Websocket.Frame.{
  Opcode, cont, text, binary, value, opcode_of, FrameHeader, is_reserved, is_control,
  big_uint16_to_native, big_uint64_to_native, little_uint32_to_native,
}

pub data RoleType : Type 0 where
  client server : RoleType

-- `pmd` is `none` where `pmd_` is null, and else `rd_set`.
pub record ReadState : Type 0 where
  pub role : RoleType
  pub rd_msg_max : ℕ
  pub rd_size : ℕ
  pub rd_remain : ℕ
  pub rd_key : PreparedKey
  pub rd_op : Opcode
  pub rd_cont : Bool
  pub pmd : Option Bool

-- `stream_base::rd_deflated()`
abbrev pub rd_deflated : ReadState → Bool
rd_deflated s = elim s.pmd [ none ↦ false | some rd_set ↦ rd_set ]

-- `stream_base::rd_deflated(rsv1)`
abbrev pub set_rd_deflated : ReadState → Bool → ReadState × Bool
set_rd_deflated s rsv1 = elim s.pmd [
  | none ↦ (s, not rsv1)
  | some _ ↦ (record s { pmd = some rsv1 }, true)
]

-- the fields that the second byte and the first byte hold
unfoldable pub read_second : FrameHeader → ℕ → FrameHeader
read_second fh t = record fh { len = bit_and t 0x7f; mask = bit_and t 0x80 != 0 }

unfoldable pub read_first : FrameHeader → ℕ → FrameHeader
read_first fh t = record fh {
  op = opcode_of (bit_and t 0x0f);
  fin = bit_and t 0x80 != 0;
  rsv1 = bit_and t 0x40 != 0;
  rsv2 = bit_and t 0x20 != 0;
  rsv3 = bit_and t 0x10 != 0;
}

-- how many more bytes the header has
unfoldable pub need_of : FrameHeader → ℕ
need_of fh =
    (if fh.len == 126 then 2 else if fh.len == 127 then 8 else 0) + (if fh.mask then 4 else 0)

unfoldable pub check_data : FrameHeader → ReadState → ReadState × ErrorCode
check_data fh s =
    if s.rd_cont
    then (s, some bad_data_frame)
    else if fh.rsv2 || fh.rsv3
    then (s, some bad_reserved_bits)
    else let (s', allowed) = set_rd_deflated s fh.rsv1 in
      (s', if allowed then none else some bad_reserved_bits)

unfoldable pub check_cont : FrameHeader → ReadState → ErrorCode
check_cont fh s =
    if not s.rd_cont
    then some bad_continuation
    else if fh.rsv1 || fh.rsv2 || fh.rsv3
    then some bad_reserved_bits
    else none

unfoldable pub check_control : FrameHeader → ErrorCode
check_control fh =
    if is_reserved fh.op
    then some bad_opcode
    else if not fh.fin
    then some bad_control_fragment
    else if ltb 125 fh.len
    then some bad_control_size
    else if fh.rsv1 || fh.rsv2 || fh.rsv3
    then some bad_reserved_bits
    else none

-- `switch(fh.op)`
unfoldable pub check_op : Opcode → FrameHeader → ReadState → ReadState × ErrorCode
unfolding check_data check_cont check_control
check_op binary fh s = check_data fh s
check_op text fh s = check_data fh s
check_op cont fh s = (s, check_cont fh s)
check_op _ fh s = (s, check_control fh)

unfoldable pub check_mask : RoleType → FrameHeader → ErrorCode
check_mask server fh = if not fh.mask then some bad_unmasked_frame else none
check_mask client fh = if fh.mask then some bad_masked_frame else none

-- `switch(fh.len)`: the extended length, and the bytes behind it
unfoldable pub read_length : FrameHeader → List ℕ → FrameHeader × List ℕ × ErrorCode
read_length fh cb =
    let at = get_or cb in
    if fh.len == 126
    then (let len = big_uint16_to_native (at 0 0) (at 1 0) in
        (record fh { len = len }, drop 2 cb, if ltb len 126 then some bad_size else none))
    else if fh.len == 127
    then (let len =
          big_uint64_to_native (at 0 0) (at 1 0) (at 2 0) (at 3 0) (at 4 0) (at 5 0) (at 6 0)
            (at 7 0) in
        (record fh { len = len }, drop 8 cb, if ltb len 65536 then some bad_size else none))
    else (fh, cb, none)

unfoldable pub read_key : FrameHeader → List ℕ → ReadState → FrameHeader × List ℕ × ReadState
read_key fh cb s =
    if fh.mask
    then (let key =
          little_uint32_to_native (get_or cb 0 0) (get_or cb 1 0) (get_or cb 2 0) (get_or cb 3 0) in
        (record fh { key = key }, drop 4 cb, record s { rd_key = prepare_key key }))
    else (record fh { key = 0 }, cb, s)

-- the last block: what a data frame does to the message that is read
unfoldable pub start_message : FrameHeader → ReadState → ReadState
start_message fh s =
    if value fh.op != value cont then record s { rd_size = 0; rd_op = fh.op } else s

unfoldable pub begin_payload : FrameHeader → ReadState → ReadState × ErrorCode
unfolding start_message
begin_payload fh s =
    if is_control fh.op
    then (s, none)
    else let s' = start_message fh s in
      if value fh.op == value cont && ltb (2 ^ 64 - 1 - fh.len) s.rd_size
      then (s', some message_too_big)
      else if not (rd_deflated s')
          && s'.rd_msg_max != 0
          && sum_exceeds s'.rd_size fh.len s'.rd_msg_max
      then (s', some message_too_big)
      else (record s' { rd_cont = not fh.fin; rd_remain = fh.len }, none)

-- What a call leaves: the result, the header, the stream, the buffer and the error code.
pub record Parsed : Type 0 where
  pub ret : Bool
  pub fh : FrameHeader
  pub stream : ReadState
  pub b : List ℕ
  pub ec : ErrorCode

abbrev pub stop : FrameHeader → ReadState → List ℕ → ErrorCode → Parsed
stop fh s b ec = record { ret = false; fh = fh; stream = s; b = b; ec = ec }

-- The code from the last block back to the first, each part over what the one before it gave.
-- At the end `b.consume(b.size() - buffer_size(cb))`.
unfoldable pub after_payload : FrameHeader → List ℕ → List ℕ → ReadState × ErrorCode → Parsed
after_payload fh b cb (s, some e) = stop fh s b (some e)
after_payload fh b cb (s, none) = record {
  ret = true;
  fh = fh;
  stream = s;
  b = drop (length b - length cb) b;
  ec = none;
}

unfoldable pub after_key : List ℕ → FrameHeader × List ℕ × ReadState → Parsed
after_key b (fh, cb, s) = after_payload fh b cb (begin_payload fh s)

unfoldable pub after_length : ReadState → List ℕ → FrameHeader × List ℕ × ErrorCode → Parsed
after_length s b (fh, cb, some e) = stop fh s b (some e)
after_length s b (fh, cb, none) = after_key b (read_key fh cb s)

-- A control frame whose payload is not there yet leaves the error code `ec` as it was.
unfoldable pub after_checks :
    FrameHeader → ReadState → List ℕ → List ℕ → ErrorCode → ℕ → ErrorCode → Parsed
after_checks fh s b cb ec need (some e) = stop fh s b (some e)
after_checks fh s b cb ec need none =
    if is_control fh.op && ltb (length cb) (need + fh.len)
    then stop fh s b ec
    else after_length s b (read_length fh cb)

unfoldable pub after_op :
    FrameHeader → List ℕ → List ℕ → ErrorCode → ℕ → ReadState × ErrorCode → Parsed
after_op fh b cb ec need (s, some e) = stop fh s b (some e)
after_op fh b cb ec need (s, none) = after_checks fh s b cb ec need (check_mask s.role fh)

unfoldable pub parse_fh : FrameHeader → List ℕ → ErrorCode → ReadState → Parsed
parse_fh fh (t0 ∷ t1 ∷ cb) ec s =
    let fh' = read_second fh t1 in
    let need = need_of fh' in
    if ltb (length cb) need
    then stop fh' s (t0 ∷ t1 ∷ cb) none
    else let fh'' = read_first fh' t0 in
      after_op fh'' (t0 ∷ t1 ∷ cb) cb ec need (check_op fh''.op fh'' s)
parse_fh fh b ec s = stop fh s b none

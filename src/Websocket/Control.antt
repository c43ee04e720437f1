-- ===== src/Websocket/Control.antt =====
-- Control frames: `close_code` and `close_reason` (websocket/rfc6455.hpp), `is_valid_close_code`,
-- `read_ping` and `read_close` (websocket/detail/frame.hpp), `write_close` and `write_ping`
-- (websocket/impl/stream.ipp), and the payload that `read_some` hands to the readers
-- (websocket/impl/read.ipp).
pub mod Frames
pub mod RoundTrip
pub mod Errors
use beast_asio_standalone.Prelude.{
  ℕ, ◌+◌, ◌-◌, ◌^◌, ◌%◌, Bool, true, false, ◌&&◌, ◌||◌, not, Option, none, some, List, [], ◌∷◌,
  ◌++◌, leb, ltb, ◌==◌, ◌!=◌, if◌then◌else◌, length, get_or, take, drop,
}
use beast_asio_standalone.Core.Clamp.{clamp}
use beast_asio_standalone.Websocket.Mask.{PreparedKey, prepare_key, mask_inplace}
use beast_asio_standalone.Websocket.Error.{
  ErrorCode, bad_close_code, bad_close_size, bad_close_payload,
}
use beast_asio_standalone.Websocket.Frame.{
  Endian, big_uint16_to_native, Opcode, close, FrameHeader, write,
}
use beast_asio_standalone.Websocket.Stream.{RoleType, client, server}
use beast_asio_standalone.Websocket.Utf8.{check_utf8}

-- A close code is any number of 16 bits; the enumeration has names for these.
abbrev pub no_code : ℕ
no_code = 0

-- `close_reason`, over the bytes of its `reason_string`
pub record CloseReason : Type 0 where
  pub code : ℕ
  pub reason : List ℕ

-- its default constructor
abbrev pub no_reason : CloseReason
no_reason = record { code = no_code; reason = [] }

unfoldable pub is_valid_close_code : ℕ → Bool
is_valid_close_code v =
    if v == 1000
      || v == 1001
      || v == 1002
      || v == 1003
      || v == 1007
      || v == 1008
      || v == 1009
      || v == 1010
      || v == 1011
      || v == 1012
      || v == 1013
    then true
    else if v == 1004 || v == 1005 || v == 1006 || v == 1014 || v == 1015
    then false
    else if leb 1016 v && leb v 2999
    then false
    else if leb v 999
    then false
    else true

-- the payload is copied into `data`
abbrev pub read_ping : List ℕ → List ℕ
read_ping bs = bs

-- What stands in `cr` afterwards, and the error. `address` is where the bytes of the reason stand.
unfoldable pub read_close : CloseReason → ℕ → List ℕ → CloseReason × ErrorCode
read_close cr address bs =
    let n = length bs in
    if n == 0
    then (no_reason, none)
    else if n == 1
    then (cr, some bad_close_size)
    else let code = big_uint16_to_native (get_or bs 0 0) (get_or bs 1 0) in
      let cb = drop 2 bs in
      if not (is_valid_close_code code)
      then (record cr { code = code }, some bad_close_code)
      else if ltb 0 (n - 2)
      then (
        record cr { code = code; reason = cb },
        if not (check_utf8 address cb) then some bad_close_payload else none,
      )
      else (record cr { code = code; reason = [] }, none)

module _ (role : RoleType) (mask_key : ℕ) where
  -- The header of a control frame of `len` octets; `mask_key` is what `create_mask` returns.
  unfoldable pub control_header : Opcode → ℕ → FrameHeader
  control_header op len = elim role [
    | client ↦ record {
      len = len;
      key = mask_key;
      op = op;
      fin = true;
      mask = true;
      rsv1 = false;
      rsv2 = false;
      rsv3 = false;
    }
    | server ↦ record {
      len = len;
      key = 0;
      op = op;
      fin = true;
      mask = false;
      rsv1 = false;
      rsv2 = false;
      rsv3 = false;
    }
  ]

  module _ (endian : Endian) where
    -- the bytes that go to the dynamic buffer, which gives one buffer for each `prepare`
    unfoldable pub write_close : CloseReason → List ℕ
    write_close cr =
        let fh = control_header close (if cr.code == no_code then 0 else 2 + length cr.reason) in
        let code = endian.big_uint16 (cr.code % 2 ^ 16) in
        let (code', key) = mask_inplace code (prepare_key fh.key) in
        let (reason', _) = mask_inplace cr.reason key in
        write endian fh
        ++ (if cr.code == no_code
            then []
            else if fh.mask
            then code' ++ (if length cr.reason != 0 then reason' else [])
            else code ++ cr.reason)

    unfoldable pub write_ping : Opcode → List ℕ → List ℕ
    write_ping code payload =
        let fh = control_header code (length payload) in
        write endian fh
        ++ (if length payload == 0
            then []
            else if fh.mask
            then (mask_inplace payload (prepare_key fh.key)).0
            else payload)

-- The payload that `read_some` takes from its buffer: the mask is applied in place, and the length
-- of the frame is cut off. The cut of the buffer in two does not matter to the mask.
unfoldable pub control_payload : FrameHeader → PreparedKey → List ℕ → List ℕ
control_payload fh rd_key buf =
    let b = take (clamp fh.len) buf in
    if fh.len != 0 && fh.mask then (mask_inplace b rd_key).0 else b

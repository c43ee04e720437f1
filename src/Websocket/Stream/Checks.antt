-- ===== src/Websocket/Stream/Checks.antt =====
-- The checks of `parse_fh` let an acceptable header through.
use beast_asio_standalone.Prelude.{
  ℕ, ◌+◌, ◌≤◌, ◌≡◌, Bool, true, false, not, ◌&&◌, none, arith, ◌!=◌, if◌then◌else◌, ◌⊎◌,
}
use beast_asio_standalone.Core.Clamp.{sum_exceeds}
use beast_asio_standalone.Websocket.Mask.{prepare_key}
use beast_asio_standalone.Websocket.Frame.{
  Opcode, cont, text, binary, close, ping, pong, FrameHeader,
}
use beast_asio_standalone.Websocket.Frame.Bytes.{short_len}
use beast_asio_standalone.Websocket.Stream.{
  RoleType, client, server, ReadState, check_op, check_mask, begin_payload,
}
use beast_asio_standalone.Websocket.Stream.Spec.{
  size_before, pmd_after, deflated_after, IsAcceptable, accepted,
}

within_limit :
    (deflated : Bool) (max before len : ℕ)
    → (deflated ≡ true) ⊎ (max ≡ 0) ⊎ (before + len ≤ max)
    → (not deflated && max != 0 && sum_exceeds before len max) ≡ false
unfolding sum_exceeds
within_limit deflated max before len h = ground arith

-- The checks let an acceptable header through; only the compression state changes.
module _ {s : ReadState} {fh : FrameHeader} (a : IsAcceptable s fh) (k0 : ℕ) where
  abbrev pub short : FrameHeader
  short = record fh { len = short_len fh.len; key = k0 }

  pub check_op_pass :
      (op : Opcode) → fh.op ≡ op → check_op op short s ≡ (record s { pmd = pmd_after s fh }, none)
  unfolding check_op
  check_op_pass cont e = ground (arith, a.cont_within e, a.rsv1_negotiated)
  check_op_pass text e = ground (arith, a.first_between (rw e), a.rsv1_negotiated)
  check_op_pass binary e = ground (arith, a.first_between (rw e), a.rsv1_negotiated)
  check_op_pass close e = ground (arith, a.control_whole (rw e), a.rsv1_negotiated)
  check_op_pass ping e = ground (arith, a.control_whole (rw e), a.rsv1_negotiated)
  check_op_pass pong e = ground (arith, a.control_whole (rw e), a.rsv1_negotiated)
  check_op_pass _ e = ground (arith, a.known)

  pub check_mask_pass : (r : RoleType) → s.role ≡ r → check_mask r short ≡ none
  unfolding check_mask
  check_mask_pass server e = ground (arith, a.masked)
  check_mask_pass client e = ground (arith, a.masked)

  abbrev pub checked : ReadState
  checked = record s {
    pmd = pmd_after s fh;
    rd_key = if fh.mask then prepare_key fh.key else s.rd_key;
  }

  pub begin_payload_pass :
      (op : Opcode) → fh.op ≡ op → begin_payload fh checked ≡ (accepted s fh, none)
  unfolding begin_payload
  begin_payload_pass cont e =
      let f = a.fits (rw e) in
      ground (
        arith,
        f.in_range,
        within_limit (deflated_after s fh) s.rd_msg_max (size_before s fh) fh.len f.in_limit,
      )
  begin_payload_pass text e =
      let f = a.fits (rw e) in
      ground (
        arith,
        within_limit (deflated_after s fh) s.rd_msg_max (size_before s fh) fh.len f.in_limit,
      )
  begin_payload_pass binary e =
      let f = a.fits (rw e) in
      ground (
        arith,
        within_limit (deflated_after s fh) s.rd_msg_max (size_before s fh) fh.len f.in_limit,
      )
  begin_payload_pass close e = ground arith
  begin_payload_pass _ e = ground arith

-- ===== src/Websocket/Stream/Sound.antt =====
-- What the checks of `parse_fh` have found out about a header that they let through.
use beast_asio_standalone.Prelude.{
  ℕ, ◌+◌, ◌^◌, ◌≤◌, ◌<◌, ◌≡◌, ◌≢◌, Bool, true, false, not, ◌&&◌, none, arith, ◌!=◌, if◌then◌else◌,
  ◌⊎◌,
}
use beast_asio_standalone.Core.Clamp.{sum_exceeds}
use beast_asio_standalone.Websocket.Mask.{prepare_key}
use beast_asio_standalone.Websocket.Error.{ErrorCode}
use beast_asio_standalone.Websocket.Frame.{
  Opcode, cont, text, binary, close, ping, pong, FrameHeader, is_reserved, is_control,
}
use beast_asio_standalone.Websocket.Stream.{
  RoleType, client, server, ReadState, check_op, check_mask, begin_payload,
}
use beast_asio_standalone.Websocket.Stream.Spec.{
  is_first, from_client, size_before, pmd_after, deflated_after, FitsMessage, accepted,
}

-- What the checks on the opcode have found out.
pub record Checked (s : ReadState) (fh : FrameHeader) (r : ReadState × ErrorCode) : Type 0 where
  pub known : is_reserved fh.op ≡ false
  pub rsv2_clear : fh.rsv2 ≡ false
  pub rsv3_clear : fh.rsv3 ≡ false
  pub rsv1_negotiated : fh.rsv1 ≡ true → (is_first fh.op ≡ true) × (s.pmd ≢ none)
  pub control_whole : is_control fh.op ≡ true → (fh.fin ≡ true) × (fh.len ≤ 125)
  pub first_between : is_first fh.op ≡ true → s.rd_cont ≡ false
  pub cont_within : fh.op ≡ cont → s.rd_cont ≡ true
  pub stream : r.0 ≡ record s { pmd = pmd_after s fh }

pub check_op-Checked :
    (fh : FrameHeader) (s : ReadState) (op : Opcode)
    → fh.op ≡ op
    → (check_op op fh s).1 ≡ none
    → Checked s fh (check_op op fh s)
unfolding check_op
check_op-Checked fh s cont e h = ground arith
check_op-Checked fh s text e h = ground arith
check_op-Checked fh s binary e h = ground arith
check_op-Checked fh s close e h = ground arith
check_op-Checked fh s ping e h = ground arith
check_op-Checked fh s pong e h = ground arith
check_op-Checked fh s _ e h = ground arith

pub check_mask-from_client :
    (fh : FrameHeader) (r : RoleType) → check_mask r fh ≡ none → fh.mask ≡ from_client r
unfolding check_mask
check_mask-from_client fh server h = ground arith
check_mask-from_client fh client h = ground arith

limit_kept :
    (deflated : Bool) (max before len : ℕ)
    → (not deflated && max != 0 && sum_exceeds before len max) ≡ false
    → (deflated ≡ true) ⊎ (max ≡ 0) ⊎ (before + len ≤ max)
unfolding sum_exceeds
limit_kept deflated max before len h = ground arith

-- What the last block has found out, and what it has done.
pub record Begun (s : ReadState) (fh : FrameHeader) (r : ReadState × ErrorCode) : Type 0 where
  pub fits : is_control fh.op ≡ false → FitsMessage s fh
  pub stream : r.0 ≡ accepted s fh

module _ (s : ReadState) (fh : FrameHeader) (len_fits : fh.len < 2 ^ 64)
    (known : is_reserved fh.op ≡ false) where
  abbrev pub before : ReadState
  before = record s {
    pmd = pmd_after s fh;
    rd_key = if fh.mask then prepare_key fh.key else s.rd_key;
  }

  pub begin_payload-Begun :
      (op : Opcode)
      → fh.op ≡ op
      → (begin_payload fh before).1 ≡ none
      → Begun s fh (begin_payload fh before)
  unfolding begin_payload
  begin_payload-Begun cont e h = record {
    fits = λ d. record {
      in_limit =
          limit_kept (deflated_after s fh) s.rd_msg_max (size_before s fh) fh.len (ground arith);
      in_range = ground arith;
    };
    stream = ground arith;
  }
  begin_payload-Begun close e h = record { fits = λ d. ground arith; stream = ground arith }
  begin_payload-Begun ping e h = record { fits = λ d. ground arith; stream = ground arith }
  begin_payload-Begun pong e h = record { fits = λ d. ground arith; stream = ground arith }
  begin_payload-Begun text e h = record {
    fits = λ d. record {
      in_limit =
          limit_kept (deflated_after s fh) s.rd_msg_max (size_before s fh) fh.len (ground arith);
      in_range = ground arith;
    };
    stream = ground arith;
  }
  begin_payload-Begun binary e h = record {
    fits = λ d. record {
      in_limit =
          limit_kept (deflated_after s fh) s.rd_msg_max (size_before s fh) fh.len (ground arith);
      in_range = ground arith;
    };
    stream = ground arith;
  }
  begin_payload-Begun _ e h = ground arith

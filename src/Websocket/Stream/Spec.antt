-- ===== src/Websocket/Stream/Spec.antt =====
-- Which frame headers a stream accepts, by the rules of RFC 6455, sections 5.2 to 5.5, and what an
-- accepted one does to it.
use beast_asio_standalone.Prelude.{
  ℕ, ◌+◌, ◌^◌, ◌≤◌, ◌<◌, ◌≡◌, ◌≢◌, ◌⊎◌, Bool, true, false, not, ◌||◌, Option, none, some, ◌==◌,
  if◌then◌else◌,
}
use beast_asio_standalone.Websocket.Mask.{prepare_key}
use beast_asio_standalone.Websocket.Frame.{
  Opcode, cont, text, binary, value, FrameHeader, is_reserved, is_control,
}
use beast_asio_standalone.Websocket.Stream.{RoleType, client, server, ReadState}

-- a frame that begins a message
abbrev pub is_first : Opcode → Bool
is_first op = value op == value text || value op == value binary

abbrev pub from_client : RoleType → Bool
from_client server = true
from_client client = false

-- what the message has already, and whether it is compressed, once this frame is accepted
abbrev pub size_before : ReadState → FrameHeader → ℕ
size_before s fh = if is_first fh.op then 0 else s.rd_size

abbrev pub pmd_after : ReadState → FrameHeader → Option Bool
pmd_after s fh =
    if is_first fh.op then elim s.pmd [ none ↦ none | some _ ↦ some fh.rsv1 ] else s.pmd

abbrev pub deflated_after : ReadState → FrameHeader → Bool
deflated_after s fh = elim (pmd_after s fh) [ none ↦ false | some b ↦ b ]

pub record FitsMessage (s : ReadState) (fh : FrameHeader) : Type 0 where
  pub in_limit :
      (deflated_after s fh ≡ true) ⊎ (s.rd_msg_max ≡ 0) ⊎ (size_before s fh + fh.len ≤ s.rd_msg_max)
  pub in_range : size_before s fh + fh.len < 2 ^ 64

-- the rules that a stream looks at
pub record IsAcceptable (s : ReadState) (fh : FrameHeader) : Type 0 where
  pub known : is_reserved fh.op ≡ false
  pub masked : fh.mask ≡ from_client s.role
  pub rsv2_clear : fh.rsv2 ≡ false
  pub rsv3_clear : fh.rsv3 ≡ false
  pub rsv1_negotiated : fh.rsv1 ≡ true → (is_first fh.op ≡ true) × (s.pmd ≢ none)
  pub control_whole : is_control fh.op ≡ true → (fh.fin ≡ true) × (fh.len ≤ 125)
  pub first_between : is_first fh.op ≡ true → s.rd_cont ≡ false
  pub cont_within : fh.op ≡ cont → s.rd_cont ≡ true
  pub fits : is_control fh.op ≡ false → FitsMessage s fh

-- All of the rules: the most significant bit of a length in 64 bits must be 0 too.
pub record IsStandard (s : ReadState) (fh : FrameHeader) : Type 0 where
  pub acceptable : IsAcceptable s fh
  pub top_bit_clear : fh.len < 2 ^ 63

-- The stream after the header. A control frame may stand inside a message, and leaves it alone.
abbrev pub accepted : ReadState → FrameHeader → ReadState
accepted s fh = record {
  role = s.role;
  rd_msg_max = s.rd_msg_max;
  rd_size = size_before s fh;
  rd_remain = if is_control fh.op then s.rd_remain else fh.len;
  rd_key = if fh.mask then prepare_key fh.key else s.rd_key;
  rd_op = if is_first fh.op then fh.op else s.rd_op;
  rd_cont = if is_control fh.op then s.rd_cont else not fh.fin;
  pmd = pmd_after s fh;
}

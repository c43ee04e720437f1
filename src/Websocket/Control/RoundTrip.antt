-- ===== src/Websocket/Control/RoundTrip.antt =====
-- Control frames from `write_close` and `write_ping` at one end to the readers at the other.
use beast_asio_standalone.Prelude.{
  ℕ, ◌+◌, ◌/◌, ◌%◌, ◌^◌, ◌≤◌, ◌<◌, ◌≡◌, refl, ap, sym, ◌∙◌, Bool, true, false, none, List, [], ◌∷◌,
  ◌++◌, append-nil, arith, ◌==◌, ◌!=◌, if◌then◌else◌, length, Bool-cases, inl, inr, All,
}
use mathlib.Core.List.{flatten}
use beast_asio_standalone.Prelude.Bits.{IsByte}
use beast_asio_standalone.Websocket.Mask.{PreparedKey, prepare_key, mask_inplace, mask_inplace_seq}
use beast_asio_standalone.Websocket.Mask.Laws.{transformed, mask_inplace_lem, mask_inplace_seq_lem}
use beast_asio_standalone.Websocket.Frame.{
  Endian, Opcode, close, FrameHeader, write, big_uint16_to_native,
}
use beast_asio_standalone.Websocket.Stream.{RoleType, ReadState, parse_fh}
use beast_asio_standalone.Websocket.Utf8.{check_utf8}
use beast_asio_standalone.Websocket.Utf8.Spec.{IsUtf8}
use beast_asio_standalone.Websocket.Utf8.Whole.{check_utf8_iff}
use beast_asio_standalone.Websocket.Control.{
  no_code, CloseReason, is_valid_close_code, read_ping, read_close, control_header, write_close,
  write_ping, control_payload,
}
use beast_asio_standalone.Websocket.Control.Frames.{
  peer, is_known_control, masked, sent_frame, header_op, Hears, heard,
}
use mathlib.Core.Path.{subst}

-- A reason that may be sent: none, or a valid code with a text that fits the frame.
pub data IsSendable (cr : CloseReason) : Type 0 where
  absent : cr.code ≡ no_code → cr.reason ≡ [] → IsSendable cr
  given :
      is_valid_close_code cr.code ≡ true
      → cr.code < 2 ^ 16
      → length cr.reason ≤ 123
      → All IsByte cr.reason
      → IsUtf8 cr.reason
      → IsSendable cr

-- the payload of a close frame before it is masked
abbrev pub close_payload : Endian → CloseReason → List ℕ
close_payload endian cr =
    if cr.code == no_code then [] else endian.big_uint16 (cr.code % 2 ^ 16) ++ cr.reason

valid_code : (v : ℕ) → is_valid_close_code v ≡ true → (v == no_code) ≡ false
unfolding is_valid_close_code
valid_code v h = ground arith

module _ (endian : Endian) where
  code_bytes : (v : ℕ) → v < 2 ^ 16 → endian.big_uint16 (v % 2 ^ 16) ≡ v / 2 ^ 8 ∷ v % 2 ^ 8 ∷ []
  code_bytes v h = ap endian.big_uint16 (omega arith) ∙ endian.big_uint16_lem v h

  length-close_payload :
      (cr : CloseReason)
      → cr.code < 2 ^ 16
      → length (close_payload endian cr) ≡ (if cr.code == no_code then 0 else 2 + length cr.reason)
  length-close_payload cr h = elim (Bool-cases (cr.code == no_code)) [
    | inl c ↦ rw c refl
    | inr c ↦ rw c (ap (λ t. length (t ++ cr.reason)) (code_bytes cr.code h) ∙ omega arith)
  ]

  two_parts :
      (code reason : List ℕ) (key : PreparedKey)
      → (mask_inplace code key).0 ++ (mask_inplace reason (mask_inplace code key).1).0
        ≡ transformed key 0 (code ++ reason)
  unfolding mask_inplace_seq flatten
  two_parts code reason key =
      let l = (mask_inplace_seq_lem (code ∷ reason ∷ []) key).0 in
      ap (λ t. (mask_inplace code key).0 ++ t)
        (sym (append-nil (mask_inplace reason (mask_inplace code key).1).0))
      ∙ l
      ∙ ap (λ t. transformed key 0 (code ++ t)) (append-nil reason)

  code_read : (v : ℕ) → v < 2 ^ 16 → big_uint16_to_native (v / 2 ^ 8) (v % 2 ^ 8) ≡ v
  unfolding big_uint16_to_native
  code_read v h = omega arith

  close_payload-absent : (cr : CloseReason) → cr.code ≡ no_code → close_payload endian cr ≡ []
  close_payload-absent cr c = rw c refl

  close_payload-given :
      (cr : CloseReason)
      → is_valid_close_code cr.code ≡ true
      → cr.code < 2 ^ 16
      → close_payload endian cr ≡ cr.code / 2 ^ 8 ∷ cr.code % 2 ^ 8 ∷ cr.reason
  close_payload-given cr v h =
      rw (valid_code cr.code v) (ap (λ t. t ++ cr.reason) (code_bytes cr.code h))

  read_given :
      (cr0 : CloseReason) (address hi lo code : ℕ) (reason : List ℕ)
      → big_uint16_to_native hi lo ≡ code
      → is_valid_close_code code ≡ true
      → check_utf8 address reason ≡ true
      → read_close cr0 address (hi ∷ lo ∷ reason) ≡ (record { code = code; reason = reason }, none)
  unfolding read_close
  read_given cr0 address hi lo code [] c v u = rw (c, v) refl
  read_given cr0 address hi lo code (x ∷ xs) c v u = rw (c, v, u) (ground arith)

  read_close-close_payload :
      (cr cr0 : CloseReason) (address : ℕ)
      → IsSendable cr
      → read_close cr0 address (close_payload endian cr) ≡ (cr, none)
  unfolding read_close
  read_close-close_payload cr cr0 address (IsSendable.absent c r) =
      ap (read_close cr0 address) (close_payload-absent cr c) ∙ λ i.
      (record { code = sym c i; reason = sym r i }, none)
  read_close-close_payload cr cr0 address (IsSendable.given valid small size bytes utf8) =
      ap (read_close cr0 address) (close_payload-given cr valid small)
      ∙ read_given cr0 address (cr.code / 2 ^ 8) (cr.code % 2 ^ 8) cr.code cr.reason
          (code_read cr.code small) valid ((check_utf8_iff address cr.reason bytes).1 utf8)

  ping_sent :
      (fh : FrameHeader) (payload : List ℕ)
      → (if length payload == 0
          then []
          else if fh.mask
          then (mask_inplace payload (prepare_key fh.key)).0
          else payload)
        ≡ masked fh payload
  unfolding transformed
  ping_sent fh [] = elim (Bool-cases fh.mask) [ inl m ↦ rw m refl | inr m ↦ rw m refl ]
  ping_sent fh (x ∷ xs) = ground (
    arith,
    ap (λ (r : List ℕ × PreparedKey). r.0) (mask_inplace_lem (x ∷ xs) (prepare_key fh.key)),
  )

  reason_sent :
      (reason : List ℕ) (key : PreparedKey)
      → (if length reason != 0 then (mask_inplace reason key).0 else [])
        ≡ (mask_inplace reason key).0
  unfolding mask_inplace
  reason_sent [] key = refl
  reason_sent (x ∷ xs) key = ground arith

  close_sent :
      (fh : FrameHeader) (cr : CloseReason)
      → let code = endian.big_uint16 (cr.code % 2 ^ 16) in
        let m = mask_inplace code (prepare_key fh.key) in
        (if cr.code == no_code
          then []
          else if fh.mask
          then m.0 ++ (if length cr.reason != 0 then (mask_inplace cr.reason m.1).0 else [])
          else code ++ cr.reason)
        ≡ masked fh (close_payload endian cr)
  close_sent fh cr =
      let code = endian.big_uint16 (cr.code % 2 ^ 16) in
      let m = mask_inplace code (prepare_key fh.key) in
      elim (Bool-cases (cr.code == no_code)) [
        | inl c ↦ elim (Bool-cases fh.mask) [
          | inl k ↦ rw (c, k) (unfold transformed in refl)
          | inr k ↦ rw (c, k) refl
        ]
        | inr c ↦ elim (Bool-cases fh.mask) [
          | inl k ↦
              rw (c, k)
                (ap (λ t. m.0 ++ t) (reason_sent cr.reason m.1)
                  ∙ two_parts code cr.reason (prepare_key fh.key))
          | inr k ↦ rw (c, k) refl
        ]
      ]

  module _ (role : RoleType) (mask_key : ℕ) where
    write_close-sent :
        (fh0 : FrameHeader) (cr : CloseReason)
        → cr.code < 2 ^ 16
        → write_close role mask_key endian cr
          ≡ sent_frame endian fh0 role mask_key close (close_payload endian cr)
    unfolding write_close
    write_close-sent fh0 cr h =
        let len = if cr.code == no_code then 0 else 2 + length cr.reason in
        ap (λ t. write endian (control_header role mask_key close len) ++ t)
          (close_sent (control_header role mask_key close len) cr)
        ∙ ap
            (λ n.
              write endian (control_header role mask_key close n)
              ++ masked (control_header role mask_key close n) (close_payload endian cr))
            (sym (length-close_payload cr h))

    write_ping-sent :
        (fh0 : FrameHeader) (op : Opcode) (payload : List ℕ)
        → write_ping role mask_key endian op payload
          ≡ sent_frame endian fh0 role mask_key op payload
    unfolding write_ping
    write_ping-sent fh0 op payload =
        let fh = control_header role mask_key op (length payload) in
        ap (λ t. write endian fh ++ t) (ping_sent fh payload)

IsSendable-small :
    (cr : CloseReason) → IsSendable cr → (cr.code < 2 ^ 16) × (length cr.reason ≤ 123)
IsSendable-small cr (IsSendable.absent c r) =
    (omega arith, omega (arith, ap (λ (t : List ℕ). length t) r))
IsSendable-small cr (IsSendable.given valid small size bytes utf8) = (small, size)

close_payload_small :
    (endian : Endian) (cr : CloseReason)
    → cr.code < 2 ^ 16
    → length cr.reason ≤ 123
    → length (close_payload endian cr) ≤ 125
close_payload_small endian cr h size = elim (Bool-cases (cr.code == no_code)) [
  | inl c ↦ omega (
    arith,
    length-close_payload endian cr h,
    ap (λ (t : Bool). if t then 0 else 2 + length cr.reason) c,
  )
  | inr c ↦ omega (
    arith,
    length-close_payload endian cr h,
    ap (λ (t : Bool). if t then 0 else 2 + length cr.reason) c,
  )
]

-- A close frame that one end writes is accepted at the other, whatever follows it in the buffer,
-- and `read_close` gets the same code and reason out of its payload, with no error. The reason is
-- absent, or has a code that may be sent and a text in UTF-8 of at most 123 bytes; the masking key
-- has 32 bits, and the two ends have opposite roles.
pub read_close-write_close :
    (endian : Endian) (fh0 : FrameHeader) (role : RoleType) (mask_key : ℕ) (cr cr0 : CloseReason)
    (more : List ℕ) (s : ReadState) (address : ℕ)
    → IsSendable cr
    → mask_key < 2 ^ 32
    → s.role ≡ peer role
    → let p = parse_fh fh0 (write_close role mask_key endian cr ++ more) none s in
      (p.ret ≡ true)
      × (p.fh.op ≡ close)
      × (p.ec ≡ none)
      × (read_close cr0 address (control_payload p.fh p.stream.rd_key p.b) ≡ (cr, none))
read_close-write_close endian fh0 role mask_key cr cr0 more s address ok k r =
    let clear = close_payload endian cr in
    let small = IsSendable-small cr ok in
    let h =
      subst (λ b. Hears endian fh0 role mask_key close clear (b ++ more) s)
        (sym (write_close-sent endian role mask_key fh0 cr small.0))
        (heard endian fh0 role mask_key close clear more s k refl
          (close_payload_small endian cr small.0 small.1) r) in
    (
      h.0,
      ap (λ (fh : FrameHeader). fh.op) h.1 ∙ header_op role mask_key close (length clear),
      h.2,
      ap (read_close cr0 address) h.3 ∙ read_close-close_payload endian cr cr0 address ok,
    )

-- A close, ping or pong frame that one end writes by `write_ping` is accepted at the other,
-- whatever follows it in the buffer, and `read_ping` gets the same payload. The payload has at
-- most 125 bytes, the masking key has 32 bits, and the two ends have opposite roles.
pub read_ping-write_ping :
    (endian : Endian) (fh0 : FrameHeader) (role : RoleType) (mask_key : ℕ) (op : Opcode)
    (payload more : List ℕ) (s : ReadState)
    → is_known_control op ≡ true
    → mask_key < 2 ^ 32
    → length payload ≤ 125
    → s.role ≡ peer role
    → let p = parse_fh fh0 (write_ping role mask_key endian op payload ++ more) none s in
      (p.ret ≡ true)
      × (p.fh.op ≡ op)
      × (p.ec ≡ none)
      × (read_ping (control_payload p.fh p.stream.rd_key p.b) ≡ payload)
read_ping-write_ping endian fh0 role mask_key op payload more s known k size r =
    let h =
      subst (λ b. Hears endian fh0 role mask_key op payload (b ++ more) s)
        (sym (write_ping-sent endian role mask_key fh0 op payload))
        (heard endian fh0 role mask_key op payload more s k known size r) in
    (
      h.0,
      ap (λ (fh : FrameHeader). fh.op) h.1 ∙ header_op role mask_key op (length payload),
      h.2,
      h.3,
    )

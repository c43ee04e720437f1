-- ===== src/Websocket/Control/Frames.antt =====
-- A control frame on its way: the header that is written, the masked payload, and what the other
-- end takes out of its buffer.
use beast_asio_standalone.Prelude.{
  ℕ, ◌^◌, ◌≤◌, ◌<◌, ◌≡◌, refl, ap, sym, ◌∙◌, Bool, true, false, ◌&&◌, none, List, [], ◌∷◌, ◌++◌,
  append_assoc, arith, ◌!=◌, if◌then◌else◌, length, take, take_front, length-append, Bool-cases,
  inl, inr,
}
use beast_asio_standalone.Core.Clamp.{clamp}
use beast_asio_standalone.Websocket.Mask.{PreparedKey, prepare_key, mask_inplace}
use beast_asio_standalone.Websocket.Mask.Laws.{
  transformed, mask_inplace_lem, transformed_twice, length-transformed,
}
use beast_asio_standalone.Websocket.Frame.{
  Endian, Opcode, close, ping, pong, FrameHeader, is_control, is_reserved, write,
}
use beast_asio_standalone.Websocket.Stream.{RoleType, client, server, ReadState, Parsed, parse_fh}
use beast_asio_standalone.Websocket.Stream.Spec.{IsAcceptable, accepted, from_client, is_first}
use beast_asio_standalone.Websocket.Stream.RoundTrip.{IsWritable, parse_fh-write}
use beast_asio_standalone.Websocket.Control.{control_header, control_payload}

-- the other end of a connection
abbrev pub peer : RoleType → RoleType
peer client = server
peer server = client

-- the opcodes of control frames that are in use
abbrev pub is_known_control : Opcode → Bool
is_known_control close = true
is_known_control ping = true
is_known_control pong = true
is_known_control _ = false

known_control :
    (op : Opcode) → is_known_control op ≡ true → (is_control op ≡ true) × (is_reserved op ≡ false)
known_control close h = (refl, refl)
known_control ping h = (refl, refl)
known_control pong h = (refl, refl)
known_control _ h = ground arith

not_first : (op : Opcode) → is_known_control op ≡ true → is_first op ≡ false
not_first close h = refl
not_first ping h = refl
not_first pong h = refl
not_first _ h = ground arith

control_header-IsAcceptable :
    (role : RoleType) (key : ℕ) (op : Opcode) (len : ℕ) (s : ReadState)
    → s.role ≡ peer role
    → is_known_control op ≡ true
    → len ≤ 125
    → IsAcceptable s (control_header role key op len)
unfolding control_header
control_header-IsAcceptable client key op len s r k h = record {
  known = (known_control op k).1;
  masked = ap from_client (sym r);
  rsv2_clear = refl;
  rsv3_clear = refl;
  rsv1_negotiated = λ e. cc;
  control_whole = λ e. (refl, h);
  first_between = λ e. cc (e, not_first op k);
  cont_within = λ e. cc (k, e);
  fits = λ e. cc (e, (known_control op k).0);
}
control_header-IsAcceptable server key op len s r k h = record {
  known = (known_control op k).1;
  masked = ap from_client (sym r);
  rsv2_clear = refl;
  rsv3_clear = refl;
  rsv1_negotiated = λ e. cc;
  control_whole = λ e. (refl, h);
  first_between = λ e. cc (e, not_first op k);
  cont_within = λ e. cc (k, e);
  fits = λ e. cc (e, (known_control op k).0);
}

control_header-IsWritable :
    (role : RoleType) (key : ℕ) (op : Opcode) (len : ℕ)
    → key < 2 ^ 32
    → len ≤ 125
    → IsWritable (control_header role key op len)
unfolding control_header
control_header-IsWritable client key op len k h = record {
  len_fits = omega arith;
  key_fits = k;
  key_zero = λ e. cc;
}
control_header-IsWritable server key op len k h = record {
  len_fits = omega arith;
  key_fits = omega arith;
  key_zero = λ e. refl;
}

-- the payload as it is sent
abbrev pub masked : FrameHeader → List ℕ → List ℕ
masked fh clear = if fh.mask then transformed (prepare_key fh.key) 0 clear else clear

length-masked : (fh : FrameHeader) (clear : List ℕ) → length (masked fh clear) ≡ length clear
length-masked fh clear = elim (Bool-cases fh.mask) [
  | inl m ↦ rw m (length-transformed (prepare_key fh.key) 0 clear)
  | inr m ↦ rw m refl
]

nothing_transformed :
    (key : PreparedKey) (clear : List ℕ) → length clear ≡ 0 → transformed key 0 clear ≡ clear
unfolding transformed
nothing_transformed key [] h = refl
nothing_transformed key (x ∷ clear) h = absurd (omega arith)

abbrev unmasked : FrameHeader → PreparedKey → List ℕ → List ℕ
unmasked fh key b = if fh.len != 0 && fh.mask then (mask_inplace b key).0 else b

unmasked-masked :
    (fh : FrameHeader) (clear : List ℕ) (key : PreparedKey)
    → fh.len ≡ length clear
    → (fh.mask ≡ true → key ≡ prepare_key fh.key)
    → unmasked fh key (masked fh clear) ≡ clear
unmasked-masked fh clear key size same = elim (Bool-cases fh.mask) [
  | inr m ↦ elim (Bool-cases (fh.len != 0)) [ inl c ↦ rw (c, m) refl | inr c ↦ rw (c, m) refl ]
  | inl m ↦ elim (Bool-cases (fh.len != 0)) [
    | inl c ↦
        rw (c, m)
          (ap (λ (r : List ℕ × PreparedKey). r.0)
              (mask_inplace_lem (transformed (prepare_key fh.key) 0 clear) key)
            ∙ ap (λ k. transformed k 0 (transformed (prepare_key fh.key) 0 clear)) (same m)
            ∙ transformed_twice (prepare_key fh.key) 0 clear)
    | inr c ↦ rw (c, m) (nothing_transformed (prepare_key fh.key) clear (ground (arith, size)))
  ]
]

clamp_small : (n : ℕ) → n ≤ 125 → clamp n ≡ n
unfolding clamp
clamp_small n h = ground arith

-- The reader gets the payload that was masked, if it holds the key of the header.
control_payload-masked :
    (fh : FrameHeader) (clear more : List ℕ) (key : PreparedKey)
    → fh.len ≡ length clear
    → length clear ≤ 125
    → (fh.mask ≡ true → key ≡ prepare_key fh.key)
    → control_payload fh key (masked fh clear ++ more) ≡ clear
unfolding control_payload
control_payload-masked fh clear more key size small same =
    let sent = masked fh clear in
    ap (unmasked fh key) (
      ap (λ n. take n (sent ++ more))
        (clamp_small fh.len (omega (arith, size, small)) ∙ size ∙ sym (length-masked fh clear))
      ∙ take_front sent more)
    ∙ unmasked-masked fh clear key size same

header_len :
    (role : RoleType) (key : ℕ) (op : Opcode) (len : ℕ) → (control_header role key op len).len ≡ len
unfolding control_header
header_len client key op len = refl
header_len server key op len = refl

pub header_op :
    (role : RoleType) (key : ℕ) (op : Opcode) (len : ℕ) → (control_header role key op len).op ≡ op
unfolding control_header
header_op client key op len = refl
header_op server key op len = refl

module _ (endian : Endian) (fh0 : FrameHeader) (role : RoleType) (mask_key : ℕ) (op : Opcode)
    (clear : List ℕ) where
  abbrev pub sent_header : FrameHeader
  sent_header = control_header role mask_key op (length clear)

  -- a control frame, as it is sent
  abbrev pub sent_frame : List ℕ
  sent_frame = write endian sent_header ++ masked sent_header clear

  sent_key :
      (s : ReadState)
      → sent_header.mask ≡ true
      → (accepted s sent_header).rd_key ≡ prepare_key sent_header.key
  sent_key s m = rw m refl

  -- what the other end gets out of a buffer
  abbrev pub Hears : List ℕ → ReadState → Type 0
  Hears b s =
      let p = parse_fh fh0 b none s in
      (p.ret ≡ true)
      × (p.fh ≡ sent_header)
      × (p.ec ≡ none)
      × (control_payload p.fh p.stream.rd_key p.b ≡ clear)

  -- The other end accepts the frame, and its reader gets the payload.
  pub heard :
      (more : List ℕ) (s : ReadState)
      → mask_key < 2 ^ 32
      → is_known_control op ≡ true
      → length clear ≤ 125
      → s.role ≡ peer role
      → Hears (sent_frame ++ more) s
  heard more s k known small r =
      let sent = masked sent_header clear in
      let len = header_len role mask_key op (length clear) in
      let whole =
        ap (λ b. parse_fh fh0 b none s) (append_assoc (write endian sent_header) sent more)
        ∙ parse_fh-write endian fh0 sent_header (sent ++ more) none s
            (control_header-IsAcceptable role mask_key op (length clear) s r known small)
            (control_header-IsWritable role mask_key op (length clear) k small)
            (λ c. omega (arith, len, length-append sent more, length-masked sent_header clear)) in
      (
        ap (λ (p : Parsed). p.ret) whole,
        ap (λ (p : Parsed). p.fh) whole,
        ap (λ (p : Parsed). p.ec) whole,
        ap (λ (p : Parsed). control_payload p.fh p.stream.rd_key p.b) whole
            ∙ control_payload-masked sent_header clear more (accepted s sent_header).rd_key len
                small (sent_key s),
      )

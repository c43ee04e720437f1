-- ===== src/Websocket/Stream/RoundTrip.antt =====
-- A header that is written is parsed back.
use beast_asio_standalone.Prelude.{
  ℕ, ◌+◌, ◌-◌, ◌^◌, ◌≤◌, ◌<◌, ◌≡◌, refl, ap, sym, ◌∙◌, true, false, ◌&&◌, none, List, [], ◌∷◌, ◌++◌,
  append_assoc, arith, ltb, length, drop, Bool-cases, length-append, ge→ltb_false, inl, inr,
}
use beast_asio_standalone.Websocket.Error.{ErrorCode}
use beast_asio_standalone.Websocket.Frame.{
  Endian, native_to_little_uint32, value, FrameHeader, write, is_control,
}
use beast_asio_standalone.Websocket.Frame.Bytes.{
  packed, second, second_len, second_mask, short_len, short_len-lt, key_bytes, extended,
  write_parts,
}
use beast_asio_standalone.Websocket.Stream.{
  ReadState, Parsed, read_second, read_first, need_of, check_op, read_length, read_key,
  after_payload, after_key, after_length, after_checks, after_op, parse_fh,
}
use beast_asio_standalone.Websocket.Stream.Fields.{
  header_read, length-extended, read_length-extended, read_key-key_bytes,
}
use beast_asio_standalone.Websocket.Stream.Checks.{
  short, check_op_pass, check_mask_pass, begin_payload_pass,
}
use beast_asio_standalone.Websocket.Stream.Spec.{pmd_after, IsAcceptable, accepted}

-- A header that `write` can hold: the fields fit their widths, and no key without a mask.
pub record IsWritable (fh : FrameHeader) : Type 0 where
  pub len_fits : fh.len < 2 ^ 64
  pub key_fits : fh.key < 2 ^ 32
  pub key_zero : fh.mask ≡ false → fh.key ≡ 0

drop_all : (xs ys : List ℕ) → drop (length xs) (xs ++ ys) ≡ ys
drop_all [] ys = refl
drop_all (x ∷ xs) ys = drop_all xs ys

drop_count : (xs ys : List ℕ) → length (xs ++ ys) - length ys ≡ length xs
drop_count xs ys = omega (arith, length-append xs ys)

pub drop_front :
    (b front back : List ℕ) → b ≡ front ++ back → drop (length b - length back) b ≡ back
drop_front b front back e = rw (e, drop_count front back) (drop_all front back)

module _ {s : ReadState} {fh : FrameHeader} (a : IsAcceptable s fh) (w : IsWritable fh)
    (k0 : ℕ) where
  -- What a call leaves if it takes the header off the buffer `b`, and the payload is left.
  abbrev taken : List ℕ → List ℕ → Parsed
  taken b payload = record {
    ret = true;
    fh = fh;
    stream = accepted s fh;
    b = drop (length b - length payload) b;
    ec = none;
  }

  after_key_pass :
      (b payload : List ℕ)
      → after_key b (
          read_key
            (record fh { key = k0 })
            (key_bytes fh ++ payload)
            (record s { pmd = pmd_after s fh }))
        ≡ taken b payload
  unfolding after_key after_payload
  after_key_pass b payload =
      ap (after_key b)
        (read_key-key_bytes fh (record s { pmd = pmd_after s fh }) k0 payload w.key_fits w.key_zero)
      ∙ ap (after_payload fh b payload) (begin_payload_pass a k0 fh.op refl)

  after_length_pass :
      (endian : Endian) (b payload : List ℕ)
      → after_length
          (record s { pmd = pmd_after s fh })
          b
          (read_length (short a k0) (extended endian fh.len ++ (key_bytes fh ++ payload)))
        ≡ taken b payload
  unfolding after_length
  after_length_pass endian b payload =
      ap (after_length (record s { pmd = pmd_after s fh }) b) (
        read_length-extended endian (record fh { key = k0 }) fh.len (key_bytes fh ++ payload)
          w.len_fits)
      ∙ after_key_pass b payload

  after_op_pass :
      (endian : Endian) (b payload : List ℕ) (ec : ErrorCode) (need : ℕ)
      → (is_control fh.op
          && ltb
              (length (extended endian fh.len ++ (key_bytes fh ++ payload)))
              (need + short_len fh.len))
        ≡ false
      → after_op
          (short a k0)
          b
          (extended endian fh.len ++ (key_bytes fh ++ payload))
          ec
          need
          (check_op fh.op (short a k0) s)
        ≡ taken b payload
  unfolding after_op after_checks
  after_op_pass endian b payload ec need enough =
      let cb = extended endian fh.len ++ (key_bytes fh ++ payload) in
      ap (after_op (short a k0) b cb ec need) (check_op_pass a k0 fh.op refl)
      ∙ ap (after_checks (short a k0) (record s { pmd = pmd_after s fh }) b cb ec need)
          (check_mask_pass a k0 s.role refl)
      ∙ rw enough (after_length_pass endian b payload)

need_of-short :
    (endian : Endian) (fh0 fh : FrameHeader)
    → fh.len < 2 ^ 64
    → need_of (read_second fh0 (second fh.mask (short_len fh.len)))
      ≡ length (extended endian fh.len) + length (key_bytes fh)
unfolding need_of read_second native_to_little_uint32
need_of-short endian fh0 fh h =
    rw
      (
        second_len fh.mask (short_len fh.len) (short_len-lt fh.len),
        second_mask fh.mask (short_len fh.len) (short_len-lt fh.len),
        length-extended endian fh.len h,
      )
      (ground arith)

-- One call on a buffer that holds the whole header.
pub parse_two :
    (fh0 : FrameHeader) (t0 t1 : ℕ) (cb : List ℕ) (ec : ErrorCode) (s : ReadState)
    → let fh = read_second fh0 t1 in
      let need = need_of fh in
      need ≤ length cb
      → parse_fh fh0 (t0 ∷ t1 ∷ cb) ec s
        ≡ after_op
            (read_first fh t0)
            (t0 ∷ t1 ∷ cb)
            cb
            ec
            need
            (check_op (read_first fh t0).op (read_first fh t0) s)
unfolding parse_fh
parse_two fh0 t0 t1 cb ec s h = rw (ge→ltb_false _ _ h)

control_enough :
    (fh : FrameHeader) (need have : ℕ) {s : ReadState}
    → IsAcceptable s fh
    → (is_control fh.op ≡ true → need + fh.len ≤ have)
    → (is_control fh.op && ltb have (need + short_len fh.len)) ≡ false
control_enough fh need have a h = elim (Bool-cases (is_control fh.op)) [
  | inl c ↦ rw c (ground (arith, a.control_whole c, h c))
  | inr d ↦ rw d
]

module _ (endian : Endian) (fh : FrameHeader) (payload : List ℕ) where
  -- the bytes behind the first two
  abbrev pub tail : List ℕ
  tail = extended endian fh.len ++ (key_bytes fh ++ payload)

  pub write-tail :
      write endian fh ++ payload
      ≡ packed fh.fin fh.rsv1 fh.rsv2 fh.rsv3 (value fh.op)
        ∷ second fh.mask (short_len fh.len)
        ∷ tail
  write-tail = rw (write_parts endian fh) (
      ap
        (λ r.
          packed fh.fin fh.rsv1 fh.rsv2 fh.rsv3 (value fh.op)
          ∷ second fh.mask (short_len fh.len)
          ∷ r)
        (append_assoc (extended endian fh.len) (key_bytes fh) payload))

  pub length-tail :
      (fh0 : FrameHeader)
      → fh.len < 2 ^ 64
      → length tail ≡ need_of (read_second fh0 (second fh.mask (short_len fh.len))) + length payload
  length-tail fh0 h = omega (
    arith,
    need_of-short endian fh0 fh h,
    length-append (extended endian fh.len) (key_bytes fh ++ payload),
    length-append (key_bytes fh) payload,
  )

-- `parse_fh` reads back the header that `write` wrote, whatever stands behind it, and takes exactly
-- its bytes off the buffer: for every header that keeps the rules a stream looks at, if its fields fit
-- their widths, an unmasked one has no key, and the payload of a control frame is there in full.
-- The stream then is as the standard wants it after the header.
pub parse_fh-write :
    (endian : Endian) (fh0 fh : FrameHeader) (payload : List ℕ) (ec : ErrorCode) (s : ReadState)
    → IsAcceptable s fh
    → IsWritable fh
    → (is_control fh.op ≡ true → fh.len ≤ length payload)
    → parse_fh fh0 (write endian fh ++ payload) ec s
      ≡ record { ret = true; fh = fh; stream = accepted s fh; b = payload; ec = none }
parse_fh-write endian fh0 fh payload ec s a w enough =
    let t0 = packed fh.fin fh.rsv1 fh.rsv2 fh.rsv3 (value fh.op) in
    let t1 = second fh.mask (short_len fh.len) in
    let cb = tail endian fh payload in
    let need = need_of (read_second fh0 t1) in
    let size = length-tail endian fh payload fh0 w.len_fits in
    ap (λ b. parse_fh fh0 b ec s) (write-tail endian fh payload)
    ∙ parse_two fh0 t0 t1 cb ec s (omega (arith, size))
    ∙ ap (λ h. after_op h (t0 ∷ t1 ∷ cb) cb ec need (check_op h.op h s)) (header_read fh0 fh)
    ∙ after_op_pass a w fh0.key endian (t0 ∷ t1 ∷ cb) payload ec need
        (control_enough fh need (length cb) a (λ c. omega (arith, size, enough c)))
    ∙ ap (λ r. record { ret = true; fh = fh; stream = accepted s fh; b = r; ec = none })
        (drop_front (t0 ∷ t1 ∷ cb) (write endian fh) payload (sym (write-tail endian fh payload)))

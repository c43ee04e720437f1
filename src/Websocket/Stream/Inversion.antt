-- ===== src/Websocket/Stream/Inversion.antt =====
-- What a call of `parse_fh` that returns `true` has gone through.
use beast_asio_standalone.Prelude.{
  ℕ, ◌+◌, ◌-◌, ◌≤◌, ◌≡◌, refl, ap, sym, ◌∙◌, true, false, ◌&&◌, none, some, List, ◌∷◌, ltb, length,
  drop, Bool-cases, inl, inr, ltb_false→le,
}
use beast_asio_standalone.Websocket.Error.{ErrorCode}
use beast_asio_standalone.Websocket.Frame.{FrameHeader, is_control}
use beast_asio_standalone.Websocket.Stream.{
  ReadState, Parsed, read_second, read_first, need_of, check_op, check_mask, read_length, read_key,
  begin_payload, after_payload, after_key, after_length, after_checks, after_op, parse_fh,
}

returns : {p q : Parsed} → p ≡ q → p.ret ≡ true → q.ret ≡ true
returns e h = ap (λ r. r.ret) (sym e) ∙ h

after_payload_inv :
    (fh : FrameHeader) (b cb : List ℕ) (r : ReadState × ErrorCode)
    → (after_payload fh b cb r).ret ≡ true
    → (r.1 ≡ none)
      × (after_payload fh b cb r ≡ record {
        ret = true;
        fh = fh;
        stream = r.0;
        b = drop (length b - length cb) b;
        ec = none;
      })
unfolding after_payload
after_payload_inv fh b cb (s, none) h = (refl, refl)
after_payload_inv fh b cb (s, some e) h = cc

after_length_inv :
    (s : ReadState) (b : List ℕ) (r : FrameHeader × List ℕ × ErrorCode)
    → (after_length s b r).ret ≡ true
    → (r.2 ≡ none) × (after_length s b r ≡ after_key b (read_key r.0 r.1 s))
unfolding after_length
after_length_inv s b (fh, cb, none) h = (refl, refl)
after_length_inv s b (fh, cb, some e) h = cc

after_checks_inv :
    (fh : FrameHeader) (s : ReadState) (b cb : List ℕ) (ec : ErrorCode) (need : ℕ) (e : ErrorCode)
    → (after_checks fh s b cb ec need e).ret ≡ true
    → (e ≡ none)
      × ((is_control fh.op && ltb (length cb) (need + fh.len)) ≡ false)
      × (after_checks fh s b cb ec need e ≡ after_length s b (read_length fh cb))
unfolding after_checks
after_checks_inv fh s b cb ec need (some e) h = cc
after_checks_inv fh s b cb ec need none h =
    elim (Bool-cases (is_control fh.op && ltb (length cb) (need + fh.len))) [
      | inl short ↦ cc (h, short)
      | inr whole ↦ (refl, whole, rw whole)
    ]

after_op_inv :
    (fh : FrameHeader) (b cb : List ℕ) (ec : ErrorCode) (need : ℕ) (r : ReadState × ErrorCode)
    → (after_op fh b cb ec need r).ret ≡ true
    → (r.1 ≡ none)
      × (after_op fh b cb ec need r ≡ after_checks fh r.0 b cb ec need (check_mask (r.0).role fh))
unfolding after_op
after_op_inv fh b cb ec need (s, none) h = (refl, refl)
after_op_inv fh b cb ec need (s, some e) h = cc

module _ (fh0 : FrameHeader) (t0 t1 : ℕ) (cb : List ℕ) (ec : ErrorCode) (s : ReadState) where
  parse_two_inv :
      (parse_fh fh0 (t0 ∷ t1 ∷ cb) ec s).ret ≡ true
      → let fh1 = read_second fh0 t1 in
        let fh = read_first fh1 t0 in
        (need_of fh1 ≤ length cb)
        × (parse_fh fh0 (t0 ∷ t1 ∷ cb) ec s
            ≡ after_op fh (t0 ∷ t1 ∷ cb) cb ec (need_of fh1) (check_op fh.op fh s))
  unfolding parse_fh
  parse_two_inv h = elim (Bool-cases (ltb (length cb) (need_of (read_second fh0 t1)))) [
    | inl short ↦ cc (h, short)
    | inr enough ↦ (ltb_false→le _ _ enough, rw enough)
  ]

  abbrev second_read : FrameHeader
  second_read = read_second fh0 t1

  -- the header before its length and key are read, and the stream after the checks
  abbrev pub first_read : FrameHeader
  first_read = read_first second_read t0

  abbrev pub checked : ReadState
  checked = (check_op first_read.op first_read s).0

  abbrev pub measured : FrameHeader × List ℕ × ErrorCode
  measured = read_length first_read cb

  abbrev pub keyed : FrameHeader × List ℕ × ReadState
  keyed = read_key measured.0 measured.1 checked

  pub record Took : Type 0 where
    pub need : need_of second_read ≤ length cb
    pub op : (check_op first_read.op first_read s).1 ≡ none
    pub mask : check_mask checked.role first_read ≡ none
    pub whole :
        (is_control first_read.op && ltb (length cb) (need_of second_read + first_read.len)) ≡ false
    pub len : measured.2 ≡ none
    pub message : (begin_payload keyed.0 keyed.2).1 ≡ none
    pub result : parse_fh fh0 (t0 ∷ t1 ∷ cb) ec s ≡ record {
      ret = true;
      fh = keyed.0;
      stream = (begin_payload keyed.0 keyed.2).0;
      b = drop (length (t0 ∷ t1 ∷ cb) - length keyed.1) (t0 ∷ t1 ∷ cb);
      ec = none;
    }

  pub parse_fh-Took : (parse_fh fh0 (t0 ∷ t1 ∷ cb) ec s).ret ≡ true → Took
  unfolding after_key
  parse_fh-Took h =
      let b = t0 ∷ t1 ∷ cb in
      let need = need_of second_read in
      let two = parse_two_inv h in
      let r2 = returns two.1 h in
      let op = after_op_inv first_read b cb ec need (check_op first_read.op first_read s) r2 in
      let r3 = returns op.1 r2 in
      let checks = after_checks_inv first_read checked b cb ec need _ r3 in
      let r4 = returns checks.2 r3 in
      let len = after_length_inv checked b measured r4 in
      let r5 = returns len.1 r4 in
      let last = after_payload_inv keyed.0 b keyed.1 (begin_payload keyed.0 keyed.2) r5 in
      record {
        need = two.0;
        op = op.0;
        mask = checks.0;
        whole = checks.1;
        len = len.0;
        message = last.0;
        result = two.1 ∙ op.1 ∙ checks.2 ∙ len.1 ∙ last.1;
      }

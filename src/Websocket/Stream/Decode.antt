-- ===== src/Websocket/Stream/Decode.antt =====
-- Whatever bytes come in: what a header is that `parse_fh` returns, and how its bytes stand to those of
-- `write`.
use mathlib.Core.Path.{subst}
use beast_asio_standalone.Prelude.{
  ℕ, ◌+◌, ◌≤◌, ◌≡◌, refl, ap, ap₂, sym, ◌∙◌, true, false, none, List, [], ◌∷◌, ◌++◌, All, All-back,
  arith, length, ltb, ◌&&◌, if◌then◌else◌, length-append, ◌^◌, ◌⊎◌, inl, inr, Bool-cases, ltb→lt,
  ltb_false→le,
}
use beast_asio_standalone.Prelude.Bits.{IsByte}
use beast_asio_standalone.Websocket.Mask.{prepare_key}
use beast_asio_standalone.Websocket.Error.{ErrorCode}
use beast_asio_standalone.Websocket.Frame.{Endian, value, FrameHeader, write, is_control}
use beast_asio_standalone.Websocket.Frame.Bytes.{
  packed, second, short_len, extended_size, key_size, key_bytes, extended,
}
use beast_asio_standalone.Websocket.Stream.{
  ReadState, Parsed, read_second, read_first, need_of, check_op, begin_payload, parse_fh,
}
use beast_asio_standalone.Websocket.Stream.Spec.{IsAcceptable, IsStandard, accepted, from_client}
use beast_asio_standalone.Websocket.Stream.RoundTrip.{
  IsWritable, drop_front, tail, write-tail, length-tail,
}
use beast_asio_standalone.Websocket.Stream.Fields.{length-extended as length_of_extended}
use beast_asio_standalone.Websocket.Stream.Inversion.{
  first_read, checked, measured, keyed, Took, parse_fh-Took,
}
use beast_asio_standalone.Websocket.Stream.Rebuild.{
  first_rebuilt, second_rebuilt, seven_bits, Measured, read_length-Measured, Keyed, read_key-Keyed,
}
use beast_asio_standalone.Websocket.Stream.Sound.{
  Checked, check_op-Checked, check_mask-from_client, Begun, before, begin_payload-Begun,
}

-- The header was in order, its bytes are off the buffer, and the stream is as it has to be.
pub record Understood (endian : Endian) (s : ReadState) (b : List ℕ) (p : Parsed) : Type 0 where
  pub acceptable : IsAcceptable s p.fh
  pub standard : IsStandard s p.fh ⊎ (2 ^ 63 ≤ p.fh.len)
  pub writable : IsWritable p.fh
  pub bytes : b ≡ write endian p.fh ++ p.b
  pub stream : p.stream ≡ accepted s p.fh
  pub whole : is_control p.fh.op ≡ true → p.fh.len ≤ length p.b
  pub ec : p.ec ≡ none

short_len-small : (len : ℕ) → short_len len ≤ 125 → len ≤ 125
short_len-small len h = ground arith

short_len_self : (len : ℕ) → short_len len ≤ 125 → short_len len ≡ len
short_len_self len h = ground arith

abbrev with_key : FrameHeader → ℕ → FrameHeader
with_key fh key = record fh { key = key }

module _ (endian : Endian) (fh0 : FrameHeader) (t0 t1 : ℕ) (cb : List ℕ) (ec : ErrorCode)
    (s : ReadState) (bytes : All IsByte (t0 ∷ t1 ∷ cb)) (t : Took fh0 t0 t1 cb ec s) where
  abbrev fh1 : FrameHeader
  fh1 = first_read fh0 t0 t1 cb ec s

  abbrev m : FrameHeader × List ℕ × ErrorCode
  m = measured fh0 t0 t1 cb ec s

  abbrev k : FrameHeader × List ℕ × ReadState
  k = keyed fh0 t0 t1 cb ec s

  is_measured : Measured endian fh1 cb m
  unfolding need_of read_first read_second
  is_measured =
      read_length-Measured endian fh1 cb (bytes.1).1 (seven_bits t1 (bytes.1).0)
        (omega (arith, t.need)) t.len

  rest_IsByte : All IsByte m.1
  rest_IsByte =
      All-back IsByte (extended endian (m.0).len) m.1
        (subst (All IsByte) is_measured.bytes (bytes.1).1)

  length-extended : length (extended endian (m.0).len) ≡ extended_size fh1.len
  length-extended =
      length_of_extended endian (m.0).len is_measured.fits ∙ ap extended_size is_measured.short

  is_Keyed : Keyed m.0 m.1 (checked fh0 t0 t1 cb ec s) k
  unfolding need_of read_first read_second
  is_Keyed = read_key-Keyed m.0 (checked fh0 t0 t1 cb ec s) m.1 rest_IsByte (
      omega (
        arith,
        t.need,
        length-extended,
        ap length is_measured.bytes,
        length-append (extended endian (m.0).len) m.1,
        mask_room,
      ))
    where
      mask_room : key_size m.0 ≡ key_size fh1
      mask_room = ap key_size is_measured.same

  -- the header that is returned, and what was read of it
  abbrev final : FrameHeader
  final = record fh1 { len = (m.0).len; key = (k.0).key }

  k-final : k.0 ≡ final
  k-final = is_Keyed.same ∙ ap (λ (h : FrameHeader). with_key h (k.0).key) is_measured.same

  is_checked : Checked s fh1 (check_op fh1.op fh1 s)
  is_checked = check_op-Checked fh1 s fh1.op refl t.op

  k-before : k.2 ≡ before s final (is_measured.fits) is_checked.known
  k-before = is_Keyed.stream ∙ λ i. record (is_checked.stream i) {
    rd_key =
        if (is_measured.same i).mask then prepare_key (k.0).key else (is_checked.stream i).rd_key;
  }

  begun-eq :
      begin_payload k.0 k.2 ≡ begin_payload final (before s final is_measured.fits is_checked.known)
  begun-eq = ap₂ begin_payload k-final k-before

  begun : Begun s final (begin_payload final (before s final is_measured.fits is_checked.known))
  begun =
      begin_payload-Begun s final is_measured.fits is_checked.known final.op refl
        (ap (λ r. r.1) (sym begun-eq) ∙ t.message)

  second_byte : second final.mask (short_len final.len) ≡ t1
  unfolding read_first read_second
  second_byte = ap (second final.mask) is_measured.short ∙ second_rebuilt t1 (bytes.1).0

  first_byte : packed final.fin final.rsv1 final.rsv2 final.rsv3 (value final.op) ≡ t0
  unfolding read_first read_second
  first_byte = first_rebuilt t0 bytes.0

  tail-cb : cb ≡ tail endian final k.1
  tail-cb =
      is_measured.bytes
      ∙ ap (◌++◌ (extended endian (m.0).len))
          (is_Keyed.bytes ∙ ap (λ (h : FrameHeader). key_bytes h ++ k.1) k-final)

  whole_bytes : t0 ∷ t1 ∷ cb ≡ write endian final ++ k.1
  whole_bytes =
      (λ i. sym first_byte i ∷ sym second_byte i ∷ tail-cb i) ∙ sym (write-tail endian final k.1)

  abbrev returned : Parsed
  returned = record { ret = true; fh = final; stream = accepted s final; b = k.1; ec = none }

  parse_fh-returned : parse_fh fh0 (t0 ∷ t1 ∷ cb) ec s ≡ returned
  parse_fh-returned = t.result ∙ λ i. record {
    ret = true;
    fh = k-final i;
    stream = (ap (λ r. r.0) begun-eq ∙ begun.stream) i;
    b = drop_front (t0 ∷ t1 ∷ cb) (write endian final) k.1 whole_bytes i;
    ec = none;
  }

  room : is_control final.op ≡ true → final.len ≤ length k.1
  room c = omega (
    arith,
    control_room (length cb) (need_of (read_second fh0 t1)) fh1.len c t.whole,
    short_len_self (m.0).len (rw is_measured.short (is_checked.control_whole c).1),
    is_measured.short,
    ap length tail-cb,
    length-tail endian final k.1 fh0 is_measured.fits,
    ap (λ b. need_of (read_second fh0 b)) second_byte,
  )
    where
      control_room :
          (have need len : ℕ)
          → is_control fh1.op ≡ true
          → (is_control fh1.op && ltb have (need + len)) ≡ false
          → need + len ≤ have
      control_room have need len c h = ground arith

  is_acceptable : IsAcceptable s final
  is_acceptable = record {
    known = is_checked.known;
    masked =
        check_mask-from_client fh1 (checked fh0 t0 t1 cb ec s).role t.mask
        ∙ ap (λ (r : ReadState). from_client r.role) is_checked.stream;
    rsv2_clear = is_checked.rsv2_clear;
    rsv3_clear = is_checked.rsv3_clear;
    rsv1_negotiated = is_checked.rsv1_negotiated;
    control_whole = λ c. (
      (is_checked.control_whole c).0,
      short_len-small (m.0).len (rw is_measured.short (is_checked.control_whole c).1),
    );
    first_between = is_checked.first_between;
    cont_within = is_checked.cont_within;
    fits = begun.fits;
  }

  understood : Understood endian s (t0 ∷ t1 ∷ cb) returned
  understood = record {
    acceptable = is_acceptable;
    standard = elim (Bool-cases (ltb final.len (2 ^ 63))) [
      | inl clear ↦ inl (record { acceptable = is_acceptable; top_bit_clear = ltb→lt _ _ clear })
      | inr set ↦ inr (ltb_false→le _ _ set)
    ];
    writable = record {
      len_fits = is_measured.fits;
      key_fits = is_Keyed.fits;
      key_zero = λ z. is_Keyed.zero (ap (λ (h : FrameHeader). h.mask) is_measured.same ∙ z);
    };
    bytes = whole_bytes;
    stream = refl;
    whole = room;
    ec = refl;
  }

-- When `parse_fh` returns `true`, on any bytes whatever, the header keeps all the rules of RFC 6455 for
-- the state of the stream, or all but the one that the top bit of a 64 bit length is 0, which the code
-- does not look at. The buffer was what `write` writes for that header and then the bytes that are
-- left, so no length is coded in more bytes than needed; a control frame has its payload there in
-- full, the stream is as it has to be after the header, and the error is clear.
pub parse_fh-Understood :
    (endian : Endian) (fh0 : FrameHeader) (b : List ℕ) (ec : ErrorCode) (s : ReadState)
    → All IsByte b
    → (parse_fh fh0 b ec s).ret ≡ true
    → Understood endian s b (parse_fh fh0 b ec s)
parse_fh-Understood endian fh0 (t0 ∷ t1 ∷ cb) ec s bytes h =
    let t = parse_fh-Took fh0 t0 t1 cb ec s h in
    subst (Understood endian s (t0 ∷ t1 ∷ cb))
      (sym (parse_fh-returned endian fh0 t0 t1 cb ec s bytes t))
      (understood endian fh0 t0 t1 cb ec s bytes t)
parse_fh-Understood endian fh0 (t0 ∷ []) ec s bytes h = unfold parse_fh in cc
parse_fh-Understood endian fh0 [] ec s bytes h = unfold parse_fh in cc

-- ===== src/Websocket/Samples.antt =====
-- Runs of the websocket modules on concrete frames.
mod Control
use mathlib.Core.List.{flatten}
use beast_asio_standalone.Prelude.{
  ℕ, ◌+◌, ◌*◌, ◌/◌, ◌%◌, ◌^◌, ◌≡◌, refl, Bool, true, false, none, some, List, [], ◌∷◌, ◌++◌, arith,
  sym, ltb, ◌&&◌, All, inr,
}
use beast_asio_standalone.Websocket.Mask.{
  PreparedKey, at_index, prepare_key, rol, mask_tail, mask_inplace, mask_inplace_seq,
}
use beast_asio_standalone.Websocket.Mask.Laws.{
  transformed, mask_inplace_lem, mask_inplace_seq_lem, mask_inplace_seq_twice,
}
use beast_asio_standalone.Websocket.Error.{Error}
use beast_asio_standalone.Websocket.Frame.{
  Endian, text, binary, cont, ping, FrameHeader, write, first_byte, length_bytes,
  native_to_little_uint32, opcode_of, big_uint64_to_native,
}
use beast_asio_standalone.Websocket.Stream.{
  server, ReadState, Parsed, parse_fh, read_second, read_first, need_of, check_op, check_control,
  check_mask, read_length, read_key, begin_payload, after_payload, after_key, after_length,
  after_checks, after_op,
}
use beast_asio_standalone.Websocket.Stream.Spec.{IsAcceptable, accepted}
use beast_asio_standalone.Websocket.Stream.RoundTrip.{IsWritable, parse_fh-write}
use beast_asio_standalone.Websocket.Stream.Decode.{Understood, parse_fh-Understood}
use beast_asio_standalone.Websocket.Stream.Incremental.{parse_fh-append, parse_fh_prefix}
use beast_asio_standalone.Prelude.Bits.{IsByte}

abbrev all_bytes : List ℕ → Bool
all_bytes [] = true
all_bytes (x ∷ xs) = ltb x 256 && all_bytes xs

All-all_bytes : (xs : List ℕ) → all_bytes xs ≡ true → All IsByte xs
All-all_bytes [] h = tt
All-all_bytes (x ∷ xs) h = (ground arith, All-all_bytes xs (ground arith))

abbrev endian : Endian
endian = record {
  big_uint16 = λ v. v / 2 ^ 8 ∷ v % 2 ^ 8 ∷ [];
  big_uint64 = λ v.
      v / 2 ^ 56 % 2 ^ 8
      ∷ v / 2 ^ 48 % 2 ^ 8
      ∷ v / 2 ^ 40 % 2 ^ 8
      ∷ v / 2 ^ 32 % 2 ^ 8
      ∷ v / 2 ^ 24 % 2 ^ 8
      ∷ v / 2 ^ 16 % 2 ^ 8
      ∷ v / 2 ^ 8 % 2 ^ 8
      ∷ v % 2 ^ 8
      ∷ [];
  big_uint16_lem = λ v h. refl;
  big_uint64_lem = λ v h. refl;
}

abbrev no_header : FrameHeader
no_header = record {
  len = 0;
  key = 0;
  op = cont;
  fin = false;
  mask = false;
  rsv1 = false;
  rsv2 = false;
  rsv3 = false;
}

-- the header of a masked, compressed text message of 300 octets, and of a ping
abbrev greeting : FrameHeader
greeting = record no_header {
  len = 300;
  key = 0x01020304;
  op = text;
  fin = true;
  mask = true;
  rsv1 = true;
}

abbrev pinged : FrameHeader
pinged = record no_header { len = 3; key = 0x0a0b0c0d; op = ping; fin = true; mask = true }

abbrev no_key : PreparedKey
no_key = record { b0 = 0; b1 = 0; b2 = 0; b3 = 0 }

abbrev listening : ReadState
listening = record {
  role = server;
  rd_msg_max = 1000;
  rd_size = 77;
  rd_remain = 0;
  rd_key = no_key;
  rd_op = binary;
  rd_cont = false;
  pmd = some false;
}

listening-greeting : IsAcceptable listening greeting
listening-greeting = record {
  known = refl;
  masked = refl;
  rsv2_clear = refl;
  rsv3_clear = refl;
  rsv1_negotiated = λ h. (refl, λ e. cc);
  control_whole = λ h. cc;
  first_between = λ h. refl;
  cont_within = λ h. cc;
  fits = λ h. record { in_limit = inr (inr (omega arith)); in_range = omega arith };
}

listening-pinged : IsAcceptable listening pinged
listening-pinged = record {
  known = refl;
  masked = refl;
  rsv2_clear = refl;
  rsv3_clear = refl;
  rsv1_negotiated = λ h. cc;
  control_whole = λ h. (refl, omega arith);
  first_between = λ h. refl;
  cont_within = λ h. cc;
  fits = λ h. cc;
}

greeting-IsWritable : IsWritable greeting
greeting-IsWritable = record { len_fits = omega arith; key_fits = omega arith; key_zero = λ h. cc }

pinged-IsWritable : IsWritable pinged
pinged-IsWritable = record { len_fits = omega arith; key_fits = omega arith; key_zero = λ h. cc }

parse_fh-write_example :
    parse_fh no_header (write endian greeting ++ (1 ∷ 2 ∷ [])) none listening ≡ record {
      ret = true;
      fh = greeting;
      stream = accepted listening greeting;
      b = 1 ∷ 2 ∷ [];
      ec = none;
    }
parse_fh-write_example =
    parse_fh-write endian no_header greeting (1 ∷ 2 ∷ []) none listening listening-greeting
      greeting-IsWritable (λ h. cc)

-- a ping of three octets, masked
abbrev ping_bytes : List ℕ
ping_bytes = 0x89 ∷ 0x83 ∷ 0x0d ∷ 0x0c ∷ 0x0b ∷ 0x0a ∷ 5 ∷ 6 ∷ 7 ∷ []

written_ping : write endian pinged ++ (5 ∷ 6 ∷ 7 ∷ []) ≡ ping_bytes
unfolding write first_byte length_bytes native_to_little_uint32
written_ping = refl

taken_ping : (parse_fh no_header ping_bytes none listening).ret ≡ true
unfolding parse_fh read_second read_first need_of check_op check_control check_mask read_length
    read_key begin_payload after_payload after_key after_length after_checks after_op opcode_of
taken_ping = refl

parse_fh-Understood_example :
    Understood endian listening ping_bytes (parse_fh no_header ping_bytes none listening)
parse_fh-Understood_example =
    parse_fh-Understood endian no_header ping_bytes none listening (All-all_bytes ping_bytes refl)
      taken_ping

-- a binary frame of 2 to the power 63 octets, with no limit on messages
abbrev top_bit : Parsed
top_bit =
    parse_fh no_header (0x82 ∷ 0xff ∷ 0x80 ∷ 0 ∷ 0 ∷ 0 ∷ 0 ∷ 0 ∷ 0 ∷ 0 ∷ 1 ∷ 2 ∷ 3 ∷ 4 ∷ []) none
      (record listening { rd_msg_max = 0 })

top_bit_taken : (top_bit.ret ≡ true) × (top_bit.fh.len ≡ 2 ^ 63)
unfolding parse_fh read_second read_first need_of check_op check_mask read_length read_key
    begin_payload after_payload after_key after_length after_checks after_op opcode_of
    big_uint64_to_native
top_bit_taken = (refl, refl)

parse_fh-append_example :
    let p = parse_fh no_header ping_bytes none listening in
    let q = parse_fh no_header (ping_bytes ++ (8 ∷ [])) none listening in
    (p.ret ≡ true → q ≡ record p { b = p.b ++ (8 ∷ []) })
    × ((e : Error) → p.ec ≡ some e → (q.ret ≡ false) × (q.ec ≡ some e) × (p.b ≡ ping_bytes))
parse_fh-append_example =
    parse_fh-append endian no_header ping_bytes (8 ∷ []) listening (All-all_bytes ping_bytes refl)

parse_fh_prefix_example :
    let p = parse_fh no_header (0x89 ∷ 0x83 ∷ 0x0d ∷ 0x0c ∷ 0x0b ∷ 0x0a ∷ 5 ∷ []) none listening in
    (p.ret ≡ false)
    × (p.ec ≡ none)
    × (p.b ≡ 0x89 ∷ 0x83 ∷ 0x0d ∷ 0x0c ∷ 0x0b ∷ 0x0a ∷ 5 ∷ [])
    × (p.stream ≡ listening)
parse_fh_prefix_example =
    parse_fh_prefix endian no_header pinged (5 ∷ 6 ∷ 7 ∷ [])
      (0x89 ∷ 0x83 ∷ 0x0d ∷ 0x0c ∷ 0x0b ∷ 0x0a ∷ 5 ∷ []) (7 ∷ []) 6 listening listening-pinged
      pinged-IsWritable refl (All-all_bytes (0x89 ∷ 0x83 ∷ 0x0d ∷ 0x0c ∷ 0x0b ∷ 0x0a ∷ 5 ∷ []) refl)
      (sym written_ping)

abbrev key : PreparedKey
key = record { b0 = 1; b1 = 2; b2 = 3; b3 = 4 }

mask_inplace_lem_example :
    mask_inplace (9 ∷ 8 ∷ 7 ∷ 6 ∷ 5 ∷ []) key
    ≡ (transformed key 0 (9 ∷ 8 ∷ 7 ∷ 6 ∷ 5 ∷ []), rol key 5)
mask_inplace_lem_example = mask_inplace_lem (9 ∷ 8 ∷ 7 ∷ 6 ∷ 5 ∷ []) key

mask_inplace_seq_lem_example :
    (flatten (mask_inplace_seq ((9 ∷ []) ∷ (8 ∷ 7 ∷ []) ∷ []) key).0
      ≡ transformed key 0 (9 ∷ 8 ∷ 7 ∷ []))
    × ((mask_inplace_seq ((9 ∷ []) ∷ (8 ∷ 7 ∷ []) ∷ []) key).1 ≡ rol key 3)
unfolding flatten
mask_inplace_seq_lem_example = mask_inplace_seq_lem ((9 ∷ []) ∷ (8 ∷ 7 ∷ []) ∷ []) key

mask_inplace_seq_twice_example :
    flatten (mask_inplace_seq ((8 ∷ 10 ∷ []) ∷ (4 ∷ []) ∷ []) key).0 ≡ 9 ∷ 8 ∷ 7 ∷ []
unfolding flatten mask_inplace_seq mask_inplace mask_tail rol at_index
mask_inplace_seq_twice_example =
    mask_inplace_seq_twice ((9 ∷ []) ∷ (8 ∷ 7 ∷ []) ∷ []) ((8 ∷ 10 ∷ []) ∷ (4 ∷ []) ∷ []) key refl

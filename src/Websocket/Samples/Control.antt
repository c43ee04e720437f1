-- ===== src/Websocket/Samples/Control.antt =====
-- Runs of the control frames and of the UTF-8 checker.
use beast_asio_standalone.Prelude.{ℕ, ◌≡◌, ◌↔◌, refl, true, false, none, List, [], ◌∷◌, ◌++◌, arith}
use beast_asio_standalone.Websocket.Frame.{ping, close}
use beast_asio_standalone.Websocket.Stream.{client, parse_fh}
use beast_asio_standalone.Websocket.Utf8.{
  reset, finish, valid_step, valid, fail_fast, needed, valid_loop, tail, slow, scan, write,
  write_seq, check_utf8,
}
use beast_asio_standalone.Websocket.Utf8.Spec.{IsUtf8}
use beast_asio_standalone.Websocket.Utf8.Whole.{check_utf8_iff}
use beast_asio_standalone.Websocket.Utf8.Parts.{write_seq-IsUtf8, IsRefusedLead, write_seq_cut}
use beast_asio_standalone.Websocket.Control.{
  CloseReason, no_reason, is_valid_close_code, read_ping, read_close, write_close, write_ping,
  control_payload,
}
use beast_asio_standalone.Websocket.Control.RoundTrip.{
  IsSendable, read_close-write_close, read_ping-write_ping,
}
use beast_asio_standalone.Websocket.Control.Errors.{IsCloseCode, is_valid_close_code_iff}
use beast_asio_standalone.Websocket.Samples.{endian, no_header, listening, All-all_bytes}

-- the letter e with an acute accent, and a full stop
abbrev accented : List ℕ
accented = 0xc3 ∷ 0xa9 ∷ 0x2e ∷ []

accented-IsUtf8 : IsUtf8 accented
accented-IsUtf8 =
    IsUtf8.more (0xc3 ∷ 0xa9 ∷ []) (0x2e ∷ []) (omega arith)
      (IsUtf8.more (0x2e ∷ []) [] (omega arith) IsUtf8.empty refl) refl

check_utf8_iff_example : (check_utf8 3 accented ≡ true) ↔ IsUtf8 accented
check_utf8_iff_example = check_utf8_iff 3 accented (All-all_bytes accented refl)

write_seq-IsUtf8_example : IsUtf8 accented
unfolding write_seq write scan slow tail valid_loop needed fail_fast valid valid_step reset finish
write_seq-IsUtf8_example =
    write_seq-IsUtf8 ((0, 0xc3 ∷ []) ∷ (8, 0xa9 ∷ 0x2e ∷ []) ∷ []) (All-all_bytes accented refl)
      refl refl

-- the emoticon U+1F600, cut behind its first byte
write_seq_cut_example :
    (check_utf8 0 (0xf0 ∷ 0x9f ∷ 0x98 ∷ 0x80 ∷ []) ≡ true)
    × ((write_seq reset ((0, 0xf0 ∷ []) ∷ (16, 0x9f ∷ 0x98 ∷ 0x80 ∷ []) ∷ [])).0 ≡ false)
write_seq_cut_example =
    write_seq_cut 0xf0 (0x9f ∷ 0x98 ∷ 0x80 ∷ []) 0 16 IsRefusedLead.four
      (All-all_bytes (0x9f ∷ 0x98 ∷ 0x80 ∷ []) refl) (omega arith)

abbrev goodbye : CloseReason
goodbye = record { code = 1000; reason = accented }

goodbye-IsSendable : IsSendable goodbye
unfolding is_valid_close_code
goodbye-IsSendable =
    IsSendable.given refl (omega arith) (omega arith) (All-all_bytes accented refl) accented-IsUtf8

read_close-write_close_example :
    let p =
      parse_fh no_header
        (write_close client 0x01020304 endian goodbye ++ (7 ∷ []))
        none
        listening in
    (p.ret ≡ true)
    × (p.fh.op ≡ close)
    × (p.ec ≡ none)
    × (read_close no_reason 0 (control_payload p.fh p.stream.rd_key p.b) ≡ (goodbye, none))
read_close-write_close_example =
    read_close-write_close endian no_header client 0x01020304 goodbye no_reason (7 ∷ []) listening 0
      goodbye-IsSendable (omega arith) refl

read_ping-write_ping_example :
    let p =
      parse_fh no_header
        (write_ping client 0x01020304 endian ping (1 ∷ 2 ∷ []) ++ (7 ∷ []))
        none
        listening in
    (p.ret ≡ true)
    × (p.fh.op ≡ ping)
    × (p.ec ≡ none)
    × (read_ping (control_payload p.fh p.stream.rd_key p.b) ≡ 1 ∷ 2 ∷ [])
read_ping-write_ping_example =
    read_ping-write_ping endian no_header client 0x01020304 ping (1 ∷ 2 ∷ []) (7 ∷ []) listening
      refl (omega arith) (omega arith) refl

is_valid_close_code_iff_example : (is_valid_close_code 1005 ≡ true) ↔ IsCloseCode 1005
is_valid_close_code_iff_example = is_valid_close_code_iff 1005

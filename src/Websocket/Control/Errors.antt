-- ===== src/Websocket/Control/Errors.antt =====
-- What `read_close` accepts and refuses, against RFC 6455, sections 5.5.1 and 7.4.
use beast_asio_standalone.Prelude.{
  ℕ, ◌+◌, ◌*◌, ◌^◌, ◌≤◌, ◌≡◌, true, not, none, some, ◌↔◌, ◌⊎◌, List, [], ◌∷◌, arith, if◌then◌else◌,
}
use beast_asio_standalone.Websocket.Error.{
  ErrorCode, bad_close_code, bad_close_size, bad_close_payload,
}
use beast_asio_standalone.Websocket.Utf8.{check_utf8}
use beast_asio_standalone.Websocket.Utf8.Spec.{IsUtf8}
use beast_asio_standalone.Websocket.Control.{CloseReason, no_reason, is_valid_close_code}

-- the codes that an endpoint may put into a close frame; 1004, 1005, 1006, 1014 and 1015 are kept
-- back, and so is all below 3000 that has no meaning
abbrev pub IsCloseCode : ℕ → Type 0
IsCloseCode v = ((1000 ≤ v) × (v ≤ 1003)) ⊎ ((1007 ≤ v) × (v ≤ 1013)) ⊎ (3000 ≤ v)

-- `is_valid_close_code` accepts exactly the codes from 1000 to 1003, from 1007 to 1013 and from
-- 3000 on.
pub is_valid_close_code_iff : (v : ℕ) → (is_valid_close_code v ≡ true) ↔ IsCloseCode v
unfolding is_valid_close_code
is_valid_close_code_iff v = ground arith

-- the payloads of a close frame, with what they say or what is wrong with them
pub data CloseVerdict : List ℕ → CloseReason × ErrorCode → Type 0 where
  none_given : CloseVerdict [] (no_reason, none)
  accepted :
      (hi lo : ℕ) (text : List ℕ)
      → IsCloseCode (hi * 2 ^ 8 + lo)
      → IsUtf8 text
      → CloseVerdict (hi ∷ lo ∷ text) (record { code = hi * 2 ^ 8 + lo; reason = text }, none)
  wrong_size : (x : ℕ) (cr : CloseReason) → CloseVerdict (x ∷ []) (cr, some bad_close_size)
  wrong_code :
      (hi lo : ℕ) (text : List ℕ) (cr : CloseReason)
      → (IsCloseCode (hi * 2 ^ 8 + lo) → ⊥)
      → CloseVerdict (hi ∷ lo ∷ text) (cr, some bad_close_code)
  wrong_text :
      (hi lo : ℕ) (text : List ℕ) (cr : CloseReason)
      → IsCloseCode (hi * 2 ^ 8 + lo)
      → (IsUtf8 text → ⊥)
      → CloseVerdict (hi ∷ lo ∷ text) (cr, some bad_close_payload)

-- the checks on a payload that has a code
abbrev judged : CloseReason → ℕ → ℕ → List ℕ → CloseReason × ErrorCode
judged cr address code text =
    if not (is_valid_close_code code) then (record cr { code = code }, some bad_close_code) else (
      record cr { code = code; reason = text },
      if not (check_utf8 address text) then some bad_close_payload else none,
    )

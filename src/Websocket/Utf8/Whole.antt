-- ===== src/Websocket/Utf8/Whole.antt =====
-- `check_utf8` on a text that is there in one piece.
use beast_asio_standalone.Prelude.{
  ℕ, ◌≡◌, refl, ap, sym, ◌∙◌, true, ◌↔◌, List, ◌++◌, append-nil, arith, All, Bool-cases, inl, inr,
}
use mathlib.Core.Path.{subst}
use beast_asio_standalone.Prelude.Bits.{IsByte}
use beast_asio_standalone.Websocket.Utf8.{Utf8Checker, reset, finish, write, check_utf8}
use beast_asio_standalone.Websocket.Utf8.Spec.{IsUtf8}
use beast_asio_standalone.Websocket.Utf8.Scan.{IsPartial, Ends, scan-Ends, scan_text}

-- a checker that lacks nothing has passed all of the text
pub Ends-IsUtf8 : (p : List ℕ) (c : Utf8Checker) → Ends p c → (finish c).0 ≡ true → IsUtf8 p
unfolding finish
Ends-IsUtf8 p c e done = elim e.partial [
  | IsPartial.clear none_needed empty ↦
      subst IsUtf8
        (sym (e.scanned.split ∙ ap (λ t. e.scanned.whole ++ t) empty ∙ append-nil e.scanned.whole))
        e.scanned.utf8
  | IsPartial.begun x s h lacks size ↦ absurd (ground arith)
]

-- On any bytes, at whatever address they stand, `check_utf8` returns `true` exactly if they are
-- UTF-8 by the syntax of RFC 3629.
pub check_utf8_iff :
    (address : ℕ) (p : List ℕ) → All IsByte p → (check_utf8 address p ≡ true) ↔ IsUtf8 p
unfolding check_utf8 write reset
check_utf8_iff address p bytes = (sound, complete)
  where
    sound : check_utf8 address p ≡ true → IsUtf8 p
    sound h = elim (Bool-cases (write reset address p).0) [
      | inl ok ↦
          Ends-IsUtf8 p (write reset address p).1
            (scan-Ends reset (write reset address p).1 address p refl refl bytes
              (λ i. (ok i, (write reset address p).1)))
            (rw ok at h)
      | inr refused ↦ absurd (cc (rw refused at h))
    ]

    complete : IsUtf8 p → check_utf8 address p ≡ true
    complete u = unfold finish in rw (scan_text reset address p bytes u) refl

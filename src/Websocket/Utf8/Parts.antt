-- ===== src/Websocket/Utf8/Parts.antt =====
-- The checker over a text that comes in parts.
use beast_asio_standalone.Prelude.{
  ℕ, ◌+◌, ◌-◌, ◌<◌, min, ◌≡◌, refl, ap, sym, ◌∙◌, Bool, true, false, List, [], ◌∷◌, ◌++◌,
  append-nil, append_assoc, ltb, arith, All, All-append, All-back, Bool-cases, inl, inr, take, drop,
  take-append-drop, length, length-append, length-take, ltb→lt, ltb_false→le, ge→ltb_false, get_or,
  some, take_all, All-front,
}
use mathlib.Core.Path.{subst}
use beast_asio_standalone.Prelude.Bits.{IsByte}
use beast_asio_standalone.Websocket.Utf8.{
  Utf8Checker, reset, finish, valid, fail_fast, needed, scan, slow, tail, valid_loop, valid_step,
  write, write_seq, check_utf8,
}
use beast_asio_standalone.Websocket.Utf8.Spec.{IsCodePoint, IsUtf8}
use beast_asio_standalone.Websocket.Utf8.Step.{valid-Passed, needed-length}
use beast_asio_standalone.Websocket.Utf8.Loops.{
  Scanned, Scanned-refl, Scanned-Passed, Scanned-bytes, IsUtf8-one, Answer, answer,
}
use beast_asio_standalone.Websocket.Utf8.Scan.{IsPartial, Ends, Ends-Scanned, scan-Ends}
use beast_asio_standalone.Websocket.Utf8.Whole.{Ends-IsUtf8, check_utf8_iff}

-- the texts of the buffers, one behind the other
abbrev pub texts : List (ℕ × List ℕ) → List ℕ
texts [] = []
texts ((address, p) ∷ bs) = p ++ texts bs

no_length : (q : List ℕ) → length q ≡ 0 → q ≡ []
no_length [] h = refl
no_length (x ∷ q) h = absurd (omega arith)

needed-Passed : (x : ℕ) (s c q : List ℕ) → IsCodePoint c → x ∷ s ≡ c ++ q → needed x ≡ length c
needed-Passed x s [] q k e = absurd k
needed-Passed x s (y ∷ c) q k e = ap (λ t. needed (get_or t 0 0)) e ∙ needed-length y c k

-- a saved begin that `valid` passes once it is full is one code point
filled_Scanned :
    (x : ℕ) (s q : List ℕ)
    → All IsByte (x ∷ s)
    → needed x ≡ length (x ∷ s)
    → valid (x ∷ s) ≡ some q
    → Scanned (x ∷ s) []
filled_Scanned x s q bytes full h =
    let passed = valid-Passed x s q bytes h in
    let size = needed-Passed x s passed.point q passed.is_point passed.split in
    subst (Scanned (x ∷ s))
      (no_length q (
        omega (
          arith,
          size,
          full,
          ap (λ (t : List ℕ). length t) passed.split,
          length-append passed.point q,
        )))
      (Scanned-Passed (x ∷ s) q passed)

Scanned-behind : (p q r : List ℕ) → Scanned p q → Scanned (p ++ r) (q ++ r)
Scanned-behind p q r s = record {
  whole = s.whole;
  utf8 = s.utf8;
  split = ap (λ t. t ++ r) s.split ∙ append_assoc s.whole q r;
}

-- the test that begins `write`
lacking : (need : ℕ) → 0 < need → ltb 0 need ≡ true
lacking need h = ground arith

module _ (c c' : Utf8Checker) (address : ℕ) (p : List ℕ) (bytes : All IsByte p) where
  -- how many bytes go to the saved ones, what is missing then, and what is saved then
  abbrev used : ℕ
  used = min (length p) c.need

  abbrev missing : ℕ
  missing = c.need - used

  abbrev joined : List ℕ
  joined = c.cp ++ take used p

  module _ (x : ℕ) (s : List ℕ) (saved : c.cp ≡ x ∷ s)
      (size : needed x ≡ length c.cp + c.need) where
    still-Ends : ltb 0 missing ≡ true → Ends (c.cp ++ p) (record { need = missing; cp = joined })
    still-Ends still =
        let lacks = ltb→lt 0 missing still in
        record {
          scanned =
              subst (Scanned (c.cp ++ p))
                (ap (λ t. c.cp ++ t) (sym (take_all used p (omega (arith, lacks)))))
                (Scanned-refl (c.cp ++ p));
          partial =
              IsPartial.begun x (s ++ take used p) (ap (λ t. t ++ take used p) saved) lacks
                (omega (arith, lacks, size, length-append c.cp (take used p), length-take used p));
        }

    joined-Scanned :
        (q : List ℕ)
        → All IsByte c.cp
        → ltb 0 missing ≡ false
        → valid joined ≡ some q
        → Scanned (c.cp ++ p) (drop used p)
    joined-Scanned q cp_bytes full h =
        let cut = take-append-drop used p in
        let fresh =
          All-front IsByte (take used p) (drop used p) (subst (All IsByte) (sym cut) bytes) in
        let begin = ap (λ t. t ++ take used p) saved in
        let all = subst (All IsByte) begin (All-append IsByte c.cp (take used p) fresh cp_bytes) in
        let filled =
          filled_Scanned x (s ++ take used p) q all
            (omega (
              arith,
              ltb_false→le 0 missing full,
              size,
              length-append c.cp (take used p),
              length-take used p,
              ap (λ (t : List ℕ). length t) begin,
            ))
            (ap valid (sym begin) ∙ h) in
        subst (λ t. Scanned t (drop used p))
          (append_assoc c.cp (take used p) (drop used p) ∙ ap (λ t. c.cp ++ t) cut)
          (Scanned-behind joined [] (drop used p) (subst (λ t. Scanned t []) (sym begin) filled))

    write_begun-Ends :
        0 < c.need → All IsByte c.cp → write c address p ≡ (true, c') → Ends (c.cp ++ p) c'
    unfolding write
    write_begun-Ends lacks cp_bytes h =
        let begun = lacking c.need lacks in
        elim (Bool-cases (ltb 0 missing)) [
          | inl still ↦
              subst (Ends (c.cp ++ p))
                (ap (λ (r : Bool × Utf8Checker). r.1) (rw (begun, still) at h)) (still-Ends still)
          | inr full ↦ elim (answer (valid joined)) [
            | Answer.refused e ↦ absurd (cc (rw (begun, full, e) at h))
            | Answer.passed q e ↦
                Ends-Scanned (c.cp ++ p) (drop used p) c' (joined-Scanned q cp_bytes full e) (
                  scan-Ends (record { need = missing; cp = [] }) c' (address + used) (drop used p)
                    (omega (arith, ltb_false→le 0 missing full)) refl
                    (All-back IsByte (take used p) (drop used p)
                      (subst (All IsByte) (sym (take-append-drop used p)) bytes))
                    (rw (begun, full, e) at h))
          ]
        ]

  write-Ends : IsPartial c → All IsByte c.cp → write c address p ≡ (true, c') → Ends (c.cp ++ p) c'
  unfolding write
  write-Ends (IsPartial.clear none_needed empty) cp_bytes h =
      subst (λ t. Ends t c') (sym (ap (λ t. t ++ p) empty))
        (scan-Ends c c' address p none_needed empty bytes
          (rw (ge→ltb_false 0 c.need (omega (arith, none_needed))) at h))
  write-Ends (IsPartial.begun x s saved lacks size) cp_bytes h =
      write_begun-Ends x s saved size lacks cp_bytes h

write_seq-Ends :
    (bs : List (ℕ × List ℕ)) (c c' : Utf8Checker)
    → IsPartial c
    → All IsByte c.cp
    → All IsByte (texts bs)
    → write_seq c bs ≡ (true, c')
    → Ends (c.cp ++ texts bs) c'
unfolding write_seq
write_seq-Ends [] c c' part cp_bytes bytes h =
    subst (λ t. Ends (c.cp ++ []) t) (ap (λ (r : Bool × Utf8Checker). r.1) h)
      (record {
        scanned = subst (λ t. Scanned t c.cp) (sym (append-nil c.cp)) (Scanned-refl c.cp);
        partial = part;
      })
write_seq-Ends ((address, p) ∷ bs) c c' part cp_bytes bytes h =
    elim (Bool-cases (write c address p).0) [
      | inr refused ↦ absurd (cc (rw refused at h))
      | inl ok ↦
          let c1 = (write c address p).1 in
          let here = All-front IsByte p (texts bs) bytes in
          let e = write-Ends c c1 address p here part cp_bytes (λ i. (ok i, c1)) in
          let saved =
            Scanned-bytes (c.cp ++ p) c1.cp e.scanned (All-append IsByte c.cp p here cp_bytes) in
          let more =
            write_seq-Ends bs c1 c' e.partial saved (All-back IsByte p (texts bs) bytes)
              (rw ok at h) in
          subst (λ t. Ends t c') (append_assoc c.cp p (texts bs))
            (Ends-Scanned ((c.cp ++ p) ++ texts bs) (c1.cp ++ texts bs) c'
              (Scanned-behind (c.cp ++ p) c1.cp (texts bs) e.scanned) more)
    ]

-- Whatever buffers a text of bytes comes in, and wherever they cut its code points: if `write`
-- over the sequence returns `true` from a checker that is reset, and `finish` then too, the text
-- as a whole is UTF-8.
pub write_seq-IsUtf8 :
    (bs : List (ℕ × List ℕ))
    → All IsByte (texts bs)
    → (write_seq reset bs).0 ≡ true
    → (finish (write_seq reset bs).1).0 ≡ true
    → IsUtf8 (texts bs)
unfolding reset
write_seq-IsUtf8 bs bytes ok done =
    let c = (write_seq reset bs).1 in
    Ends-IsUtf8 (texts bs) c
      (write_seq-Ends bs reset c (IsPartial.clear refl refl) tt bytes (λ i. (ok i, c))) done

-- the first bytes whose code point is refused when it comes after a break
pub data IsRefusedLead : ℕ → Type 0 where
  three : IsRefusedLead 0xe0
  four : IsRefusedLead 0xf0

-- A code point of RFC 3629 that begins with the byte E0 or F0 is accepted by `check_utf8`, but
-- `write` over a sequence of buffers returns `false` when the first buffer is this byte alone and
-- the second is the rest.
pub write_seq_cut :
    (x : ℕ) (rest : List ℕ) (address next : ℕ)
    → IsRefusedLead x
    → All IsByte rest
    → IsCodePoint (x ∷ rest)
    → (check_utf8 address (x ∷ rest) ≡ true)
      × ((write_seq reset ((address, x ∷ []) ∷ (next, rest) ∷ [])).0 ≡ false)
unfolding write_seq write scan slow tail valid_loop needed fail_fast valid valid_step reset
write_seq_cut x rest address next IsRefusedLead.three bytes k = (
  (check_utf8_iff address (0xe0 ∷ rest) (omega arith, bytes)).1 (IsUtf8-one (0xe0 ∷ rest) k),
  refl,
)
write_seq_cut x rest address next IsRefusedLead.four bytes k = (
  (check_utf8_iff address (0xf0 ∷ rest) (omega arith, bytes)).1 (IsUtf8-one (0xf0 ∷ rest) k),
  refl,
)

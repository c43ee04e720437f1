-- ===== src/Websocket/Stream/Verdict.antt =====
-- What a call of `parse_fh` says on a part of the input, against its calls on longer inputs.
use beast_asio_standalone.Prelude.{
  ℕ, ◌+◌, ◌≤◌, ◌≡◌, refl, ap, sym, Bool, true, false, ◌&&◌, none, some, List, [], ◌∷◌, ◌++◌, inl,
  inr, arith, length, ltb, ◌==◌, length-append, Bool-cases, ltb_false→le, get_or-append,
  drop-append, length-drop,
}
use beast_asio_standalone.Websocket.Error.{Error, ErrorCode}
use beast_asio_standalone.Websocket.Stream.RoundTrip.{parse_two}
use mathlib.Core.Path.{subst}
use beast_asio_standalone.Websocket.Frame.{Opcode, cont, text, binary, FrameHeader, is_control}
use beast_asio_standalone.Websocket.Frame.Bytes.{extended_size, key_size}
use beast_asio_standalone.Websocket.Stream.{
  ReadState, Parsed, stop, read_second, read_first, need_of, check_op, check_mask, read_length,
  read_key, begin_payload, after_payload, after_key, after_length, after_checks, after_op, parse_fh,
}

-- Only the bytes of the header are looked at.
read_length-append :
    (fh : FrameHeader) (cb more : List ℕ)
    → extended_size fh.len ≤ length cb
    → read_length fh (cb ++ more)
      ≡ ((read_length fh cb).0, (read_length fh cb).1 ++ more, (read_length fh cb).2)
unfolding read_length
read_length-append fh cb more h = elim (Bool-cases (fh.len == 126)) [
  | inl two ↦
      let room = rw two at h in
      rw (
        two,
        get_or-append cb more 0 0 (omega arith),
        get_or-append cb more 1 0 (omega arith),
        drop-append 2 cb more room,
      )
  | inr not_two ↦ elim (Bool-cases (fh.len == 127)) [
    | inl eight ↦
        let room = rw (not_two, eight) at h in
        rw (
          not_two,
          eight,
          get_or-append cb more 0 0 (omega arith),
          get_or-append cb more 1 0 (omega arith),
          get_or-append cb more 2 0 (omega arith),
          get_or-append cb more 3 0 (omega arith),
          get_or-append cb more 4 0 (omega arith),
          get_or-append cb more 5 0 (omega arith),
          get_or-append cb more 6 0 (omega arith),
          get_or-append cb more 7 0 (omega arith),
          drop-append 8 cb more room,
        )
    | inr not_eight ↦ rw (not_two, not_eight)
  ]
]

read_key-append :
    (fh : FrameHeader) (cb more : List ℕ) (s : ReadState)
    → key_size fh ≤ length cb
    → read_key fh (cb ++ more) s
      ≡ ((read_key fh cb s).0, (read_key fh cb s).1 ++ more, (read_key fh cb s).2)
unfolding read_key
read_key-append fh cb more s h = elim (Bool-cases fh.mask) [
  | inl m ↦
      let room = rw m at h in
      rw (
        m,
        get_or-append cb more 0 0 (omega arith),
        get_or-append cb more 1 0 (omega arith),
        get_or-append cb more 2 0 (omega arith),
        get_or-append cb more 3 0 (omega arith),
        drop-append 4 cb more room,
      )
  | inr m ↦ rw m
]

and_left : (a b : Bool) → (a && b) ≡ true → a ≡ true
and_left a b h = ground arith

-- a frame that is not waited for is not waited for once there is more
longer_false : (c : Bool) (x y n : ℕ) → x ≤ y → (c && ltb x n) ≡ false → (c && ltb y n) ≡ false
longer_false c x y n h k = ground arith

-- The verdict on a part of the input, against the results `q` on longer inputs.
pub data Verdict (b : List ℕ) (s : ReadState) (p : Parsed) (q : List ℕ → Parsed) : Type 0 where
  accepts : p.ret ≡ true → Verdict b s p q
  waits : p ≡ stop p.fh s b none → Verdict b s p q
  rejects :
      (e : Error)
      → p.ret ≡ false
      → p.ec ≡ some e
      → p.b ≡ b
      → ((more : List ℕ) → ((q more).ret ≡ false) × ((q more).ec ≡ some e))
      → Verdict b s p q

payload-Verdict :
    (fh : FrameHeader) (b cb : List ℕ) (s : ReadState) (r : ReadState × ErrorCode)
    → Verdict b s (after_payload fh b cb r) (λ more. after_payload fh (b ++ more) (cb ++ more) r)
unfolding after_payload
payload-Verdict fh b cb s (s', none) = accepts refl
payload-Verdict fh b cb s (s', some e) = rejects e refl refl refl (λ more. (refl, refl))

Verdict-map :
    {b : List ℕ} {s : ReadState} {p : Parsed} (q q' : List ℕ → Parsed)
    → ((more : List ℕ) → q more ≡ q' more)
    → Verdict b s p q
    → Verdict b s p q'
Verdict-map q q' f (accepts h) = accepts h
Verdict-map q q' f (waits h) = waits h
Verdict-map q q' f (rejects e h0 h1 h2 h3) = rejects e h0 h1 h2 (λ more. rw (f more) at (h3 more))

-- what `read_length` leaves for the key
key_room :
    (fh : FrameHeader) (cb : List ℕ)
    → extended_size fh.len + key_size fh ≤ length cb
    → key_size (read_length fh cb).0 ≤ length (read_length fh cb).1
unfolding read_length
key_room fh cb h = ground (arith, length-drop 2 cb, length-drop 8 cb)

module _ (s : ReadState) (fh : FrameHeader) (b cb : List ℕ) where
  key-Verdict :
      (s0 : ReadState)
      → key_size fh ≤ length cb
      → Verdict b s0
          (after_key b (read_key fh cb s))
          (λ more. after_key (b ++ more) (read_key fh (cb ++ more) s))
  unfolding after_key
  key-Verdict s0 h =
      let k = read_key fh cb s in
      Verdict-map _ _ (λ more. ap (after_key (b ++ more)) (sym (read_key-append fh cb more s h)))
        (payload-Verdict k.0 b k.1 s0 (begin_payload k.0 k.2))

module _ (s : ReadState) (b : List ℕ) where
  measured-Verdict :
      (s0 : ReadState) (r : FrameHeader × List ℕ × ErrorCode)
      → key_size r.0 ≤ length r.1
      → Verdict b s0
          (after_length s b r)
          (λ more. after_length s (b ++ more) (r.0, r.1 ++ more, r.2))
  unfolding after_length
  measured-Verdict s0 (fh, cb, none) h = key-Verdict s fh b cb s0 h
  measured-Verdict s0 (fh, cb, some e) h = rejects e refl refl refl (λ more. (refl, refl))

module _ (fh : FrameHeader) (b cb : List ℕ)
    (room : extended_size fh.len + key_size fh ≤ length cb) where
  length-Verdict :
      (s s0 : ReadState)
      → Verdict b s0
          (after_length s b (read_length fh cb))
          (λ more. after_length s (b ++ more) (read_length fh (cb ++ more)))
  length-Verdict s s0 =
      Verdict-map _ _
        (λ more.
          ap (after_length s (b ++ more)) (sym (read_length-append fh cb more (omega arith))))
        (measured-Verdict s b s0 (read_length fh cb) (key_room fh cb room))

  checks-Verdict :
      (s s0 : ReadState) (need : ℕ) (e : ErrorCode)
      → (is_control fh.op ≡ true → s ≡ s0)
      → Verdict b s0
          (after_checks fh s b cb none need e)
          (λ more. after_checks fh s (b ++ more) (cb ++ more) none need e)
  unfolding after_checks
  checks-Verdict s s0 need (some e) same = rejects e refl refl refl (λ more. (refl, refl))
  checks-Verdict s s0 need none same =
      elim (Bool-cases (is_control fh.op && ltb (length cb) (need + fh.len))) [
        | inl w ↦ rw w (waits (ap (λ t. stop fh t b none) (same (and_left _ _ w))))
        | inr go ↦ rw go (
            Verdict-map _ _
              (λ more. sym (
                rw (
                  longer_false (is_control fh.op) (length cb) (length (cb ++ more)) (need + fh.len)
                    (omega (arith, length-append cb more)) go)))
              (length-Verdict s s0))
      ]

  op-Verdict :
      (s0 : ReadState) (need : ℕ) (r : ReadState × ErrorCode)
      → (is_control fh.op ≡ true → r.0 ≡ s0)
      → Verdict b s0
          (after_op fh b cb none need r)
          (λ more. after_op fh (b ++ more) (cb ++ more) none need r)
  unfolding after_op
  op-Verdict s0 need (s, some e) same = rejects e refl refl refl (λ more. (refl, refl))
  op-Verdict s0 need (s, none) same = checks-Verdict s s0 need (check_mask s.role fh) same

check_op-control :
    (op : Opcode) (fh : FrameHeader) (s : ReadState)
    → is_control op ≡ true
    → (check_op op fh s).0 ≡ s
unfolding check_op
check_op-control text fh s c = cc
check_op-control binary fh s c = cc
check_op-control cont fh s c = cc
check_op-control _ fh s c = refl

module _ (fh0 : FrameHeader) (t0 t1 : ℕ) (cb : List ℕ) (s : ReadState) where
  two-Verdict :
      need_of (read_second fh0 t1) ≤ length cb
      → Verdict
          (t0 ∷ t1 ∷ cb)
          s
          (parse_fh fh0 (t0 ∷ t1 ∷ cb) none s)
          (λ more. parse_fh fh0 (t0 ∷ t1 ∷ cb ++ more) none s)
  unfolding need_of read_second read_first
  two-Verdict h =
      let fh = read_first (read_second fh0 t1) t0 in
      let need = need_of (read_second fh0 t1) in
      subst (λ p. Verdict (t0 ∷ t1 ∷ cb) s p (λ more. parse_fh fh0 (t0 ∷ t1 ∷ cb ++ more) none s))
        (sym (parse_two fh0 t0 t1 cb none s h))
        (Verdict-map _ _
          (λ more.
            sym (parse_two fh0 t0 t1 (cb ++ more) none s (omega (arith, h, length-append cb more))))
          (op-Verdict fh (t0 ∷ t1 ∷ cb) cb h s need (check_op fh.op fh s)
            (check_op-control fh.op fh s)))

pub parse-Verdict :
    (fh0 : FrameHeader) (b : List ℕ) (s : ReadState)
    → Verdict b s (parse_fh fh0 b none s) (λ more. parse_fh fh0 (b ++ more) none s)
parse-Verdict fh0 [] s = unfold parse_fh in waits refl
parse-Verdict fh0 (t0 ∷ []) s = unfold parse_fh in waits refl
parse-Verdict fh0 (t0 ∷ t1 ∷ cb) s =
    elim (Bool-cases (ltb (length cb) (need_of (read_second fh0 t1)))) [
      | inl short ↦ unfold parse_fh in rw short (waits refl)
      | inr enough ↦ two-Verdict fh0 t0 t1 cb s (ltb_false→le _ _ enough)
    ]

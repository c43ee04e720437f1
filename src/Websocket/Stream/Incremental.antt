-- ===== src/Websocket/Stream/Incremental.antt =====
-- `parse_fh` while the bytes still arrive: it waits on a part of a frame, and its verdicts stand.
use beast_asio_standalone.Prelude.{
  ℕ, ◌≤◌, ◌≡◌, ap, sym, ◌∙◌, Bool, true, false, none, some, List, ◌∷◌, ◌++◌, append_assoc, inl, inr,
  arith, length, if◌then◌else◌, length-append, Bool-cases, All,
}
use beast_asio_standalone.Websocket.Error.{Error}
use beast_asio_standalone.Websocket.Stream.Spec.{IsAcceptable, accepted}
use beast_asio_standalone.Websocket.Stream.RoundTrip.{IsWritable, parse_fh-write}
use beast_asio_standalone.Websocket.Stream.Decode.{parse_fh-Understood}
use beast_asio_standalone.Prelude.Bits.{IsByte}
use beast_asio_standalone.Websocket.Frame.{Endian, write, FrameHeader, is_control}
use beast_asio_standalone.Websocket.Stream.{ReadState, Parsed, parse_fh}
use beast_asio_standalone.Websocket.Stream.Verdict.{accepts, waits, rejects, parse-Verdict}

-- A header that is taken is taken with more bytes behind it too.
accepted_more :
    (endian : Endian) (fh0 : FrameHeader) (b more : List ℕ) (s : ReadState)
    → All IsByte b
    → (parse_fh fh0 b none s).ret ≡ true
    → let p = parse_fh fh0 b none s in
      parse_fh fh0 (b ++ more) none s
      ≡ record { ret = true; fh = p.fh; stream = accepted s p.fh; b = p.b ++ more; ec = none }
accepted_more endian fh0 b more s bytes h =
    let p = parse_fh fh0 b none s in
    let u = parse_fh-Understood endian fh0 b none s bytes h in
    ap (λ r. parse_fh fh0 r none s)
      (ap (λ r. r ++ more) u.bytes ∙ append_assoc (write endian p.fh) p.b more)
    ∙ parse_fh-write endian fh0 p.fh (p.b ++ more) none s u.acceptable u.writable
        (λ c. omega (arith, u.whole c, length-append p.b more))

-- A verdict that `parse_fh` has given on the bytes so far, with the error code clear at first, is
-- the one that it gives once more bytes have come: a header that it has taken is taken again, and
-- the new bytes stay in the buffer; an error is the same error, and nothing was taken off.
pub parse_fh-append :
    (endian : Endian) (fh0 : FrameHeader) (b more : List ℕ) (s : ReadState)
    → All IsByte b
    → let p = parse_fh fh0 b none s in
      let q = parse_fh fh0 (b ++ more) none s in
      (p.ret ≡ true → q ≡ record p { b = p.b ++ more })
      × ((e : Error) → p.ec ≡ some e → (q.ret ≡ false) × (q.ec ≡ some e) × (p.b ≡ b))
parse_fh-append endian fh0 b more s bytes = (taken, error)
  where
    taken :
        (parse_fh fh0 b none s).ret ≡ true
        → let p = parse_fh fh0 b none s in
          parse_fh fh0 (b ++ more) none s ≡ record p { b = p.b ++ more }
    taken h =
        let p = parse_fh fh0 b none s in
        let u = parse_fh-Understood endian fh0 b none s bytes h in
        accepted_more endian fh0 b more s bytes h ∙ λ i. record {
          ret = sym h i;
          fh = p.fh;
          stream = sym u.stream i;
          b = p.b ++ more;
          ec = sym u.ec i;
        }

    error :
        (e : Error)
        → (parse_fh fh0 b none s).ec ≡ some e
        → let q = parse_fh fh0 (b ++ more) none s in
          (q.ret ≡ false) × (q.ec ≡ some e) × ((parse_fh fh0 b none s).b ≡ b)
    error e h = elim (parse-Verdict fh0 b s) [
      | accepts t ↦ cc (h, (parse_fh-Understood endian fh0 b none s bytes t).ec)
      | waits w ↦ cc (h, ap (λ (r : Parsed). r.ec) w)
      | rejects e' h0 h1 h2 h3 ↦ ((h3 more).0, (h3 more).1 ∙ sym h1 ∙ h, h2)
    ]

-- the payload that a header waits for
abbrev pub awaited : FrameHeader → ℕ
awaited fh = if is_control fh.op then fh.len else 0

module _ (endian : Endian) (fh0 fh : FrameHeader) (payload front back : List ℕ) (x : ℕ)
    (s : ReadState) (a : IsAcceptable s fh) (w : IsWritable fh)
    (exact : length payload ≡ awaited fh) (bytes : All IsByte front)
    (e : front ++ (x ∷ back) ≡ write endian fh ++ payload) where
  whole_call :
      parse_fh fh0 (front ++ (x ∷ back)) none s
      ≡ record { ret = true; fh = fh; stream = accepted s fh; b = payload; ec = none }
  whole_call =
      ap (λ b. parse_fh fh0 b none s) e
      ∙ parse_fh-write endian fh0 fh payload none s a w
          (λ c. omega (arith, exact, ap (λ t. if t then fh.len else 0) c))

  -- had the part been taken, its payload and `x` would stand in the payload of the whole
  not_taken : (parse_fh fh0 front none s).ret ≡ true → ⊥
  not_taken h =
      let p = parse_fh fh0 front none s in
      let u = parse_fh-Understood endian fh0 front none s bytes h in
      let same = sym (accepted_more endian fh0 front (x ∷ back) s bytes h) ∙ whole_call in
      too_long p (ap (λ (r : Parsed). r.fh) same) (ap (λ (r : Parsed). length r.b) same) u.whole
    where
      too_long :
          (p : Parsed)
          → p.fh ≡ fh
          → length (p.b ++ (x ∷ back)) ≡ length payload
          → (is_control p.fh.op ≡ true → p.fh.len ≤ length p.b)
          → ⊥
      too_long p same long whole = elim (Bool-cases (is_control fh.op)) [
        | inl c ↦
            let enough = whole (ap (λ (h : FrameHeader). is_control h.op) same ∙ c) in
            let len = ap (λ (h : FrameHeader). h.len) same in
            let want = ap (λ (t : Bool). if t then fh.len else 0) c in
            omega (arith, long, exact, enough, len, want, length-append p.b (x ∷ back))
        | inr c ↦
            let want = ap (λ (t : Bool). if t then fh.len else 0) c in
            omega (arith, long, exact, want, length-append p.b (x ∷ back))
      ]

  -- While a part of a frame is there whose header keeps the rules that a stream looks at,
  -- `parse_fh` asks for more: it reports no error, takes nothing off the buffer and leaves the
  -- stream alone. The frame is the header and, for a control frame, its payload.
  pub parse_fh_prefix :
      let p = parse_fh fh0 front none s in
      (p.ret ≡ false) × (p.ec ≡ none) × (p.b ≡ front) × (p.stream ≡ s)
  parse_fh_prefix = elim (parse-Verdict fh0 front s) [
    | accepts t ↦ absurd (not_taken t)
    | waits v ↦ (
      ap (λ (r : Parsed). r.ret) v,
      ap (λ (r : Parsed). r.ec) v,
      ap (λ (r : Parsed). r.b) v,
      ap (λ (r : Parsed). r.stream) v,
    )
    | rejects err h0 h1 h2 h3 ↦ cc ((h3 (x ∷ back)).0, ap (λ (r : Parsed). r.ret) whole_call)
  ]

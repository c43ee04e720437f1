-- ===== src/Websocket/Utf8/Scan.antt =====
-- `write` on a checker with nothing saved: what is left behind when it returns `true`, and that it
-- does on every text.
use beast_asio_standalone.Prelude.{
  ℕ, zero, suc, ◌+◌, ◌-◌, ◌*◌, ◌/◌, ◌≤◌, ◌<◌, ◌≡◌, refl, ap, sym, ◌∙◌, Bool, true, false, Option,
  none, some, List, [], ◌∷◌, ◌++◌, append-nil, leb, ◌==◌, arith, inl, inr, All, All-back, length,
  length-append, Bool-cases, le→leb, get_or, leb_false→lt, bit_and, ◌!=◌, ◌||◌,
}
use mathlib.Core.Path.{subst}
use native.Mathlib.Nat.{le_refl}
use beast_asio_standalone.Prelude.Bits.{IsByte}
use beast_asio_standalone.Websocket.Utf8.{
  Utf8Checker, valid, needed, valid_loop, tail, slow, align_loop, fast_loop, scan, word_high,
}
use beast_asio_standalone.Websocket.Utf8.Spec.{IsCodePoint, IsUtf8}
use beast_asio_standalone.Websocket.Utf8.Masks.{high_bit}
use beast_asio_standalone.Websocket.Utf8.Step.{Passed, valid-Passed, needed-length}
use beast_asio_standalone.Websocket.Utf8.Loops.{
  IsUtf8-one, Scanned, Scanned-refl, Scanned-trans, Scanned-Passed, Scanned-bytes, Scanned-IsUtf8,
  IsUtf8-Advanced, Answer, answer, point_size, valid_loop-Scanned, valid_loop-Left,
}

-- What a checker that has not refused anything holds: nothing, or the begin of a code point.
pub data IsPartial (c : Utf8Checker) : Type 0 where
  clear : c.need ≡ 0 → c.cp ≡ [] → IsPartial c
  begun :
      (x : ℕ) (s : List ℕ)
      → c.cp ≡ x ∷ s
      → 0 < c.need
      → needed x ≡ length c.cp + c.need
      → IsPartial c

-- the text `p` has gone through, save for what the checker has saved
pub record Ends (p : List ℕ) (c : Utf8Checker) : Type 0 where
  pub scanned : Scanned p c.cp
  pub partial : IsPartial c

pub Ends-Scanned : (p q : List ℕ) (c : Utf8Checker) → Scanned p q → Ends q c → Ends p c
Ends-Scanned p q c s e = record {
  scanned = Scanned-trans p q c.cp s e.scanned;
  partial = e.partial;
}

abbrev after_loop : Utf8Checker → Option (List ℕ) → Bool × Utf8Checker
after_loop c r = elim r [ none ↦ (false, c) | some q ↦ tail (length q) c q ]

Passed-length : (p q : List ℕ) → Passed p q → length q < length p
Passed-length p q s = omega (
  arith,
  ap (λ (t : List ℕ). length t) s.split,
  length-append s.point q,
  point_size s.point [] s.point s.is_point (sym (append-nil s.point)),
)

module _ (c : Utf8Checker) (clean : c.need ≡ 0) (empty : c.cp ≡ []) where
  Ends-none : Ends [] c
  Ends-none = record {
    scanned = subst (Scanned []) (sym empty) (Scanned-refl []);
    partial = IsPartial.clear clean empty;
  }

  Ends-saved :
      (x : ℕ) (p : List ℕ)
      → leb (needed x) (length (x ∷ p)) ≡ false
      → Ends (x ∷ p) (record { need = needed x - length (x ∷ p); cp = c.cp ++ (x ∷ p) })
  Ends-saved x p part =
      let cp = ap (λ t. t ++ (x ∷ p)) empty in
      let short = leb_false→lt (needed x) (length (x ∷ p)) part in
      record {
        scanned = subst (Scanned (x ∷ p)) (sym cp) (Scanned-refl (x ∷ p));
        partial =
            IsPartial.begun x p cp (omega (arith, short))
              (omega (arith, short, ap (λ (t : List ℕ). length t) cp));
      }

  tail-Ends :
      (n : ℕ) (p : List ℕ) (c' : Utf8Checker)
      → length p ≤ n
      → All IsByte p
      → tail n c p ≡ (true, c')
      → Ends p c'
  unfolding tail
  tail-Ends zero [] c' le bytes h = subst (Ends []) (ground arith) Ends-none
  tail-Ends zero (x ∷ p) c' le bytes h = absurd (omega arith)
  tail-Ends (suc n) [] c' le bytes h = subst (Ends []) (ground arith) Ends-none
  tail-Ends (suc n) (x ∷ p) c' le bytes h = elim (Bool-cases (needed x == 0)) [
    | inl bad ↦ absurd (cc (rw bad at h))
    | inr some_need ↦ elim (Bool-cases (leb (needed x) (length (x ∷ p)))) [
      | inl whole ↦ elim (answer (valid (x ∷ p))) [
        | Answer.refused e ↦ absurd (cc (rw (some_need, whole, e) at h))
        | Answer.passed q e ↦
            let s = Scanned-Passed (x ∷ p) q (valid-Passed x p q bytes e) in
            Ends-Scanned (x ∷ p) q c' s (
              tail-Ends n q c'
                (omega (arith, le, Passed-length (x ∷ p) q (valid-Passed x p q bytes e)))
                (Scanned-bytes (x ∷ p) q s bytes) (rw (some_need, whole, e) at h))
      ]
      | inr part ↦
          subst (Ends (x ∷ p)) (ap (λ (r : Bool × Utf8Checker). r.1) (rw (some_need, part) at h))
            (Ends-saved x p part)
    ]
  ]

  slow-Ends : (p : List ℕ) (c' : Utf8Checker) → All IsByte p → slow c p ≡ (true, c') → Ends p c'
  unfolding slow
  slow-Ends p c' bytes h = elim (answer (valid_loop (length p) p)) [
    | Answer.refused e ↦ absurd (cc (ap (after_loop c) (sym e) ∙ h))
    | Answer.passed q e ↦
        let s = valid_loop-Scanned (length p) p q bytes e in
        Ends-Scanned p q c' s (
          tail-Ends (length q) q c' (le_refl _) (Scanned-bytes p q s bytes)
            (ap (after_loop c) (sym e) ∙ h))
  ]

needed-Advanced :
    (x : ℕ) (p c rest : List ℕ)
    → IsCodePoint c
    → x ∷ p ≡ c ++ rest
    → ((needed x == 0) ≡ false) × (leb (needed x) (length (x ∷ p)) ≡ true)
needed-Advanced x p [] rest k e = absurd k
needed-Advanced x p (y ∷ c) rest k e =
    let first = ap (λ t. needed (get_or t 0 0)) e in
    let size = ap (λ (t : List ℕ). length t) e in
    (
      ground (arith, first, needed-length y c k),
      le→leb _ _ (omega (arith, first, needed-length y c k, size, length-append (y ∷ c) rest)),
    )

tail_text :
    (n : ℕ) (c : Utf8Checker) (p : List ℕ) → All IsByte p → IsUtf8 p → tail n c p ≡ (true, c)
unfolding tail
tail_text zero c p bytes u = refl
tail_text (suc n) c [] bytes u = refl
tail_text (suc n) c (x ∷ p) bytes u =
    let a = IsUtf8-Advanced (x ∷ p) (omega arith) bytes u in
    let behind = All-back IsByte a.point a.rest (subst (All IsByte) a.split bytes) in
    let size = needed-Advanced x p a.point a.rest a.is_point a.split in
    rw (size.0, size.1, a.passes) (tail_text n c a.rest behind a.utf8)

slow_text : (c : Utf8Checker) (p : List ℕ) → All IsByte p → IsUtf8 p → slow c p ≡ (true, c)
unfolding slow
slow_text c p bytes u =
    let l = valid_loop-Left (length p) p bytes u in
    let s = valid_loop-Scanned (length p) p l.left bytes l.result in
    ap (after_loop c) l.result
    ∙ (tail_text (length l.left) c l.left (Scanned-bytes p l.left s bytes) l.utf8)

Scanned-ascii : (xs q : List ℕ) → All (λ x. x < 128) xs → Scanned (xs ++ q) q
Scanned-ascii [] q h = Scanned-refl q
Scanned-ascii (x ∷ xs) q h =
    Scanned-trans (x ∷ xs ++ q) (xs ++ q) q
      (record { whole = x ∷ []; utf8 = IsUtf8-one (x ∷ []) h.0; split = refl })
      (Scanned-ascii xs q h.1)

low : (x : ℕ) → IsByte x → (bit_and x 0x80 != 0) ≡ false → x < 128
low x b h = ground (arith, high_bit x b)

align_loop-Scanned : (n : ℕ) (p : List ℕ) → All IsByte p → Scanned p (align_loop n p).1
unfolding align_loop
align_loop-Scanned zero p bytes = Scanned-refl p
align_loop-Scanned (suc n) [] bytes = Scanned-refl []
align_loop-Scanned (suc n) (x ∷ p) bytes = elim (Bool-cases (bit_and x 0x80 != 0)) [
  | inl high ↦ rw high (Scanned-refl (x ∷ p))
  | inr not_high ↦
      let rest = align_loop-Scanned n p bytes.1 in
      rw not_high (
        Scanned-trans (x ∷ p) p (align_loop n p).1
          (Scanned-ascii (x ∷ []) p (low x bytes.0 not_high, tt)) rest)
]

or_false : (x y : Bool) → (x || y) ≡ false → (x ≡ false) × (y ≡ false)
or_false x y h = ground arith

word_low :
    (a b c d e f g h : ℕ) (p : List ℕ)
    → All IsByte (a ∷ b ∷ c ∷ d ∷ e ∷ f ∷ g ∷ h ∷ p)
    → word_high a b c d e f g h ≡ false
    → All (λ x. x < 128) (a ∷ b ∷ c ∷ d ∷ e ∷ f ∷ g ∷ h ∷ [])
word_low a b c d e f g h p (ha, (hb, (hc, (hd, (he, (hf, (hg, (hh, hp)))))))) k =
    let kh = or_false _ _ k in
    let kg = or_false _ _ kh.0 in
    let kf = or_false _ _ kg.0 in
    let ke = or_false _ _ kf.0 in
    let kd = or_false _ _ ke.0 in
    let kc = or_false _ _ kd.0 in
    let kb = or_false _ _ kc.0 in
    (
      low a ha kb.0,
      (
        low b hb kb.1,
        (
          low c hc kc.1,
          (low d hd kd.1, (low e he ke.1, (low f hf kf.1, (low g hg kg.1, (low h hh kh.1, tt))))),
        ),
      ),
    )

fast_loop-Scanned : (p : List ℕ) → All IsByte p → Scanned p (fast_loop p).1
unfolding fast_loop
fast_loop-Scanned (a ∷ b ∷ c ∷ d ∷ e ∷ f ∷ g ∷ h ∷ p) bytes =
    elim (Bool-cases (word_high a b c d e f g h)) [
      | inl high ↦ rw high (Scanned-refl (a ∷ b ∷ c ∷ d ∷ e ∷ f ∷ g ∷ h ∷ p))
      | inr ascii ↦
          let rest = fast_loop-Scanned p bytes.1.1.1.1.1.1.1.1 in
          rw ascii (
            Scanned-trans (a ∷ b ∷ c ∷ d ∷ e ∷ f ∷ g ∷ h ∷ p) p (fast_loop p).1
              (Scanned-ascii (a ∷ b ∷ c ∷ d ∷ e ∷ f ∷ g ∷ h ∷ []) p
                (word_low a b c d e f g h p bytes ascii))
              rest)
    ]
fast_loop-Scanned p bytes = Scanned-refl p

record Slowed (c : Utf8Checker) (address : ℕ) (p : List ℕ) : Type 0 where
  left : List ℕ
  scanned : Scanned p left
  result : scan c address p ≡ slow c left

scan-Slowed : (c : Utf8Checker) (address : ℕ) (p : List ℕ) → All IsByte p → Slowed c address p
unfolding scan
scan-Slowed c address p bytes =
    let n = (address + 7) / 8 * 8 - address in
    let q = (align_loop n p).1 in
    let s = align_loop-Scanned n p bytes in
    elim (Bool-cases (leb (length p) 8)) [
      | inl few ↦ record { left = p; scanned = Scanned-refl p; result = rw few refl }
      | inr many ↦ elim (Bool-cases (align_loop n p).0) [
        | inl stopped ↦ record { left = q; scanned = s; result = rw (many, stopped) refl }
        | inr aligned ↦ record {
          left = (fast_loop q).1;
          scanned =
              Scanned-trans p q (fast_loop q).1 s (fast_loop-Scanned q (Scanned-bytes p q s bytes));
          result = rw (many, aligned) refl;
        }
      ]
    ]

pub scan-Ends :
    (c c' : Utf8Checker) (address : ℕ) (p : List ℕ)
    → c.need ≡ 0
    → c.cp ≡ []
    → All IsByte p
    → scan c address p ≡ (true, c')
    → Ends p c'
scan-Ends c c' address p clean empty bytes h =
    let s = scan-Slowed c address p bytes in
    Ends-Scanned p s.left c' s.scanned (
      slow-Ends c clean empty s.left c' (Scanned-bytes p s.left s.scanned bytes) (sym s.result ∙ h))

pub scan_text :
    (c : Utf8Checker) (address : ℕ) (p : List ℕ)
    → All IsByte p
    → IsUtf8 p
    → scan c address p ≡ (true, c)
scan_text c address p bytes u =
    let s = scan-Slowed c address p bytes in
    s.result
    ∙ slow_text c s.left (Scanned-bytes p s.left s.scanned bytes)
        (Scanned-IsUtf8 p s.left s.scanned bytes u)

-- ===== src/Core/Base64/Size.antt =====
-- How much `decode` writes, against the room that `base64_decode` makes for it.
use beast_asio_standalone.Prelude.{
  ℕ, ◌+◌, ◌-◌, ◌*◌, ◌/◌, ◌%◌, ◌≤◌, ◌<◌, ◌≡◌, refl, ap, ◌∙◌, Option, none, some, List, [], ◌∷◌, map,
  ◌==◌, arith, length, length-append, All, Bool-cases, inl, inr,
}
use beast_asio_standalone.Core.Base64.{
  tab, pad, inverse, decoded_size, push, flush, decode_loop, decode,
}
use beast_asio_standalone.Core.Base64.RoundTrip.{digit_read}

-- the bytes that `n` digits make
abbrev pub octets_of : ℕ → ℕ
octets_of n = n / 4 * 3 + (n % 4 - 1)

length-flush : (c4 : List ℕ) → length c4 < 4 → length (flush c4) ≡ length c4 - 1
unfolding flush
length-flush [] h = omega arith
length-flush (a ∷ []) h = omega arith
length-flush (a ∷ b ∷ []) h = omega arith
length-flush (a ∷ b ∷ c ∷ []) h = omega arith
length-flush (a ∷ b ∷ c ∷ d ∷ more) h = absurd (omega arith)

-- what is written and what is left in `c4` make up the digits read
length-push :
    (c4 : List ℕ) (v : ℕ)
    → length c4 < 4
    → (length (push c4 v).1 < 4)
      × ((n : ℕ)
          → length (push c4 v).0 + octets_of (length (push c4 v).1 + n)
            ≡ octets_of (length c4 + (n + 1)))
unfolding push
length-push [] v h = (omega arith, λ n. omega arith)
length-push (a ∷ []) v h = (omega arith, λ n. omega arith)
length-push (a ∷ b ∷ []) v h = (omega arith, λ n. omega arith)
length-push (a ∷ b ∷ c ∷ []) v h = (omega arith, λ n. omega arith)
length-push (a ∷ b ∷ c ∷ d ∷ more) v h = absurd (omega arith)

data Lookup (r : Option ℕ) : Type 0 where
  no_digit : r ≡ none → Lookup r
  digit : (v : ℕ) → r ≡ some v → Lookup r

looked_up : (r : Option ℕ) → Lookup r
looked_up none = no_digit refl
looked_up (some v) = digit v refl

-- what a run of the loop writes and reads
abbrev Measured : List ℕ → List ℕ → List ℕ × ℕ → Type 0
Measured src c4 r = (length r.0 ≡ octets_of (length c4 + r.1)) × (r.1 ≤ length src)

stopped : (src c4 : List ℕ) → length c4 < 4 → Measured src c4 (flush c4, 0)
stopped src c4 h = (omega (arith, length-flush c4 h), omega arith)

decode_loop-Measured : (src c4 : List ℕ) → length c4 < 4 → Measured src c4 (decode_loop src c4)
unfolding decode_loop
decode_loop-Measured [] c4 h = stopped [] c4 h
decode_loop-Measured (x ∷ src) c4 h = elim (Bool-cases (x == pad)) [
  | inl p ↦ rw p (stopped (x ∷ src) c4 h)
  | inr not_pad ↦ elim (looked_up (inverse x)) [
    | no_digit e ↦ rw (not_pad, e) (stopped (x ∷ src) c4 h)
    | digit v e ↦
        let s = length-push c4 v h in
        let m = decode_loop-Measured src (push c4 v).1 s.0 in
        rw (not_pad, e)
          (
            omega (
              arith,
              m.0,
              s.1 (decode_loop src (push c4 v).1).1,
              length-append (push c4 v).0 (decode_loop src (push c4 v).1).0,
            ),
            omega (arith, m.1),
          )
  ]
]

-- `decode` reads no more than it is given, and writes three bytes for four digits that it reads, and
-- one byte less than the digits that are left; so what it writes fits in `decoded_size` if the size
-- of its input is a multiple of four.
pub decode_fits :
    (src : List ℕ)
    → let r = decode src in
      (r.1 ≤ length src)
      × (length r.0 ≡ octets_of r.1)
      × (length src % 4 ≡ 0 → length r.0 ≤ decoded_size (length src))
unfolding decode
decode_fits src =
    let m = decode_loop-Measured src [] (omega arith) in
    (m.1, omega (arith, m.0), λ h. omega (arith, m.0, m.1))

digits_read : (vs c4 : List ℕ) → All (λ v. v < 64) vs → (decode_loop (map tab vs) c4).1 ≡ length vs
digits_read [] c4 h = unfold decode_loop in refl
digits_read (v ∷ vs) c4 h =
    ap (λ (r : List ℕ × ℕ). r.1) (digit_read v (map tab vs) c4 h.0)
    ∙ omega (arith, digits_read vs (push c4 v).1 h.1)

-- Characters of the alphabet whose number is two or three more than a multiple of four are decoded
-- into more bytes than `decoded_size` has room for.
pub decode_overrun :
    (vs : List ℕ)
    → All (λ v. v < 64) vs
    → 2 ≤ length vs % 4
    → decoded_size (length vs) < length (decode (map tab vs)).0
unfolding decode
decode_overrun vs digits h =
    let m = decode_loop-Measured (map tab vs) [] (omega arith) in
    omega (arith, m.0, digits_read vs [] digits)

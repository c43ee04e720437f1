-- ===== src/Core/Base64/RoundTrip.antt =====
-- Base64 forth and back.
use beast_asio_standalone.Prelude.{
  ℕ, suc, ◌+◌, ◌*◌, ◌/◌, ◌<◌, ◌≡◌, refl, ap, sym, ◌∙◌, bit_and, List, [], ◌∷◌, ◌++◌, arith, length,
  All,
}
use beast_asio_standalone.Prelude.Bits.{IsByte}
use beast_asio_standalone.Core.Base64.{
  tab, pad, encoded_size, encode, first_octet, second_octet, third_octet, push, flush, decode_loop,
  decode,
}
use beast_asio_standalone.Core.Base64.Digits.{
  inverse-tab, high_six, low_two, high_four, high_two, low_four, low_six, mid_two, mid_four,
}

-- the digits of three bytes
abbrev digit0 : ℕ → ℕ
digit0 a = bit_and a 0xfc / 4

abbrev digit1 : ℕ → ℕ → ℕ
digit1 a b = bit_and a 0x03 * 16 + bit_and b 0xf0 / 16

abbrev digit2 : ℕ → ℕ → ℕ
digit2 b c = bit_and c 0xc0 / 64 + bit_and b 0x0f * 4

abbrev digit3 : ℕ → ℕ
digit3 c = bit_and c 0x3f

module _ (a b c : ℕ) (ha : IsByte a) (hb : IsByte b) (hc : IsByte c) where
  digit0_small : digit0 a < 64
  digit0_small = omega (arith, high_six a ha)

  digit1_small : digit1 a b < 64
  digit1_small = omega (arith, low_two a ha, high_four b hb)

  digit2_small : digit2 b c < 64
  digit2_small = omega (arith, high_two c hc, low_four b hb)

  digit3_small : digit3 c < 64
  digit3_small = omega (arith, low_six c hc)

  first_back : first_octet (digit0 a) (digit1 a b) ≡ a
  first_back = omega (
    arith,
    high_six a ha,
    low_two a ha,
    high_four b hb,
    mid_two (digit1 a b) (omega (arith, digit1_small)),
  )

  second_back : second_octet (digit1 a b) (digit2 b c) ≡ b
  second_back = omega (
    arith,
    low_two a ha,
    high_four b hb,
    high_two c hc,
    low_four b hb,
    low_four (digit1 a b) (omega (arith, digit1_small)),
    mid_four (digit2 b c) (omega (arith, digit2_small)),
  )

  third_back : third_octet (digit2 b c) (digit3 c) ≡ c
  third_back = omega (
    arith,
    high_two c hc,
    low_four b hb,
    low_six c hc,
    low_two (digit2 b c) (omega (arith, digit2_small)),
  )

-- one digit is read
pub digit_read :
    (v : ℕ) (src c4 : List ℕ)
    → v < 64
    → decode_loop (tab v ∷ src) c4
      ≡ ((push c4 v).0 ++ (decode_loop src (push c4 v).1).0, (decode_loop src (push c4 v).1).1 + 1)
unfolding decode_loop
digit_read v src c4 h = rw ((inverse-tab v h).1, (inverse-tab v h).0) refl

pad_read : (src c4 : List ℕ) → decode_loop (pad ∷ src) c4 ≡ (flush c4, 0)
unfolding decode_loop
pad_read src c4 = refl

abbrev then_read : List ℕ → List ℕ × ℕ → List ℕ × ℕ
then_read out r = (out ++ r.0, r.1 + 1)

module _ (v0 v1 v2 v3 : ℕ) (h0 : v0 < 64) (h1 : v1 < 64) (h2 : v2 < 64) (h3 : v3 < 64) where
  block_read :
      (src : List ℕ)
      → decode_loop (tab v0 ∷ tab v1 ∷ tab v2 ∷ tab v3 ∷ src) [] ≡ (
        first_octet v0 v1 ∷ second_octet v1 v2 ∷ third_octet v2 v3 ∷ (decode_loop src []).0,
        (decode_loop src []).1 + 1 + 1 + 1 + 1,
      )
  unfolding push
  block_read src =
      digit_read v0 (tab v1 ∷ tab v2 ∷ tab v3 ∷ src) [] h0
      ∙ ap (then_read []) (
          digit_read v1 (tab v2 ∷ tab v3 ∷ src) (v0 ∷ []) h1
          ∙ ap (then_read []) (
              digit_read v2 (tab v3 ∷ src) (v0 ∷ v1 ∷ []) h2
              ∙ ap (then_read []) (digit_read v3 src (v0 ∷ v1 ∷ v2 ∷ []) h3)))

  three_read :
      decode_loop (tab v0 ∷ tab v1 ∷ tab v2 ∷ pad ∷ []) []
      ≡ (first_octet v0 v1 ∷ second_octet v1 v2 ∷ [], 3)
  unfolding push flush
  three_read =
      digit_read v0 (tab v1 ∷ tab v2 ∷ pad ∷ []) [] h0
      ∙ ap (then_read []) (
          digit_read v1 (tab v2 ∷ pad ∷ []) (v0 ∷ []) h1
          ∙ ap (then_read []) (
              digit_read v2 (pad ∷ []) (v0 ∷ v1 ∷ []) h2
              ∙ ap (then_read []) (pad_read [] (v0 ∷ v1 ∷ v2 ∷ []))))

  two_read : decode_loop (tab v0 ∷ tab v1 ∷ pad ∷ pad ∷ []) [] ≡ (first_octet v0 v1 ∷ [], 2)
  unfolding push flush
  two_read =
      digit_read v0 (tab v1 ∷ pad ∷ pad ∷ []) [] h0
      ∙ ap (then_read []) (
          digit_read v1 (pad ∷ pad ∷ []) (v0 ∷ []) h1
          ∙ ap (then_read []) (pad_read (pad ∷ []) (v0 ∷ v1 ∷ [])))

-- the characters of an encoding that are no padding
abbrev pub digits_of : ℕ → ℕ
digits_of n = (4 * n + 2) / 3

more_digits : (n : ℕ) → digits_of n + 1 + 1 + 1 + 1 ≡ digits_of (suc (suc (suc n)))
more_digits n = omega arith

no_third : (b : ℕ) → digit2 b 0 ≡ bit_and b 0x0f * 4
no_third b = omega arith

no_second : (a : ℕ) → digit1 a 0 ≡ bit_and a 0x03 * 16
no_second a = omega arith

-- For any bytes, `decode` gives back what `encode` was given, and has read the digits of the
-- encoding when it stops; the encoding has the size that `encoded_size` announces.
pub decode-encode :
    (xs : List ℕ)
    → All IsByte xs
    → (decode (encode xs) ≡ (xs, digits_of (length xs)))
      × (length (encode xs) ≡ encoded_size (length xs))
unfolding decode encode
decode-encode (a ∷ b ∷ c ∷ xs) (ha, (hb, (hc, hs))) = (
  block_read (digit0 a) (digit1 a b) (digit2 b c) (digit3 c) (digit0_small a b c ha hb hc)
        (digit1_small a b c ha hb hc) (digit2_small a b c ha hb hc) (digit3_small a b c ha hb hc)
        (encode xs)
      ∙ ap
          (λ (r : List ℕ × ℕ). (
            first_octet (digit0 a) (digit1 a b)
                ∷ second_octet (digit1 a b) (digit2 b c)
                ∷ third_octet (digit2 b c) (digit3 c)
                ∷ r.0,
            r.1 + 1 + 1 + 1 + 1,
          ))
          (decode-encode xs hs).0
      ∙ λ i. (
        first_back a b c ha hb hc i
            ∷ second_back a b c ha hb hc i
            ∷ third_back a b c ha hb hc i
            ∷ xs,
        more_digits (length xs) i,
      ),
  omega (arith, (decode-encode xs hs).1),
)
decode-encode (a ∷ b ∷ []) (ha, (hb, hs)) =
    let z : IsByte 0 = omega arith in
    (
      ap (λ d. decode_loop (tab (digit0 a) ∷ tab (digit1 a b) ∷ tab d ∷ pad ∷ []) [])
            (sym (no_third b))
          ∙ three_read (digit0 a) (digit1 a b) (digit2 b 0) 0 (digit0_small a b 0 ha hb z)
              (digit1_small a b 0 ha hb z) (digit2_small a b 0 ha hb z) (omega arith)
          ∙ λ i. (first_back a b 0 ha hb z i ∷ second_back a b 0 ha hb z i ∷ [], 3),
      omega arith,
    )
decode-encode (a ∷ []) (ha, hs) =
    let z : IsByte 0 = omega arith in
    (
      ap (λ d. decode_loop (tab (digit0 a) ∷ tab d ∷ pad ∷ pad ∷ []) []) (sym (no_second a))
          ∙ two_read (digit0 a) (digit1 a 0) 0 0 (digit0_small a 0 0 ha z z)
              (digit1_small a 0 0 ha z z) (omega arith) (omega arith)
          ∙ λ i. (first_back a 0 0 ha z z i ∷ [], 2),
      omega arith,
    )
decode-encode [] hs = (unfold decode_loop flush in refl, omega arith)

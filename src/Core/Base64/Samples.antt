-- ===== src/Core/Base64/Samples.antt =====
-- Runs of base64 on short texts.
use beast_asio_standalone.Prelude.{ℕ, ◌≤◌, ◌<◌, ◌%◌, ◌≡◌, refl, List, [], ◌∷◌, map, arith, length}
use beast_asio_standalone.Core.Base64.{tab, encoded_size, decoded_size, encode, decode}
use beast_asio_standalone.Core.Base64.RoundTrip.{decode-encode}
use beast_asio_standalone.Core.Base64.Size.{octets_of, decode_fits, decode_overrun}

-- `Beas`, and its encoding `QmVhcw==`
abbrev plain : List ℕ
plain = 66 ∷ 101 ∷ 97 ∷ 115 ∷ []

encoded : encode plain ≡ 81 ∷ 109 ∷ 86 ∷ 104 ∷ 99 ∷ 119 ∷ 61 ∷ 61 ∷ []
unfolding encode
encoded = refl

decode-encode_example :
    (decode (encode plain) ≡ (plain, 6)) × (length (encode plain) ≡ encoded_size 4)
decode-encode_example =
    decode-encode plain (omega arith, (omega arith, (omega arith, (omega arith, tt))))

abbrev padded : List ℕ
padded = 81 ∷ 81 ∷ 61 ∷ 61 ∷ []

decode_fits_example :
    let r = decode padded in
    (r.1 ≤ 4) × (length r.0 ≡ octets_of r.1) × (4 % 4 ≡ 0 → length r.0 ≤ decoded_size 4)
decode_fits_example = decode_fits padded

-- `QUI` with no padding
decode_overrun_example : decoded_size 3 < length (decode (map tab (16 ∷ 20 ∷ 8 ∷ []))).0
decode_overrun_example =
    decode_overrun (16 ∷ 20 ∷ 8 ∷ []) (omega arith, (omega arith, (omega arith, tt))) (omega arith)

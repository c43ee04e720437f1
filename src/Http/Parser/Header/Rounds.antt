-- ===== src/Http/Parser/Header/Rounds.antt =====
-- The loop of `parse_fields` without its fuel.
use beast_asio_standalone.Prelude.{
  ℕ, zero, suc, ◌<◌, ◌≡◌, refl, ap, none, some, List, [], ◌∷◌, ◌++◌, ◌==◌, ◌!=◌, arith, length,
  if◌then◌else◌,
}
use beast_asio_standalone.Http.Error.{ErrorCode, bad_line_ending}
use beast_asio_standalone.Http.Field.{FieldResult, field, fault, length_error, parse_field}
use beast_asio_standalone.Http.Field.Rest.{Leaves, parse_field-Leaves}
use beast_asio_standalone.Http.Names.{string_to_field}
use beast_asio_standalone.Http.Parser.{BasicParser, Impl, Run, ran}
use beast_asio_standalone.Http.Parser.Header.Fields.{
  do_field, field_done, field_checked, field_read, field_round, fields_loop, parse_fields,
}

module _ {H : Type 0} (impl : Impl H) where
  -- two loops that go on in the same way on fewer than `n` characters
  abbrev Same : ℕ → (BasicParser → H → List ℕ → Run H) → (BasicParser → H → List ℕ → Run H) → Type 0
  Same n again again' =
      (p : BasicParser) (h : H) (s : List ℕ) → length s < n → again p h s ≡ again' p h s

  module _ (n : ℕ) (again again' : BasicParser → H → List ℕ → Run H)
      (same : Same n again again') where
    field_done-Same :
        (p : BasicParser) (it rest : List ℕ) (r : H × ErrorCode)
        → length rest < n
        → field_done impl again p it rest r ≡ field_done impl again' p it rest r
    field_done-Same p it rest (h, none) less = same p h rest less
    field_done-Same p it rest (h, some e) less = refl

    field_checked-Same :
        (h : H) (it rest : List ℕ) (f : ℕ) (name value : List ℕ) (r : BasicParser × ErrorCode)
        → length rest < n
        → field_checked impl again h it rest f name value r
          ≡ field_checked impl again' h it rest f name value r
    field_checked-Same h it rest f name value (p, some e) less = refl
    field_checked-Same h it rest f name value (p, none) less =
        field_done-Same p it rest (impl.on_field f name value h) less

    field_read-Same :
        (p : BasicParser) (h : H) (it : List ℕ) (r : FieldResult)
        → Leaves r n
        → field_read impl again p h it r ≡ field_read impl again' p h it r
    field_read-Same p h it length_error less = refl
    field_read-Same p h it (fault e) less = refl
    field_read-Same p h it (field name value beyond rest) less =
        field_checked-Same h it rest (string_to_field name) name value
          (do_field p (string_to_field name) value beyond) less

  field_round-Same :
      (again again' : BasicParser → H → List ℕ → Run H) (behind : List ℕ) (p : BasicParser) (h : H)
      (s : List ℕ)
      → Same (length s) again again'
      → field_round impl again behind p h s ≡ field_round impl again' behind p h s
  field_round-Same again again' behind p h [] same = refl
  field_round-Same again again' behind p h (c ∷ []) same = refl
  field_round-Same again again' behind p h (c ∷ d ∷ s) same =
      ap
        (λ (r : Run H).
          if c == b'\r'
          then ran p h (s ++ behind) (if d != b'\n' then some bad_line_ending else none)
          else r)
        (field_read-Same (length (c ∷ d ∷ s)) again again' same p h (c ∷ d ∷ s ++ behind)
          (parse_field (c ∷ d ∷ s)) (parse_field-Leaves (c ∷ d ∷ s)))

  -- More fuel than there are characters makes no difference.
  fields_loop-enough :
      (fuel fuel' : ℕ) (behind : List ℕ) (p : BasicParser) (h : H) (s : List ℕ)
      → length s < fuel
      → length s < fuel'
      → fields_loop impl fuel behind p h s ≡ fields_loop impl fuel' behind p h s
  unfolding fields_loop
  fields_loop-enough zero fuel' behind p h s k l = absurd (omega arith)
  fields_loop-enough (suc fuel) zero behind p h s k l = absurd (omega arith)
  fields_loop-enough (suc fuel) (suc fuel') behind p h s k l =
      field_round-Same (fields_loop impl fuel behind) (fields_loop impl fuel' behind) behind p h s
        (λ q g t less. fields_loop-enough fuel fuel' behind q g t (omega arith) (omega arith))

  -- `parse_fields` is a round of the loop, and then `parse_fields` on what is left.
  parse_fields-round :
      (behind : List ℕ) (p : BasicParser) (h : H) (s : List ℕ)
      → parse_fields impl p h s behind
        ≡ field_round impl (λ q g t. parse_fields impl q g t behind) behind p h s
  unfolding parse_fields fields_loop
  parse_fields-round behind p h s =
      field_round-Same (fields_loop impl (length s) behind)
        (λ q g t. parse_fields impl q g t behind) behind p h s
        (λ q g t less.
          fields_loop-enough (length s) (suc (length t)) behind q g t less (omega arith))

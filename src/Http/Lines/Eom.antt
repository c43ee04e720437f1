-- ===== src/Http/Lines/Eom.antt =====
-- `find_eom` against the search that tries every place.
use beast_asio_standalone.Prelude.{
  ℕ, zero, suc, ◌<◌, ◌≡◌, ◌∙◌, refl, ap, sym, true, false, ◌&&◌, Option, none, some, List, [], ◌∷◌,
  ◌==◌, ◌!=◌, if◌then◌else◌, length, arith, Bool-cases, inl, inr,
}
use beast_asio_standalone.Http.Lines.{Search, ended, find_eom_loop, find_eom, result}

-- what stands behind a "\r\n\r\n" at the start
abbrev pub behind_eom : List ℕ → Option (List ℕ)
behind_eom (a ∷ b ∷ c ∷ d ∷ s) =
    if a == b'\r' && b == b'\n' && c == b'\r' && d == b'\n' then some s else none
behind_eom s = none

-- the first place where there is one
unfoldable pub first_eom : List ℕ → Option (List ℕ)
first_eom [] = none
first_eom (c ∷ s) =
    let later = first_eom s in elim (behind_eom (c ∷ s)) [ some rest ↦ some rest | none ↦ later ]

-- Where there is none, by one of the four characters.
by_fourth : (a b c d : ℕ) (s : List ℕ) → (d != b'\n') ≡ true → behind_eom (a ∷ b ∷ c ∷ d ∷ s) ≡ none
by_fourth a b c d s h = ground arith

by_third : (a b c : ℕ) (s : List ℕ) → (c != b'\r') ≡ true → behind_eom (a ∷ b ∷ c ∷ s) ≡ none
by_third a b c [] h = refl
by_third a b c (d ∷ s) h = ground arith

by_second : (a b : ℕ) (s : List ℕ) → (b != b'\n') ≡ true → behind_eom (a ∷ b ∷ s) ≡ none
by_second a b [] h = refl
by_second a b (c ∷ []) h = refl
by_second a b (c ∷ d ∷ s) h = ground arith

by_first : (a : ℕ) (s : List ℕ) → (a != b'\r') ≡ true → behind_eom (a ∷ s) ≡ none
by_first a [] h = refl
by_first a (b ∷ []) h = refl
by_first a (b ∷ c ∷ []) h = refl
by_first a (b ∷ c ∷ d ∷ s) h = ground arith

later : (c : ℕ) (s : List ℕ) → behind_eom (c ∷ s) ≡ none → first_eom (c ∷ s) ≡ first_eom s
unfolding first_eom
later c s h = rw (first_eom, h) refl

-- How far the search may move on.
over_two :
    (a b : ℕ) (s : List ℕ)
    → behind_eom (a ∷ b ∷ s) ≡ none
    → behind_eom (b ∷ s) ≡ none
    → first_eom (a ∷ b ∷ s) ≡ first_eom s
over_two a b s here next = later a (b ∷ s) here ∙ later b s next

over_four :
    (a b c d : ℕ) (s : List ℕ)
    → behind_eom (a ∷ b ∷ c ∷ d ∷ s) ≡ none
    → behind_eom (b ∷ c ∷ d ∷ s) ≡ none
    → behind_eom (c ∷ d ∷ s) ≡ none
    → behind_eom (d ∷ s) ≡ none
    → first_eom (a ∷ b ∷ c ∷ d ∷ s) ≡ first_eom s
over_four a b c d s ha hb hc hd = over_two a b (c ∷ d ∷ s) ha hb ∙ over_two c d s hc hd

nl_no_cr : (c : ℕ) → (c != b'\n') ≡ false → (c != b'\r') ≡ true
nl_no_cr c h = ground arith

cr_no_nl : (c : ℕ) → (c != b'\r') ≡ false → (c != b'\n') ≡ true
cr_no_nl c h = ground arith

no_cr : (c : ℕ) → (c == b'\r') ≡ false → (c != b'\r') ≡ true
no_cr c h = ground arith

here :
    (a b c d : ℕ) (s : List ℕ)
    → (a != b'\r') ≡ false
    → (b != b'\n') ≡ false
    → (c != b'\r') ≡ false
    → (d != b'\n') ≡ false
    → first_eom (a ∷ b ∷ c ∷ d ∷ s) ≡ some s
unfolding first_eom
here a b c d s ha hb hc hd = ground arith

-- One round of the loop, by what the characters are.
module _ (fuel a b c d : ℕ) (s : List ℕ) where
  abbrev round : Search
  round = find_eom_loop (suc fuel) (a ∷ b ∷ c ∷ d ∷ s)

  moves_one : (d != b'\n') ≡ true → (d == b'\r') ≡ true → round ≡ find_eom_loop fuel (b ∷ c ∷ d ∷ s)
  unfolding find_eom_loop
  moves_one hd hd' = ground arith

  moves_four : (d != b'\n') ≡ true → (d == b'\r') ≡ false → round ≡ find_eom_loop fuel s
  unfolding find_eom_loop
  moves_four hd hd' = ground arith

  moves_four_nl : (d != b'\n') ≡ false → (c != b'\r') ≡ true → round ≡ find_eom_loop fuel s
  unfolding find_eom_loop
  moves_four_nl hd hc = ground arith

  moves_two :
      (d != b'\n') ≡ false
      → (c != b'\r') ≡ false
      → (b != b'\n') ≡ true
      → round ≡ find_eom_loop fuel (c ∷ d ∷ s)
  unfolding find_eom_loop
  moves_two hd hc hb = ground arith

  moves_two_nl :
      (d != b'\n') ≡ false
      → (c != b'\r') ≡ false
      → (b != b'\n') ≡ false
      → (a != b'\r') ≡ true
      → round ≡ find_eom_loop fuel (c ∷ d ∷ s)
  unfolding find_eom_loop
  moves_two_nl hd hc hb ha = ground arith

  ends_here :
      (d != b'\n') ≡ false
      → (c != b'\r') ≡ false
      → (b != b'\n') ≡ false
      → (a != b'\r') ≡ false
      → round ≡ ended (some s)
  unfolding find_eom_loop
  ends_here hd hc hb ha = ground arith

too_short : (p : List ℕ) → length p < 4 → first_eom p ≡ none
unfolding first_eom
too_short [] h = refl
too_short (a ∷ []) h = refl
too_short (a ∷ b ∷ []) h = refl
too_short (a ∷ b ∷ c ∷ []) h = refl
too_short (a ∷ b ∷ c ∷ d ∷ s) h = absurd (omega arith)

-- With fuel for more rounds than there are characters, the loop ends and is at the first place.
pub find_eom_loop-ends :
    (fuel : ℕ) (p : List ℕ) → length p < fuel → find_eom_loop fuel p ≡ ended (first_eom p)
unfolding find_eom_loop
find_eom_loop-ends zero p h = absurd (omega arith)
find_eom_loop-ends (suc fuel) [] h = ap ended (sym (too_short [] (omega arith)))
find_eom_loop-ends (suc fuel) (a ∷ []) h = ap ended (sym (too_short (a ∷ []) (omega arith)))
find_eom_loop-ends (suc fuel) (a ∷ b ∷ []) h = ap ended (sym (too_short (a ∷ b ∷ []) (omega arith)))
find_eom_loop-ends (suc fuel) (a ∷ b ∷ c ∷ []) h =
    ap ended (sym (too_short (a ∷ b ∷ c ∷ []) (omega arith)))
find_eom_loop-ends (suc fuel) (a ∷ b ∷ c ∷ d ∷ s) h = elim (Bool-cases (d != b'\n')) [
  | inl d_other ↦ elim (Bool-cases (d == b'\r')) [
    | inl d_cr ↦
        (moves_one fuel a b c d s d_other d_cr
          ∙ find_eom_loop-ends fuel (b ∷ c ∷ d ∷ s) (omega arith)
          ∙ ap ended (sym (later a (b ∷ c ∷ d ∷ s) (by_fourth a b c d s d_other))))
    | inr d_not ↦
        (moves_four fuel a b c d s d_other d_not
          ∙ find_eom_loop-ends fuel s (omega arith)
          ∙ ap ended (
              sym (
                over_four a b c d s (by_fourth a b c d s d_other) (by_third b c d s (no_cr d d_not))
                  (by_second c d s d_other) (by_first d s (no_cr d d_not)))))
  ]
  | inr d_nl ↦ elim (Bool-cases (c != b'\r')) [
    | inl c_other ↦
        (moves_four_nl fuel a b c d s d_nl c_other
          ∙ find_eom_loop-ends fuel s (omega arith)
          ∙ ap ended (
              sym (
                over_four a b c d s (by_third a b c (d ∷ s) c_other)
                  (by_third b c d s (nl_no_cr d d_nl)) (by_first c (d ∷ s) c_other)
                  (by_first d s (nl_no_cr d d_nl)))))
    | inr c_cr ↦ elim (Bool-cases (b != b'\n')) [
      | inl b_other ↦
          (moves_two fuel a b c d s d_nl c_cr b_other
            ∙ find_eom_loop-ends fuel (c ∷ d ∷ s) (omega arith)
            ∙ ap ended (
                sym (
                  over_two a b (c ∷ d ∷ s) (by_second a b (c ∷ d ∷ s) b_other)
                    (by_third b c d s (nl_no_cr d d_nl)))))
      | inr b_nl ↦ elim (Bool-cases (a != b'\r')) [
        | inl a_other ↦
            (moves_two_nl fuel a b c d s d_nl c_cr b_nl a_other
              ∙ find_eom_loop-ends fuel (c ∷ d ∷ s) (omega arith)
              ∙ ap ended (
                  sym (
                    over_two a b (c ∷ d ∷ s) (by_first a (b ∷ c ∷ d ∷ s) a_other)
                      (by_first b (c ∷ d ∷ s) (nl_no_cr b b_nl)))))
        | inr a_cr ↦
            (ends_here fuel a b c d s d_nl c_cr b_nl a_cr
              ∙ ap ended (sym (here a b c d s a_cr b_nl c_cr d_nl)))
      ]
    ]
  ]
]

-- `find_eom`, which looks at the fourth character first and moves on by up to four, is at the same
-- place as the search that tries every place in turn, and finds none where that finds none.
pub find_eom-first_eom : (p : List ℕ) → find_eom p ≡ first_eom p
unfolding find_eom result
find_eom-first_eom p = ap result (find_eom_loop-ends (suc (length p)) p (omega arith))

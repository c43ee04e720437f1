-- ===== src/Websocket/Utf8.antt =====
-- websocket/detail/utf8_checker.hpp. A buffer is the list of its bytes, with the address of its
-- first byte where the code looks at it.
pub mod Spec
mod Masks
mod Step
mod Loops
mod Scan
pub mod Whole
pub mod Parts
use beast_asio_standalone.Prelude.{
  ℕ, zero, suc, ◌+◌, ◌-◌, ◌*◌, ◌/◌, min, bit_and, Bool, true, false, not, ◌&&◌, ◌||◌, Option, none,
  some, List, [], ◌∷◌, ◌++◌, leb, ltb, ◌==◌, ◌!=◌, if◌then◌else◌, length, get_or, take, drop,
}

-- `cp` is the part of `cp_` from its begin to `p_`: the bytes that were saved.
pub record Utf8Checker : Type 0 where
  pub need : ℕ
  pub cp : List ℕ

unfoldable pub reset : Utf8Checker
reset = record { need = 0; cp = [] }

unfoldable pub finish : Utf8Checker → Bool × Utf8Checker
finish c = (c.need == 0, reset)

-- The lambda `valid` on the four bytes that stand at `p`: how many it passes, `none` for `false`.
-- A byte is looked at only where the ones before it ask for it.
unfoldable pub valid_step : ℕ → ℕ → ℕ → ℕ → Option ℕ
valid_step p0 p1 p2 p3 =
    if ltb p0 128
    then some 1
    else if bit_and p0 0xe0 == 0xc0
    then (if bit_and p1 0xc0 != 0x80 || bit_and p0 0xfe == 0xc0 then none else some 2)
    else if bit_and p0 0xf0 == 0xe0
    then (if bit_and p1 0xc0 != 0x80
          || bit_and p2 0xc0 != 0x80
          || p0 == 0xe0 && bit_and p1 0xe0 == 0x80
          || p0 == 0xed && bit_and p1 0xe0 == 0xa0
        then none
        else some 3)
    else if bit_and p0 0xf8 == 0xf0
    then (if bit_and p1 0xc0 != 0x80
          || bit_and p2 0xc0 != 0x80
          || bit_and p3 0xc0 != 0x80
          || p0 == 0xf0 && bit_and p1 0xf0 == 0x80
          || p0 == 0xf4 && ltb 0x8f p1
          || ltb 0xf4 p0
        then none
        else some 4)
    else none

-- `valid(p)`: what stands behind the code point. Every call has its bytes there: the loops keep
-- four ahead, or as many as `needed` says.
unfoldable pub valid : List ℕ → Option (List ℕ)
valid p = elim (valid_step (get_or p 0 0) (get_or p 1 0) (get_or p 2 0) (get_or p 3 0)) [
  | none ↦ none
  | some n ↦ some (drop n p)
]

-- The lambda `fail_fast`: what is missing of four bytes is filled up. A checker that lacks bytes
-- has saved one, two or three; for other sizes an assertion fails, and the first case is taken.
unfoldable pub fail_fast : List ℕ → Bool
fail_fast [] = true
fail_fast (a ∷ []) = elim (valid (a ∷ 0x81 ∷ 0x81 ∷ 0x81 ∷ [])) [ none ↦ true | some _ ↦ false ]
fail_fast (a ∷ b ∷ []) = elim (valid (a ∷ b ∷ 0x81 ∷ 0x81 ∷ [])) [ none ↦ true | some _ ↦ false ]
fail_fast (a ∷ b ∷ c ∷ []) = elim (valid (a ∷ b ∷ c ∷ 0x81 ∷ [])) [ none ↦ true | some _ ↦ false ]
fail_fast (a ∷ b ∷ c ∷ d ∷ e) = elim (valid (a ∷ 0x81 ∷ 0x81 ∷ 0x81 ∷ [])) [
  | none ↦ true
  | some _ ↦ false
]

unfoldable pub needed : ℕ → ℕ
needed v =
    if ltb v 128
    then 1
    else if ltb v 192
    then 0
    else if ltb v 224
    then 2
    else if ltb v 240
    then 3
    else if ltb v 248
    then 4
    else 0

-- `while(in < last) if(! valid(in)) return false;` with `last` three bytes before the end. The
-- first number bounds the rounds: the length is enough, since each passes a byte.
unfoldable pub valid_loop : ℕ → List ℕ → Option (List ℕ)
valid_loop zero p = some p
valid_loop (suc fuel) p =
    if ltb (length p) 4 then some p else elim (valid p) [ none ↦ none | some q ↦ valid_loop fuel q ]

-- The label `tail`. The number bounds the rounds as above.
unfoldable pub tail : ℕ → Utf8Checker → List ℕ → Bool × Utf8Checker
tail zero c p = (true, c)
tail (suc fuel) c [] = (true, c)
tail (suc fuel) c (x ∷ p) =
    let n = length (x ∷ p) in
    let need = needed x in
    if need == 0
    then (false, c)
    else if leb need n
    then elim (valid (x ∷ p)) [ none ↦ (false, c) | some q ↦ tail fuel c q ]
    else let cp = c.cp ++ (x ∷ p) in (not (fail_fast cp), record { need = need - n; cp = cp })

unfoldable pub slow : Utf8Checker → List ℕ → Bool × Utf8Checker
slow c p = elim (valid_loop (length p) p) [ none ↦ (false, c) | some q ↦ tail (length q) c q ]

-- `while(in < last)` up to the next multiple of eight: what is left, and whether a byte that is not
-- low ASCII has ended it.
unfoldable pub align_loop : ℕ → List ℕ → Bool × List ℕ
align_loop zero p = (false, p)
align_loop (suc n) [] = (false, [])
align_loop (suc n) (x ∷ p) = if bit_and x 0x80 != 0 then (true, x ∷ p) else align_loop n p

-- whether a word of eight bytes has a bit of `0x8080808080808080`
abbrev pub word_high : ℕ → ℕ → ℕ → ℕ → ℕ → ℕ → ℕ → ℕ → Bool
word_high a b c d e f g h =
    bit_and a 0x80 != 0
    || bit_and b 0x80 != 0
    || bit_and c 0x80 != 0
    || bit_and d 0x80 != 0
    || bit_and e 0x80 != 0
    || bit_and f 0x80 != 0
    || bit_and g 0x80 != 0
    || bit_and h 0x80 != 0

-- The fast loop: a word of eight bytes against the mask, while there is a whole one.
unfoldable pub fast_loop : List ℕ → Bool × List ℕ
fast_loop (a ∷ b ∷ c ∷ d ∷ e ∷ f ∷ g ∷ h ∷ p) =
    let rest = fast_loop p in
    if word_high a b c d e f g h then (true, a ∷ b ∷ c ∷ d ∷ e ∷ f ∷ g ∷ h ∷ p) else rest
fast_loop p = (false, p)

-- From `if(size <= sizeof(std::size_t))` to the end. Both loops that follow the fast one are the
-- ones of the labels `slow` and `tail`.
unfoldable pub scan : Utf8Checker → ℕ → List ℕ → Bool × Utf8Checker
scan c address p =
    if leb (length p) 8
    then slow c p
    else let (stopped, q) = align_loop ((address + 7) / 8 * 8 - address) p in
      if stopped then slow c q else slow c (fast_loop q).1

unfoldable pub write : Utf8Checker → ℕ → List ℕ → Bool × Utf8Checker
write c address p =
    if ltb 0 c.need
    then (let n = min (length p) c.need in
        let need = c.need - n in
        let cp = c.cp ++ take n p in
        if ltb 0 need
        then (not (fail_fast cp), record { need = need; cp = cp })
        else elim (valid cp) [
          | none ↦ (false, record { need = need; cp = cp })
          | some _ ↦ scan (record { need = need; cp = [] }) (address + n) (drop n p)
        ])
    else scan c address p

-- `write` over the buffers of a sequence, each with its address
unfoldable pub write_seq : Utf8Checker → List (ℕ × List ℕ) → Bool × Utf8Checker
write_seq c [] = (true, c)
write_seq c ((address, p) ∷ bs) =
    let (ok, c') = write c address p in
    let rest = write_seq c' bs in if ok then rest else (false, c')

unfoldable pub check_utf8 : ℕ → List ℕ → Bool
check_utf8 address p = let (ok, c) = write reset address p in if ok then (finish c).0 else false

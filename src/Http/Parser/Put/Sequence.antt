-- ===== src/Http/Parser/Put/Sequence.antt =====
-- `put` on a sequence of buffers (http/impl/basic_parser.ipp): the temporary storage `buf_` is the
-- list of the `buf_len_` characters in it.
use beast_asio_standalone.Prelude.{
  ℕ, ◌≤◌, ◌≡◌, ◌∙◌, ◌⊎◌, inl, inr, ap, sym, Bool, true, false, Option, some, none, List, [], ◌∷◌,
  ◌++◌, append-nil, ltb, leb, if◌then◌else◌, length, drop, drop_past, Bool-cases, le→leb, if_true,
  if_false, arith,
}
use beast_asio_standalone.Http.Parser.{BasicParser, Impl, Run, ran}
use beast_asio_standalone.Http.Parser.Put.{put}

abbrev pub max_stack_buffer : ℕ
max_stack_buffer = 8192

-- the characters of the buffers, in order
unfoldable pub joined : List (List ℕ) → List ℕ
joined [] = []
joined (b ∷ bs) = b ++ joined bs

-- `buffer_copy` of the characters to the front of the storage, which is a new one where the old one
-- is too small
abbrev pub flatten : List ℕ → List ℕ → List ℕ
flatten buf s = if ltb (length buf) (length s) then s else s ++ drop (length s) buf

module _ {H : Type 0} (impl : Impl H) (is_request : Bool) where
  -- the storage after the call, and its outcome
  unfoldable pub put_seq : ℕ → List ℕ → BasicParser → H → List (List ℕ) → List ℕ × Option (Run H)
  unfolding joined
  put_seq fuel buf p h [] = (buf, some (ran p h [] none))
  put_seq fuel buf p h (b ∷ []) = (buf, put impl is_request fuel p h b)
  put_seq fuel buf p h (b ∷ c ∷ bs) =
      let s = joined (b ∷ c ∷ bs) in
      if leb (length s) max_stack_buffer
      then (buf, put impl is_request fuel p h s)
      else (flatten buf s, put impl is_request fuel p h (flatten buf s))

  flatten-larger : (buf s : List ℕ) → length buf ≤ length s → flatten buf s ≡ s
  flatten-larger buf s h = elim (Bool-cases (ltb (length buf) (length s))) [
    | inl smaller ↦ if_true (ltb (length buf) (length s)) _ _ smaller
    | inr same ↦
        if_false (ltb (length buf) (length s)) _ _ same
        ∙ ap (λ t. s ++ t) (drop_past (length s) buf h)
        ∙ append-nil s
  ]

  -- On a sequence of buffers that is not empty, `put` does what it does on their characters in one
  -- buffer, where these are at most 8192 or the storage of earlier calls holds no more than them.
  pub put_seq-joined :
      (fuel : ℕ) (buf : List ℕ) (p : BasicParser) (h : H) (b : List ℕ) (bs : List (List ℕ))
      → (length (joined (b ∷ bs)) ≤ max_stack_buffer) ⊎ (length buf ≤ length (joined (b ∷ bs)))
      → (put_seq fuel buf p h (b ∷ bs)).1 ≡ put impl is_request fuel p h (joined (b ∷ bs))
  unfolding put_seq joined
  put_seq-joined fuel buf p h b [] k = ap (put impl is_request fuel p h) (sym (append-nil b))
  put_seq-joined fuel buf p h b (c ∷ bs) k = go k (Bool-cases (leb (length s) max_stack_buffer))
    where
      s : List ℕ
      s = joined (b ∷ c ∷ bs)

      chosen : Bool → List ℕ × Option (Run H)
      chosen small =
          if small
          then (buf, put impl is_request fuel p h s)
          else (flatten buf s, put impl is_request fuel p h (flatten buf s))

      go :
          (length s ≤ max_stack_buffer) ⊎ (length buf ≤ length s)
          → (leb (length s) max_stack_buffer ≡ true) ⊎ (leb (length s) max_stack_buffer ≡ false)
          → (chosen (leb (length s) max_stack_buffer)).1 ≡ put impl is_request fuel p h s
      go l (inl small) =
          ap (λ (r : List ℕ × Option (Run H)). r.1)
            (if_true (leb (length s) max_stack_buffer) _ _ small)
      go (inl small) (inr large) =
          absurd (ground (arith, le→leb (length s) max_stack_buffer small, large))
      go (inr fresh) (inr large) =
          ap (λ (r : List ℕ × Option (Run H)). r.1)
            (if_false (leb (length s) max_stack_buffer) _ _ large)
          ∙ ap (put impl is_request fuel p h) (flatten-larger buf s fresh)

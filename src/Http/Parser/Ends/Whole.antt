-- ===== src/Http/Parser/Ends/Whole.antt =====
-- `put` as a whole.
use beast_asio_standalone.Prelude.{
  ℕ, zero, suc, ◌≡◌, refl, Bool, true, not, ◌&&◌, Option, none, some, List, [], ◌∷◌, if_cases,
  arith,
}
use beast_asio_standalone.Http.Error.{Error, ErrorCode}
use beast_asio_standalone.Http.Parser.{
  BasicParser, State, nothing_yet, start_line, fields, body0, body, body_to_eof0, body_to_eof,
  chunk_header0, chunk_header, chunk_body, complete, Impl, Run, ran, threw, then_ok, content_length,
  is_done,
}
use beast_asio_standalone.Http.Parser.Header.StartLine.{maybe_need_more}
use beast_asio_standalone.Http.Parser.Body.{parse_body, parse_body_to_eof, parse_chunk_header}
use beast_asio_standalone.Http.Parser.Put.{
  Pass, to_done, breaks, try_fields, in_fields, body_init, init, switch, loops, put_loop, put,
}
use beast_asio_standalone.Prelude.{◌<◌, ◌⊎◌, inl, inr, sym}
use mathlib.Core.Path.{subst}
use beast_asio_standalone.Http.Field.Ends.{Finishes}
use beast_asio_standalone.Http.Parser.Ends.{
  IsGreedy, in_body, work, LessWork, LessRun, parse_body-Less, parse_body_to_eof-Less,
  parse_chunk_body-Less, parse_chunk_header-Less,
}
use beast_asio_standalone.Http.Parser.Ends.Header.{
  in_fields-Settled, in_start_line-Settled, InFields, Settled, SettledPass,
}

module _ {H : Type 0} (impl : Impl H) (is_request : Bool) where
  -- a pass in a body
  init-Less :
      (ec : ErrorCode) (p : BasicParser) (next : State) (h : H) (s : List ℕ)
      (run : BasicParser → H → List ℕ → Run H) (n : ℕ)
      → ((q : BasicParser) (g : H) → LessRun (run q g s) n)
      → LessRun (then_ok (init impl is_request ec p next h s) run) n
  init-Less ec p next h s run n l = go (impl.on_body_init (content_length p) ec h)
    where
      go : (r : H × ErrorCode) → LessRun (then_ok (body_init impl is_request p next s r) run) n
      go (g, some e) = tt
      go (g, none) = l (record p { state = next }) g

  switch-Less :
      (st : State) (ec : ErrorCode) (p : BasicParser) (h : H) (s : List ℕ)
      → IsGreedy impl
      → in_body st ≡ true
      → LessWork (switch impl is_request st ec p h s) (work st s)
  unfolding switch
  switch-Less nothing_yet ec p h s g b = absurd (ground (arith, b))
  switch-Less start_line ec p h s g b = absurd (ground (arith, b))
  switch-Less fields ec p h s g b = absurd (ground (arith, b))
  switch-Less complete ec p h s g b = absurd (ground (arith, b))
  switch-Less body0 ec p h s g b =
      init-Less ec p body h s (parse_body impl) (work body0 s)
        (λ q k. parse_body-Less impl q k s (work body0 s) g)
  switch-Less body ec p h s g b = parse_body-Less impl p h s (work body s) g
  switch-Less body_to_eof0 ec p h s g b =
      init-Less ec p body_to_eof h s (parse_body_to_eof impl) (work body_to_eof0 s)
        (λ q k. parse_body_to_eof-Less impl q k s (work body_to_eof0 s) g)
  switch-Less body_to_eof ec p h s g b = parse_body_to_eof-Less impl p h s (work body_to_eof s) g
  switch-Less chunk_header0 ec p h s g b =
      init-Less ec p chunk_header h s (parse_chunk_header impl) (work chunk_header s)
        (λ q k. parse_chunk_header-Less impl q k s)
  switch-Less chunk_header ec p h s g b = parse_chunk_header-Less impl p h s
  switch-Less chunk_body ec p h s g b = parse_chunk_body-Less impl p h s g

  stops :
      (again : ErrorCode → BasicParser → H → List ℕ → Option (Run H)) (p : BasicParser) (h : H)
      (c : ℕ) (s : List ℕ) (ec : ErrorCode)
      → ((is_done p ≡ true) ⊎ Finishes (again ec p h (c ∷ s)))
      → Finishes (loops impl is_request again (breaks (ran p h (c ∷ s) ec)))
  stops again p h c s ec (inl d) = rw d tt
  stops again p h c s ec (inr f) =
      if_cases (λ (r : Option (Run H)). Finishes r) (not (is_done p) && p.f.eager) _ _ (λ _. f)
        (λ _. tt)

  loops-Less :
      (again : ErrorCode → BasicParser → H → List ℕ → Option (Run H)) (q : Pass H) (n : ℕ)
      → LessWork q n
      → ((ec : ErrorCode) (p : BasicParser) (h : H) (s : List ℕ)
          → in_body p.state ≡ true
          → work p.state s < n
          → Finishes (again ec p h s))
      → Finishes (loops impl is_request again q)
  loops-Less again (to_done r) n l f = tt
  loops-Less again (breaks threw) n l f = tt
  loops-Less again (breaks (ran p h [] ec)) n l f = tt
  loops-Less again (breaks (ran p h (c ∷ s) ec)) n (inl d) f = stops again p h c s ec (inl d)
  loops-Less again (breaks (ran p h (c ∷ s) ec)) n (inr (b, w)) f =
      stops again p h c s ec (inr (f ec p h (c ∷ s) b w))

  body_put-Finishes :
      (fuel : ℕ) (ec : ErrorCode) (p : BasicParser) (h : H) (s : List ℕ)
      → IsGreedy impl
      → in_body p.state ≡ true
      → work p.state s < fuel
      → Finishes (put_loop impl is_request fuel ec p h s)
  unfolding put_loop
  body_put-Finishes zero ec p h s g b w = absurd (omega arith)
  body_put-Finishes (suc fuel) ec p h s g b w =
      loops-Less (put_loop impl is_request fuel) (switch impl is_request p.state ec p h s)
        (work p.state s) (switch-Less p.state ec p h s g b)
        (λ ec' q k t b' w'. body_put-Finishes fuel ec' q k t g b' (omega arith))

  -- fuel for what follows a pass
  abbrev Enough : Pass H → Type 0
  Enough q = (fuel : ℕ) × Finishes (loops impl is_request (put_loop impl is_request fuel) q)

  -- an error that is set goes to the end in the fields
  error_ends :
      (st : State) (e : Error) (p : BasicParser) (h : H) (s : List ℕ)
      → st ≡ fields
      → Finishes (
          loops impl is_request
            (put_loop impl is_request 0)
            (switch impl is_request st (some e) p h s))
  unfolding switch in_fields
  error_ends st e p h s k =
      subst
        (λ t. Finishes (
          loops impl is_request (put_loop impl is_request 0)
            (switch impl is_request t (some e) p h s)))
        (sym k) (go (maybe_need_more p s))
    where
      go :
          (r : BasicParser × ErrorCode)
          → Finishes (
              loops impl is_request
                (put_loop impl is_request 0)
                (try_fields impl is_request h s (some e) r))
      go (q, some e') = tt
      go (q, none) = tt

  Settled-Finishes :
      (p : BasicParser) (h : H) (c : ℕ) (s : List ℕ) (ec : ErrorCode)
      → IsGreedy impl
      → Settled p ec
      → Enough (breaks (ran p h (c ∷ s) ec))
  unfolding put_loop
  Settled-Finishes p h c s ec g (inl d) = (0, stops (put_loop impl is_request 0) p h c s ec (inl d))
  Settled-Finishes p h c s ec g (inr (inl b)) =
      let fuel : ℕ = suc (work p.state (c ∷ s)) in
      (
        fuel,
        stops (put_loop impl is_request fuel) p h c s ec
            (inr (body_put-Finishes fuel ec p h (c ∷ s) g b (omega arith))),
      )
  Settled-Finishes p h c s none g (inr (inr (k, has_error))) = absurd has_error
  Settled-Finishes p h c s (some e) g (inr (inr (k, has_error))) = (
    1,
    stops (put_loop impl is_request 1) p h c s (some e) (inr (error_ends p.state e p h (c ∷ s) k)),
  )

  pass_ends : (q : Pass H) → IsGreedy impl → SettledPass q → Enough q
  pass_ends (to_done r) g k = (0, tt)
  pass_ends (breaks threw) g k = (0, tt)
  pass_ends (breaks (ran p h [] ec)) g k = (0, tt)
  pass_ends (breaks (ran p h (c ∷ s) ec)) g k = Settled-Finishes p h c s ec g k

  nothing_yet-Settled :
      (p : BasicParser) (h : H) (s : List ℕ)
      → SettledPass (switch impl is_request nothing_yet none p h s)
  unfolding switch
  nothing_yet-Settled p h [] = tt
  nothing_yet-Settled p h (c ∷ s) =
      in_start_line-Settled impl is_request (record p { state = start_line }) h (c ∷ s)

  start_line-Settled :
      (p : BasicParser) (h : H) (s : List ℕ)
      → SettledPass (switch impl is_request start_line none p h s)
  unfolding switch
  start_line-Settled p h s = in_start_line-Settled impl is_request p h s

  fields-Settled :
      (p : BasicParser) (h : H) (s : List ℕ)
      → InFields p
      → SettledPass (switch impl is_request fields none p h s)
  unfolding switch
  fields-Settled p h s k = in_fields-Settled impl is_request none p h s k

  complete-Settled :
      (p : BasicParser) (h : H) (s : List ℕ)
      → SettledPass (switch impl is_request complete none p h s)
  unfolding switch
  complete-Settled p h s = tt

  one_more :
      (p : BasicParser) (h : H) (s : List ℕ)
      → Enough (switch impl is_request p.state none p h s)
      → (fuel : ℕ) × Finishes (put impl is_request fuel p h s)
  unfolding put put_loop
  one_more p h s (fuel, f) = (suc fuel, f)

  by_state :
      (st : State) (p : BasicParser) (h : H) (s : List ℕ)
      → IsGreedy impl
      → p.state ≡ st
      → (fuel : ℕ) × Finishes (put impl is_request fuel p h s)
  by_state st p h s g e =
      one_more p h s (subst (λ t. Enough (switch impl is_request t none p h s)) (sym e) (go st e))
    where
      in_a_body :
          (t : State)
          → p.state ≡ t
          → in_body t ≡ true
          → Enough (switch impl is_request t none p h s)
      in_a_body t k b = (
        work t s,
        loops-Less (put_loop impl is_request (work t s)) (switch impl is_request t none p h s)
            (work t s) (switch-Less t none p h s g b)
            (λ ec q j u c w. body_put-Finishes (work t s) ec q j u g c w),
      )

      go : (t : State) → p.state ≡ t → Enough (switch impl is_request t none p h s)
      go nothing_yet k =
          pass_ends (switch impl is_request nothing_yet none p h s) g (nothing_yet-Settled p h s)
      go start_line k =
          pass_ends (switch impl is_request start_line none p h s) g (start_line-Settled p h s)
      go fields k = pass_ends (switch impl is_request fields none p h s) g (fields-Settled p h s k)
      go complete k =
          pass_ends (switch impl is_request complete none p h s) g (complete-Settled p h s)
      go body0 k = in_a_body body0 k refl
      go body k = in_a_body body k refl
      go body_to_eof0 k = in_a_body body_to_eof0 k refl
      go body_to_eof k = in_a_body body_to_eof k refl
      go chunk_header0 k = in_a_body chunk_header0 k refl
      go chunk_header k = in_a_body chunk_header k refl
      go chunk_body k = in_a_body chunk_body k refl

  -- Whatever the parser and the characters are: with callbacks that take all of the body characters
  -- that they are given, there is fuel with which `put` comes to a result.
  pub put-Finishes :
      (p : BasicParser) (h : H) (s : List ℕ)
      → IsGreedy impl
      → (fuel : ℕ) × Finishes (put impl is_request fuel p h s)
  put-Finishes p h s g = by_state p.state p h s g refl

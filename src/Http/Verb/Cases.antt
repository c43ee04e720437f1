-- ===== src/Http/Verb/Cases.antt =====
-- The cases of the search for a method: what each finds has the name that was given.
use beast_asio_standalone.Prelude.{
  ℕ, ◌≡◌, refl, ap, ◌⊎◌, inl, inr, Bool, true, false, List, [], ◌∷◌, ◌==◌, ◌!=◌, if◌then◌else◌, ap₂,
  ==→eq, arith,
}
use beast_asio_standalone.Http.Text.{codes, same_text, same_text→eq}
use beast_asio_standalone.Http.Verb.{
  Verb, unknown, verb_to_string, eq, when, case_c, case_mk, case_m, case_p, case_r, case_u,
  by_first,
}

-- what the search says of the characters it was given
abbrev pub Sound : List ℕ → Verb → Type 0
Sound s w = (w ≡ unknown) ⊎ (s ≡ verb_to_string w)

eq→same : (v beyond s : List ℕ) → eq v beyond s ≡ true → v ≡ s
unfolding eq
eq→same [] beyond [] h = refl
eq→same (p ∷ v) beyond [] h = ground arith
eq→same [] [] (c ∷ s) h = ground arith
eq→same [] (p ∷ beyond) (c ∷ []) h = ground arith
eq→same [] (p ∷ beyond) (c ∷ d ∷ s) h = absurd (ground (arith, eq→same [] beyond (d ∷ s)))
eq→same (p ∷ []) beyond (c ∷ []) h = ap (λ (a : ℕ). a ∷ []) (ground arith)
eq→same (p ∷ a ∷ v) beyond (c ∷ []) h = ground arith
eq→same (p ∷ v) beyond (c ∷ d ∷ s) h =
    ap₂ (λ (a : ℕ) (u : List ℕ). a ∷ u) (ground arith) (eq→same v beyond (d ∷ s) (ground arith))

-- a test with what follows when it fails, and a case of a switch
tested :
    (s : List ℕ) (test : Bool) (w rest : Verb)
    → (test ≡ true → s ≡ verb_to_string w)
    → Sound s rest
    → Sound s (when test w rest)
tested s true w rest hit miss = inr (hit refl)
tested s false w rest hit miss = miss

switched :
    (s : List ℕ) (test : Bool) (w rest : Verb)
    → (test ≡ true → Sound s w)
    → Sound s rest
    → Sound s (if test then w else rest)
switched s true w rest hit miss = hit refl
switched s false w rest hit miss = miss

pub nothing : (s : List ℕ) → Sound s unknown
nothing s = inl refl

one : (c k : ℕ) (v t : List ℕ) → (c == k) ≡ true → v ≡ t → c ∷ v ≡ k ∷ t
one c k v t e h = ap₂ (λ (a : ℕ) (u : List ℕ). a ∷ u) (==→eq c k e) h

two :
    (c k d l : ℕ) (v t : List ℕ) → (c == k) ≡ true → (d == l) ≡ true → v ≡ t → c ∷ d ∷ v ≡ k ∷ l ∷ t
two c k d l v t e f h = one c k (d ∷ v) (l ∷ t) e (one d l v t f h)

is_not : (c k : ℕ) → (c != k) ≡ false → (c == k) ≡ true
is_not c k h = ground arith

pub refused :
    (s : List ℕ) (test : Bool) (rest : Verb)
    → (test ≡ false → Sound s rest)
    → Sound s (if test then unknown else rest)
refused s true rest hit = nothing s
refused s false rest hit = hit refl

case_mk-Sound :
    (beyond : List ℕ) (b c : ℕ) (v : List ℕ)
    → (b == b'M') ≡ true
    → (c == b'K') ≡ true
    → Sound (b ∷ c ∷ v) (case_mk beyond v)
unfolding verb_to_string
case_mk-Sound beyond b c [] e f = nothing (b ∷ c ∷ [])
case_mk-Sound beyond b c (d ∷ v) e f =
    (switched (b ∷ c ∷ d ∷ v) (d == b'C') _ _
      (λ g.
        (tested (b ∷ c ∷ d ∷ v) (eq v beyond (codes "ALENDAR")) Verb.mkcalendar _
          (λ h.
            one b b'M' (c ∷ d ∷ v) (b'K' ∷ b'C' ∷ codes "ALENDAR") e
              (two c b'K' d b'C' v (codes "ALENDAR") f g (eq→same v beyond (codes "ALENDAR") h)))
          (tested (b ∷ c ∷ d ∷ v) (eq v beyond (codes "OL")) Verb.mkcol _
            (λ h.
              one b b'M' (c ∷ d ∷ v) (b'K' ∷ b'C' ∷ codes "OL") e
                (two c b'K' d b'C' v (codes "OL") f g (eq→same v beyond (codes "OL") h)))
            (nothing (b ∷ c ∷ d ∷ v)))))
      (nothing (b ∷ c ∷ d ∷ v)))

case_c-Sound :
    (beyond : List ℕ) (b : ℕ) (v : List ℕ) → (b == b'C') ≡ true → Sound (b ∷ v) (case_c beyond v)
unfolding verb_to_string
case_c-Sound beyond b [] e = nothing (b ∷ [])
case_c-Sound beyond b (c ∷ v) e =
    (switched (b ∷ c ∷ v) (c == b'H') _ _
      (λ f.
        (tested (b ∷ c ∷ v) (eq v beyond (codes "ECKOUT")) Verb.checkout _
          (λ h. two b b'C' c b'H' v (codes "ECKOUT") e f (eq→same v beyond (codes "ECKOUT") h))
          (nothing (b ∷ c ∷ v))))
      (switched (b ∷ c ∷ v) (c == b'O') _ _
        (λ f.
          (tested (b ∷ c ∷ v) (eq v beyond (codes "NNECT")) Verb.connect _
            (λ h. two b b'C' c b'O' v (codes "NNECT") e f (eq→same v beyond (codes "NNECT") h))
            (tested (b ∷ c ∷ v) (eq v beyond (codes "PY")) Verb.copy _
              (λ h. two b b'C' c b'O' v (codes "PY") e f (eq→same v beyond (codes "PY") h))
              (nothing (b ∷ c ∷ v)))))
        (nothing (b ∷ c ∷ v))))

case_m-Sound :
    (beyond : List ℕ) (b : ℕ) (v : List ℕ) → (b == b'M') ≡ true → Sound (b ∷ v) (case_m beyond v)
unfolding verb_to_string
case_m-Sound beyond b [] e = nothing (b ∷ [])
case_m-Sound beyond b (c ∷ v) e =
    (switched (b ∷ c ∷ v) (c == b'-') _ _
      (λ f.
        (tested (b ∷ c ∷ v) (eq v beyond (codes "SEARCH")) Verb.msearch _
          (λ h. two b b'M' c b'-' v (codes "SEARCH") e f (eq→same v beyond (codes "SEARCH") h))
          (nothing (b ∷ c ∷ v))))
      (switched (b ∷ c ∷ v) (c == b'E') _ _
        (λ f.
          (tested (b ∷ c ∷ v) (eq v beyond (codes "RGE")) Verb.merge _
            (λ h. two b b'M' c b'E' v (codes "RGE") e f (eq→same v beyond (codes "RGE") h))
            (nothing (b ∷ c ∷ v))))
        (switched (b ∷ c ∷ v) (c == b'K') _ _
          (λ f.
            (tested (b ∷ c ∷ v) (eq v beyond (codes "ACTIVITY")) Verb.mkactivity _
              (λ h.
                two b b'M' c b'K' v (codes "ACTIVITY") e f (eq→same v beyond (codes "ACTIVITY") h))
              (case_mk-Sound beyond b c v e f)))
          (switched (b ∷ c ∷ v) (c == b'O') _ _
            (λ f.
              (tested (b ∷ c ∷ v) (eq v beyond (codes "VE")) Verb.move _
                (λ h. two b b'M' c b'O' v (codes "VE") e f (eq→same v beyond (codes "VE") h))
                (nothing (b ∷ c ∷ v))))
            (nothing (b ∷ c ∷ v))))))

case_p-Sound :
    (beyond : List ℕ) (b : ℕ) (v : List ℕ) → (b == b'P') ≡ true → Sound (b ∷ v) (case_p beyond v)
unfolding verb_to_string
case_p-Sound beyond b [] e = nothing (b ∷ [])
case_p-Sound beyond b (c ∷ v) e =
    (switched (b ∷ c ∷ v) (c == b'A') _ _
      (λ f.
        (tested (b ∷ c ∷ v) (eq v beyond (codes "TCH")) Verb.patch _
          (λ h. two b b'P' c b'A' v (codes "TCH") e f (eq→same v beyond (codes "TCH") h))
          (nothing (b ∷ c ∷ v))))
      (switched (b ∷ c ∷ v) (c == b'O') _ _
        (λ f.
          (tested (b ∷ c ∷ v) (eq v beyond (codes "ST")) Verb.post _
            (λ h. two b b'P' c b'O' v (codes "ST") e f (eq→same v beyond (codes "ST") h))
            (nothing (b ∷ c ∷ v))))
        (switched (b ∷ c ∷ v) (c == b'R') _ _
          (λ f.
            (tested (b ∷ c ∷ v) (eq v beyond (codes "OPFIND")) Verb.propfind _
              (λ h. two b b'P' c b'R' v (codes "OPFIND") e f (eq→same v beyond (codes "OPFIND") h))
              (tested (b ∷ c ∷ v) (eq v beyond (codes "OPPATCH")) Verb.proppatch _
                (λ h.
                  two b b'P' c b'R' v (codes "OPPATCH") e f (eq→same v beyond (codes "OPPATCH") h))
                (nothing (b ∷ c ∷ v)))))
          (switched (b ∷ c ∷ v) (c == b'U') _ _
            (λ f.
              (tested (b ∷ c ∷ v) (eq v beyond (codes "RGE")) Verb.purge _
                (λ h. two b b'P' c b'U' v (codes "RGE") e f (eq→same v beyond (codes "RGE") h))
                (tested (b ∷ c ∷ v) (eq v beyond (codes "T")) Verb.put _
                  (λ h. two b b'P' c b'U' v (codes "T") e f (eq→same v beyond (codes "T") h))
                  (nothing (b ∷ c ∷ v)))))
            (nothing (b ∷ c ∷ v))))))

case_r-Sound :
    (beyond : List ℕ) (b : ℕ) (v : List ℕ) → (b == b'R') ≡ true → Sound (b ∷ v) (case_r beyond v)
unfolding verb_to_string
case_r-Sound beyond b [] e = nothing (b ∷ [])
case_r-Sound beyond b (c ∷ v) e = refused (b ∷ c ∷ v) (c != b'E') _ (λ f.
    (tested (b ∷ c ∷ v) (eq v beyond (codes "BIND")) Verb.rebind _
      (λ h.
        two b b'R' c b'E' v (codes "BIND") e (is_not c b'E' f) (eq→same v beyond (codes "BIND") h))
      (tested (b ∷ c ∷ v) (eq v beyond (codes "PORT")) Verb.report _
        (λ h.
          two b b'R' c b'E' v (codes "PORT") e (is_not c b'E' f)
            (eq→same v beyond (codes "PORT") h))
        (nothing (b ∷ c ∷ v)))))

case_u-Sound :
    (beyond : List ℕ) (b : ℕ) (v : List ℕ) → (b == b'U') ≡ true → Sound (b ∷ v) (case_u beyond v)
unfolding verb_to_string
case_u-Sound beyond b [] e = nothing (b ∷ [])
case_u-Sound beyond b (c ∷ v) e = refused (b ∷ c ∷ v) (c != b'N') _ (λ f.
    (tested (b ∷ c ∷ v) (eq v beyond (codes "BIND")) Verb.unbind _
      (λ h.
        two b b'U' c b'N' v (codes "BIND") e (is_not c b'N' f) (eq→same v beyond (codes "BIND") h))
      (tested (b ∷ c ∷ v) (eq v beyond (codes "LINK")) Verb.unlink _
        (λ h.
          two b b'U' c b'N' v (codes "LINK") e (is_not c b'N' f)
            (eq→same v beyond (codes "LINK") h))
        (tested (b ∷ c ∷ v) (eq v beyond (codes "LOCK")) Verb.unlock _
          (λ h.
            two b b'U' c b'N' v (codes "LOCK") e (is_not c b'N' f)
              (eq→same v beyond (codes "LOCK") h))
          (tested (b ∷ c ∷ v) (eq v beyond (codes "SUBSCRIBE")) Verb.unsubscribe _
            (λ h.
              two b b'U' c b'N' v (codes "SUBSCRIBE") e (is_not c b'N' f)
                (eq→same v beyond (codes "SUBSCRIBE") h))
            (nothing (b ∷ c ∷ v)))))))

pub by_first-Sound : (beyond : List ℕ) (b : ℕ) (v : List ℕ) → Sound (b ∷ v) (by_first beyond b v)
unfolding by_first verb_to_string
by_first-Sound beyond b v =
    (switched (b ∷ v) (b == b'A') _ _
      (λ e.
        (tested (b ∷ v) (same_text v (codes "CL")) Verb.acl _
          (λ h. one b b'A' v (codes "CL") e (same_text→eq v (codes "CL") h)) (nothing (b ∷ v))))
      (switched (b ∷ v) (b == b'B') _ _
        (λ e.
          (tested (b ∷ v) (same_text v (codes "IND")) Verb.bind _
            (λ h. one b b'B' v (codes "IND") e (same_text→eq v (codes "IND") h)) (nothing (b ∷ v))))
        (switched (b ∷ v) (b == b'C') _ _ (λ e. case_c-Sound beyond b v e)
          (switched (b ∷ v) (b == b'D') _ _
            (λ e.
              (tested (b ∷ v) (eq v beyond (codes "ELETE")) Verb.delete _
                (λ h. one b b'D' v (codes "ELETE") e (eq→same v beyond (codes "ELETE") h))
                (nothing (b ∷ v))))
            (switched (b ∷ v) (b == b'G') _ _
              (λ e.
                (tested (b ∷ v) (eq v beyond (codes "ET")) Verb.get _
                  (λ h. one b b'G' v (codes "ET") e (eq→same v beyond (codes "ET") h))
                  (nothing (b ∷ v))))
              (switched (b ∷ v) (b == b'H') _ _
                (λ e.
                  (tested (b ∷ v) (eq v beyond (codes "EAD")) Verb.head _
                    (λ h. one b b'H' v (codes "EAD") e (eq→same v beyond (codes "EAD") h))
                    (nothing (b ∷ v))))
                (switched (b ∷ v) (b == b'L') _ _
                  (λ e.
                    (tested (b ∷ v) (eq v beyond (codes "INK")) Verb.link _
                      (λ h. one b b'L' v (codes "INK") e (eq→same v beyond (codes "INK") h))
                      (tested (b ∷ v) (eq v beyond (codes "OCK")) Verb.lock _
                        (λ h. one b b'L' v (codes "OCK") e (eq→same v beyond (codes "OCK") h))
                        (nothing (b ∷ v)))))
                  (switched (b ∷ v) (b == b'M') _ _ (λ e. case_m-Sound beyond b v e)
                    (switched (b ∷ v) (b == b'N') _ _
                      (λ e.
                        (tested (b ∷ v) (eq v beyond (codes "OTIFY")) Verb.notify _
                          (λ h. one b b'N' v (codes "OTIFY") e (eq→same v beyond (codes "OTIFY") h))
                          (nothing (b ∷ v))))
                      (switched (b ∷ v) (b == b'O') _ _
                        (λ e.
                          (tested (b ∷ v) (eq v beyond (codes "PTIONS")) Verb.options _
                            (λ h.
                              one b b'O' v (codes "PTIONS") e (eq→same v beyond (codes "PTIONS") h))
                            (nothing (b ∷ v))))
                        (switched (b ∷ v) (b == b'P') _ _ (λ e. case_p-Sound beyond b v e)
                          (switched (b ∷ v) (b == b'R') _ _ (λ e. case_r-Sound beyond b v e)
                            (switched (b ∷ v) (b == b'S') _ _
                              (λ e.
                                (tested (b ∷ v) (eq v beyond (codes "EARCH")) Verb.search _
                                  (λ h.
                                    one b b'S' v (codes "EARCH") e
                                      (eq→same v beyond (codes "EARCH") h))
                                  (tested (b ∷ v) (eq v beyond (codes "UBSCRIBE")) Verb.subscribe _
                                    (λ h.
                                      one b b'S' v (codes "UBSCRIBE") e
                                        (eq→same v beyond (codes "UBSCRIBE") h))
                                    (nothing (b ∷ v)))))
                              (switched (b ∷ v) (b == b'T') _ _
                                (λ e.
                                  (tested (b ∷ v) (eq v beyond (codes "RACE")) Verb.trace _
                                    (λ h.
                                      one b b'T' v (codes "RACE") e
                                        (eq→same v beyond (codes "RACE") h))
                                    (nothing (b ∷ v))))
                                (switched (b ∷ v) (b == b'U') _ _ (λ e. case_u-Sound beyond b v e)
                                  (nothing (b ∷ v)))))))))))))))))

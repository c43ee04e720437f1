-- ===== src/Http/Verb.antt =====
-- The request methods (http/verb.hpp and http/impl/verb.ipp).
pub mod Cases
pub mod Laws
use beast_asio_standalone.Prelude.{
  ℕ, Bool, true, false, List, [], ◌∷◌, ◌==◌, ◌!=◌, if◌then◌else◌, length, ltb,
}
use beast_asio_standalone.Http.Text.{codes, same_text}

pub data Verb : Type 0 where
  delete get head post put connect options : Verb
  trace copy lock mkcol move propfind proppatch : Verb
  search unlock bind rebind unbind acl report : Verb
  mkactivity checkout merge msearch notify subscribe unsubscribe : Verb
  patch purge mkcalendar link unlink unknown : Verb

unfoldable pub verb_to_string : Verb → List ℕ
verb_to_string delete = codes "DELETE"
verb_to_string get = codes "GET"
verb_to_string head = codes "HEAD"
verb_to_string post = codes "POST"
verb_to_string put = codes "PUT"
verb_to_string connect = codes "CONNECT"
verb_to_string options = codes "OPTIONS"
verb_to_string trace = codes "TRACE"
verb_to_string copy = codes "COPY"
verb_to_string lock = codes "LOCK"
verb_to_string mkcol = codes "MKCOL"
verb_to_string move = codes "MOVE"
verb_to_string propfind = codes "PROPFIND"
verb_to_string proppatch = codes "PROPPATCH"
verb_to_string search = codes "SEARCH"
verb_to_string unlock = codes "UNLOCK"
verb_to_string bind = codes "BIND"
verb_to_string rebind = codes "REBIND"
verb_to_string unbind = codes "UNBIND"
verb_to_string acl = codes "ACL"
verb_to_string report = codes "REPORT"
verb_to_string mkactivity = codes "MKACTIVITY"
verb_to_string checkout = codes "CHECKOUT"
verb_to_string merge = codes "MERGE"
verb_to_string msearch = codes "M-SEARCH"
verb_to_string notify = codes "NOTIFY"
verb_to_string subscribe = codes "SUBSCRIBE"
verb_to_string unsubscribe = codes "UNSUBSCRIBE"
verb_to_string patch = codes "PATCH"
verb_to_string purge = codes "PURGE"
verb_to_string mkcalendar = codes "MKCALENDAR"
verb_to_string link = codes "LINK"
verb_to_string unlink = codes "UNLINK"
verb_to_string unknown = codes "<unknown>"

-- The lambda `eq`, on the characters of the view, those behind it in memory and the characters of the
-- literal: it reads on behind the view while the characters agree, and then finds the end of the
-- literal to be another place than that of the view.
unfoldable pub eq : List ℕ → List ℕ → List ℕ → Bool
eq (p ∷ v) beyond (c ∷ s) =
    let more = eq v beyond s in if c != p then false else elim s [ [] ↦ at_end v | ◌∷◌ _ _ ↦ more ]
  where
    at_end : List ℕ → Bool
    at_end [] = true
    at_end (p ∷ v) = false
eq [] (p ∷ beyond) (c ∷ s) =
    let more = eq [] beyond s in if c != p then false else elim s [ [] ↦ false | ◌∷◌ _ _ ↦ more ]
eq v beyond s = false

-- `if(eq(v, s)) return w;`, before what follows it
abbrev pub when : Bool → Verb → Verb → Verb
when test w rest = if test then w else rest

-- The inner switches, each on the characters from `v[0]` on.
module _ (beyond : List ℕ) where
  abbrev pub case_c : List ℕ → Verb
  case_c [] = unknown
  case_c (c ∷ v) =
      if c == b'H'
      then when (eq v beyond (codes "ECKOUT")) checkout unknown
      else if c == b'O'
      then when (eq v beyond (codes "NNECT")) connect (when (eq v beyond (codes "PY")) copy unknown)
      else unknown

  abbrev pub case_mk : List ℕ → Verb
  case_mk [] = unknown
  case_mk (c ∷ v) =
      if c == b'C'
      then when (eq v beyond (codes "ALENDAR")) mkcalendar
          (when (eq v beyond (codes "OL")) mkcol unknown)
      else unknown

  abbrev pub case_m : List ℕ → Verb
  case_m [] = unknown
  case_m (c ∷ v) =
      if c == b'-'
      then when (eq v beyond (codes "SEARCH")) msearch unknown
      else if c == b'E'
      then when (eq v beyond (codes "RGE")) merge unknown
      else if c == b'K'
      then when (eq v beyond (codes "ACTIVITY")) mkactivity (case_mk v)
      else if c == b'O'
      then when (eq v beyond (codes "VE")) move unknown
      else unknown

  abbrev pub case_p : List ℕ → Verb
  case_p [] = unknown
  case_p (c ∷ v) =
      if c == b'A'
      then when (eq v beyond (codes "TCH")) patch unknown
      else if c == b'O'
      then when (eq v beyond (codes "ST")) post unknown
      else if c == b'R'
      then when (eq v beyond (codes "OPFIND")) propfind
          (when (eq v beyond (codes "OPPATCH")) proppatch unknown)
      else if c == b'U'
      then when (eq v beyond (codes "RGE")) purge (when (eq v beyond (codes "T")) put unknown)
      else unknown

  abbrev pub case_r : List ℕ → Verb
  case_r [] = unknown
  case_r (c ∷ v) =
      if c != b'E'
      then unknown
      else when (eq v beyond (codes "BIND")) rebind
          (when (eq v beyond (codes "PORT")) report unknown)

  abbrev pub case_u : List ℕ → Verb
  case_u [] = unknown
  case_u (c ∷ v) =
      if c != b'N'
      then unknown
      else when (eq v beyond (codes "BIND")) unbind (
          when (eq v beyond (codes "LINK")) unlink (
            when (eq v beyond (codes "LOCK")) unlock
              (when (eq v beyond (codes "SUBSCRIBE")) unsubscribe unknown)))

  -- the outer switch, on the first character and the others
  unfoldable pub by_first : ℕ → List ℕ → Verb
  by_first c v =
      if c == b'A'
      then when (same_text v (codes "CL")) acl unknown
      else if c == b'B'
      then when (same_text v (codes "IND")) bind unknown
      else if c == b'C'
      then case_c v
      else if c == b'D'
      then when (eq v beyond (codes "ELETE")) delete unknown
      else if c == b'G'
      then when (eq v beyond (codes "ET")) get unknown
      else if c == b'H'
      then when (eq v beyond (codes "EAD")) head unknown
      else if c == b'L'
      then when (eq v beyond (codes "INK")) link (when (eq v beyond (codes "OCK")) lock unknown)
      else if c == b'M'
      then case_m v
      else if c == b'N'
      then when (eq v beyond (codes "OTIFY")) notify unknown
      else if c == b'O'
      then when (eq v beyond (codes "PTIONS")) options unknown
      else if c == b'P'
      then case_p v
      else if c == b'R'
      then case_r v
      else if c == b'S'
      then when (eq v beyond (codes "EARCH")) search
          (when (eq v beyond (codes "UBSCRIBE")) subscribe unknown)
      else if c == b'T'
      then when (eq v beyond (codes "RACE")) trace unknown
      else if c == b'U'
      then case_u v
      else unknown

-- on the characters of the view and those behind it in memory
unfoldable pub string_to_verb : List ℕ → List ℕ → Verb
unfolding by_first
string_to_verb [] beyond = unknown
string_to_verb (c ∷ v) beyond = if ltb (length (c ∷ v)) 3 then unknown else by_first beyond c v

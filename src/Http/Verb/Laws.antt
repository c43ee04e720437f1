-- ===== src/Http/Verb/Laws.antt =====
-- The search for a method against its name.
use beast_asio_standalone.Prelude.{
  ℕ, ◌≡◌, refl, ap, sym, ◌∙◌, inl, inr, List, [], ◌∷◌, length, ltb, ◌↔◌, ◌≢◌,
}
use beast_asio_standalone.Http.Text.{same_text}
use beast_asio_standalone.Http.Verb.Cases.{Sound, nothing, refused, by_first-Sound}
use beast_asio_standalone.Http.Verb.{Verb, unknown, verb_to_string, eq, by_first, string_to_verb}

-- every name is found, whatever stands behind it
pub string_to_verb-verb_to_string :
    (w : Verb) (beyond : List ℕ) → string_to_verb (verb_to_string w) beyond ≡ w
unfolding string_to_verb verb_to_string by_first eq same_text
string_to_verb-verb_to_string Verb.delete beyond = refl
string_to_verb-verb_to_string Verb.get beyond = refl
string_to_verb-verb_to_string Verb.head beyond = refl
string_to_verb-verb_to_string Verb.post beyond = refl
string_to_verb-verb_to_string Verb.put beyond = refl
string_to_verb-verb_to_string Verb.connect beyond = refl
string_to_verb-verb_to_string Verb.options beyond = refl
string_to_verb-verb_to_string Verb.trace beyond = refl
string_to_verb-verb_to_string Verb.copy beyond = refl
string_to_verb-verb_to_string Verb.lock beyond = refl
string_to_verb-verb_to_string Verb.mkcol beyond = refl
string_to_verb-verb_to_string Verb.move beyond = refl
string_to_verb-verb_to_string Verb.propfind beyond = refl
string_to_verb-verb_to_string Verb.proppatch beyond = refl
string_to_verb-verb_to_string Verb.search beyond = refl
string_to_verb-verb_to_string Verb.unlock beyond = refl
string_to_verb-verb_to_string Verb.bind beyond = refl
string_to_verb-verb_to_string Verb.rebind beyond = refl
string_to_verb-verb_to_string Verb.unbind beyond = refl
string_to_verb-verb_to_string Verb.acl beyond = refl
string_to_verb-verb_to_string Verb.report beyond = refl
string_to_verb-verb_to_string Verb.mkactivity beyond = refl
string_to_verb-verb_to_string Verb.checkout beyond = refl
string_to_verb-verb_to_string Verb.merge beyond = refl
string_to_verb-verb_to_string Verb.msearch beyond = refl
string_to_verb-verb_to_string Verb.notify beyond = refl
string_to_verb-verb_to_string Verb.subscribe beyond = refl
string_to_verb-verb_to_string Verb.unsubscribe beyond = refl
string_to_verb-verb_to_string Verb.patch beyond = refl
string_to_verb-verb_to_string Verb.purge beyond = refl
string_to_verb-verb_to_string Verb.mkcalendar beyond = refl
string_to_verb-verb_to_string Verb.link beyond = refl
string_to_verb-verb_to_string Verb.unlink beyond = refl
string_to_verb-verb_to_string Verb.unknown beyond = refl

string_to_verb-Sound : (s beyond : List ℕ) → Sound s (string_to_verb s beyond)
unfolding string_to_verb
string_to_verb-Sound [] beyond = nothing []
string_to_verb-Sound (b ∷ v) beyond =
    refused (b ∷ v) (ltb (length (b ∷ v)) 3) (by_first beyond b v) (λ h. by_first-Sound beyond b v)

-- The search gives a method, other than `unknown`, exactly where the characters of the view are that
-- method's name, whatever stands behind them in memory.
pub string_to_verb-name :
    (w : Verb) (s beyond : List ℕ)
    → w ≢ unknown
    → (string_to_verb s beyond ≡ w) ↔ (s ≡ verb_to_string w)
string_to_verb-name w s beyond known = (
  λ e. elim (string_to_verb-Sound s beyond) [
    | inl none_found ↦ absurd (known (sym e ∙ none_found))
    | inr named ↦ named ∙ ap verb_to_string e
  ],
  λ e. ap (λ t. string_to_verb t beyond) e ∙ string_to_verb-verb_to_string w beyond,
)

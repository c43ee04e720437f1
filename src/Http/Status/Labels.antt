-- ===== src/Http/Status/Labels.antt =====
-- The two tables of the status codes against the enumeration.
use beast_asio_standalone.Prelude.{
  ℕ, ◌≡◌, ◌≢◌, ◌↔◌, inl, inr, refl, ap, sym, ◌∙◌, Bool, true, false, ◌&&◌, List, [], ◌∷◌, ◌==◌,
  ◌!=◌, map, if◌then◌else◌, if_true, if_false, Bool-cases, ==→eq, arith,
}
use beast_asio_standalone.Http.Text.{codes}
use beast_asio_standalone.Http.Status.{Status, value, labelled, labels, int_to_status}
use beast_asio_standalone.Http.Status.Reasons.{reason_in, reasons, obsolete_reason}

-- every enumerator is a label
int_to_status-value : (w : Status) → int_to_status (value w) ≡ w
unfolding labelled value
int_to_status-value Status.unknown = refl
int_to_status-value Status.continue_ = refl
int_to_status-value Status.switching_protocols = refl
int_to_status-value Status.processing = refl
int_to_status-value Status.ok = refl
int_to_status-value Status.created = refl
int_to_status-value Status.accepted = refl
int_to_status-value Status.non_authoritative_information = refl
int_to_status-value Status.no_content = refl
int_to_status-value Status.reset_content = refl
int_to_status-value Status.partial_content = refl
int_to_status-value Status.multi_status = refl
int_to_status-value Status.already_reported = refl
int_to_status-value Status.im_used = refl
int_to_status-value Status.multiple_choices = refl
int_to_status-value Status.moved_permanently = refl
int_to_status-value Status.found = refl
int_to_status-value Status.see_other = refl
int_to_status-value Status.not_modified = refl
int_to_status-value Status.use_proxy = refl
int_to_status-value Status.temporary_redirect = refl
int_to_status-value Status.permanent_redirect = refl
int_to_status-value Status.bad_request = refl
int_to_status-value Status.unauthorized = refl
int_to_status-value Status.payment_required = refl
int_to_status-value Status.forbidden = refl
int_to_status-value Status.not_found = refl
int_to_status-value Status.method_not_allowed = refl
int_to_status-value Status.not_acceptable = refl
int_to_status-value Status.proxy_authentication_required = refl
int_to_status-value Status.request_timeout = refl
int_to_status-value Status.conflict = refl
int_to_status-value Status.gone = refl
int_to_status-value Status.length_required = refl
int_to_status-value Status.precondition_failed = refl
int_to_status-value Status.payload_too_large = refl
int_to_status-value Status.uri_too_long = refl
int_to_status-value Status.unsupported_media_type = refl
int_to_status-value Status.range_not_satisfiable = refl
int_to_status-value Status.expectation_failed = refl
int_to_status-value Status.misdirected_request = refl
int_to_status-value Status.unprocessable_entity = refl
int_to_status-value Status.locked = refl
int_to_status-value Status.failed_dependency = refl
int_to_status-value Status.upgrade_required = refl
int_to_status-value Status.precondition_required = refl
int_to_status-value Status.too_many_requests = refl
int_to_status-value Status.request_header_fields_too_large = refl
int_to_status-value Status.connection_closed_without_response = refl
int_to_status-value Status.unavailable_for_legal_reasons = refl
int_to_status-value Status.client_closed_request = refl
int_to_status-value Status.internal_server_error = refl
int_to_status-value Status.not_implemented = refl
int_to_status-value Status.bad_gateway = refl
int_to_status-value Status.service_unavailable = refl
int_to_status-value Status.gateway_timeout = refl
int_to_status-value Status.http_version_not_supported = refl
int_to_status-value Status.variant_also_negotiates = refl
int_to_status-value Status.insufficient_storage = refl
int_to_status-value Status.loop_detected = refl
int_to_status-value Status.not_extended = refl
int_to_status-value Status.network_authentication_required = refl
int_to_status-value Status.network_connect_timeout_error = refl

labelled-value :
    (ws : List Status) (v : ℕ) → labelled ws v ≢ Status.unknown → v ≡ value (labelled ws v)
unfolding labelled
labelled-value [] v known = absurd (known refl)
labelled-value (w ∷ ws) v known = elim (Bool-cases (v == value w)) [
  | inl same ↦
      let chosen = if_true (v == value w) w (labelled ws v) same in
      ==→eq v (value w) same ∙ ap value (sym chosen)
  | inr other ↦
      let chosen = if_false (v == value w) w (labelled ws v) other in
      labelled-value ws v (λ e. known (chosen ∙ e)) ∙ ap value (sym chosen)
]

int_to_status-known :
    (v : ℕ) (w : Status) → w ≢ Status.unknown → (int_to_status v ≡ w) ↔ (v ≡ value w)
int_to_status-known v w known = (
  λ e. labelled-value labels v (λ none. known (sym e ∙ none)) ∙ ap value e,
  λ e. ap int_to_status e ∙ int_to_status-value w,
)

-- the first character, which is that of the text for an unknown status where there is none
abbrev first : List ℕ → ℕ
first [] = b'<'
first (c ∷ s) = c

-- a label other than `unknown`, with a text that is not the one of an unknown status
abbrev is_named : Status × List ℕ → Bool
is_named (w, reason) = value w != 0 && first reason != b'<'

abbrev are_named : List (Status × List ℕ) → Bool
are_named [] = true
are_named (row ∷ rows) = is_named row && are_named rows

named-known :
    (w : Status) (reason : List ℕ)
    → is_named (w, reason) ≡ true
    → (w ≢ Status.unknown) × (reason ≢ codes "<unknown-status>")
unfolding value
named-known w reason e = (λ u. ground (arith, e, ap value u), λ u. ground (arith, e, ap first u))

both : (a b : Bool) → (a && b) ≡ true → (a ≡ true) × (b ≡ true)
both true b e = (refl, e)
both false b e = absurd (ground (arith, e))

chosen_agree :
    (b : Bool) (w rest : Status) (reason text : List ℕ)
    → (w ≢ Status.unknown) × (reason ≢ codes "<unknown-status>")
    → (rest ≡ Status.unknown) ↔ (text ≡ codes "<unknown-status>")
    → ((if b then w else rest) ≡ Status.unknown)
      ↔ ((if b then reason else text) ≡ codes "<unknown-status>")
chosen_agree true w rest reason text known same = (λ u. absurd (known.0 u), λ u. absurd (known.1 u))
chosen_agree false w rest reason text known same = same

labels_agree :
    (rows : List (Status × List ℕ)) (v : ℕ)
    → are_named rows ≡ true
    → (labelled (map (λ (r : Status × List ℕ). r.0) rows) v ≡ Status.unknown)
      ↔ (reason_in rows v ≡ codes "<unknown-status>")
unfolding labelled reason_in
labels_agree [] v e = (λ _. refl, λ _. refl)
labels_agree ((w, reason) ∷ rows) v e =
    let split = both (is_named (w, reason)) (are_named rows) e in
    chosen_agree (v == value w) w (labelled (map (λ (r : Status × List ℕ). r.0) rows) v) reason
      (reason_in rows v) (named-known w reason split.0) (labels_agree rows v split.1)

obsolete_reason-unknown :
    (v : ℕ) → (int_to_status v ≡ Status.unknown) ↔ (obsolete_reason v ≡ codes "<unknown-status>")
unfolding value
obsolete_reason-unknown v = labels_agree reasons v refl

-- For any number and any enumerator other than `unknown`: the conversion of the number gives the
-- enumerator exactly where the number is its value, and it gives `unknown` exactly where the text for
-- the number is the one of an unknown status.
pub int_to_status_lem :
    (v : ℕ) (w : Status)
    → w ≢ Status.unknown
    → ((int_to_status v ≡ w) ↔ (v ≡ value w))
      × ((int_to_status v ≡ Status.unknown) ↔ (obsolete_reason v ≡ codes "<unknown-status>"))
int_to_status_lem v w known = (int_to_status-known v w known, obsolete_reason-unknown v)

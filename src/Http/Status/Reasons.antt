-- ===== src/Http/Status/Reasons.antt =====
-- The texts of the status codes (`status_to_string` of http/impl/status.ipp).
use beast_asio_standalone.Prelude.{ℕ, List, [], ◌∷◌, ◌==◌, if◌then◌else◌}
use beast_asio_standalone.Http.Text.{codes}
use beast_asio_standalone.Http.Status.{
  Status, value, continue_, switching_protocols, processing, ok, created, accepted,
  non_authoritative_information, no_content, reset_content, partial_content, multi_status,
  already_reported, im_used, multiple_choices, moved_permanently, found, see_other, not_modified,
  use_proxy, temporary_redirect, permanent_redirect, bad_request, unauthorized, payment_required,
  forbidden, not_found, method_not_allowed, not_acceptable, proxy_authentication_required,
  request_timeout, conflict, gone, length_required, precondition_failed, payload_too_large,
  uri_too_long, unsupported_media_type, range_not_satisfiable, expectation_failed,
  misdirected_request, unprocessable_entity, locked, failed_dependency, upgrade_required,
  precondition_required, too_many_requests, request_header_fields_too_large,
  connection_closed_without_response, unavailable_for_legal_reasons, client_closed_request,
  internal_server_error, not_implemented, bad_gateway, service_unavailable, gateway_timeout,
  http_version_not_supported, variant_also_negotiates, insufficient_storage, loop_detected,
  not_extended, network_authentication_required, network_connect_timeout_error,
}

-- the text behind the first of the labels with the number
unfoldable pub reason_in : List (Status × List ℕ) → ℕ → List ℕ
unfolding value
reason_in [] v = codes "<unknown-status>"
reason_in ((w, reason) ∷ rows) v =
    let rest = reason_in rows v in if v == value w then reason else rest

-- the labels in `status_to_string`, with what is returned behind them
abbrev pub reasons : List (Status × List ℕ)
reasons =
    (continue_, codes "Continue")
    ∷ (switching_protocols, codes "Switching Protocols")
    ∷ (processing, codes "Processing")
    ∷ (ok, codes "OK")
    ∷ (created, codes "Created")
    ∷ (accepted, codes "Accepted")
    ∷ (non_authoritative_information, codes "Non-Authoritative Information")
    ∷ (no_content, codes "No Content")
    ∷ (reset_content, codes "Reset Content")
    ∷ (partial_content, codes "Partial Content")
    ∷ (multi_status, codes "Multi-Status")
    ∷ (already_reported, codes "Already Reported")
    ∷ (im_used, codes "IM Used")
    ∷ (multiple_choices, codes "Multiple Choices")
    ∷ (moved_permanently, codes "Moved Permanently")
    ∷ (found, codes "Found")
    ∷ (see_other, codes "See Other")
    ∷ (not_modified, codes "Not Modified")
    ∷ (use_proxy, codes "Use Proxy")
    ∷ (temporary_redirect, codes "Temporary Redirect")
    ∷ (permanent_redirect, codes "Permanent Redirect")
    ∷ (bad_request, codes "Bad Request")
    ∷ (unauthorized, codes "Unauthorized")
    ∷ (payment_required, codes "Payment Required")
    ∷ (forbidden, codes "Forbidden")
    ∷ (not_found, codes "Not Found")
    ∷ (method_not_allowed, codes "Method Not Allowed")
    ∷ (not_acceptable, codes "Not Acceptable")
    ∷ (proxy_authentication_required, codes "Proxy Authentication Required")
    ∷ (request_timeout, codes "Request Timeout")
    ∷ (conflict, codes "Conflict")
    ∷ (gone, codes "Gone")
    ∷ (length_required, codes "Length Required")
    ∷ (precondition_failed, codes "Precondition Failed")
    ∷ (payload_too_large, codes "Payload Too Large")
    ∷ (uri_too_long, codes "URI Too Long")
    ∷ (unsupported_media_type, codes "Unsupported Media Type")
    ∷ (range_not_satisfiable, codes "Range Not Satisfiable")
    ∷ (expectation_failed, codes "Expectation Failed")
    ∷ (misdirected_request, codes "Misdirected Request")
    ∷ (unprocessable_entity, codes "Unprocessable Entity")
    ∷ (locked, codes "Locked")
    ∷ (failed_dependency, codes "Failed Dependency")
    ∷ (upgrade_required, codes "Upgrade Required")
    ∷ (precondition_required, codes "Precondition Required")
    ∷ (too_many_requests, codes "Too Many Requests")
    ∷ (request_header_fields_too_large, codes "Request Header Fields Too Large")
    ∷ (connection_closed_without_response, codes "Connection Closed Without Response")
    ∷ (unavailable_for_legal_reasons, codes "Unavailable For Legal Reasons")
    ∷ (client_closed_request, codes "Client Closed Request")
    ∷ (internal_server_error, codes "Internal Server Error")
    ∷ (not_implemented, codes "Not Implemented")
    ∷ (bad_gateway, codes "Bad Gateway")
    ∷ (service_unavailable, codes "Service Unavailable")
    ∷ (gateway_timeout, codes "Gateway Timeout")
    ∷ (http_version_not_supported, codes "HTTP Version Not Supported")
    ∷ (variant_also_negotiates, codes "Variant Also Negotiates")
    ∷ (insufficient_storage, codes "Insufficient Storage")
    ∷ (loop_detected, codes "Loop Detected")
    ∷ (not_extended, codes "Not Extended")
    ∷ (network_authentication_required, codes "Network Authentication Required")
    ∷ (network_connect_timeout_error, codes "Network Connect Timeout Error")
    ∷ []

abbrev pub status_to_string : ℕ → List ℕ
status_to_string v = reason_in reasons v

abbrev pub obsolete_reason : ℕ → List ℕ
obsolete_reason v = status_to_string v

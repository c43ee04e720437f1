-- ===== src/Http/Status.antt =====
-- The status codes of a response (http/status.hpp and http/impl/status.ipp). A `switch` on the number
-- is the search for it in the list of its labels. A number that no enumerator has is a value of the
-- C++ type `status` too: `obsolete_reason` takes the number.
pub mod Reasons
pub mod Labels
use beast_asio_standalone.Prelude.{ℕ, ◌/◌, List, [], ◌∷◌, ◌==◌, if◌then◌else◌}
use beast_asio_standalone.Http.Text.{codes}

pub data Status : Type 0 where
  unknown continue_ switching_protocols processing ok created accepted : Status
  non_authoritative_information no_content reset_content partial_content multi_status : Status
  already_reported im_used multiple_choices moved_permanently found see_other : Status
  not_modified use_proxy temporary_redirect permanent_redirect bad_request unauthorized : Status
  payment_required forbidden not_found method_not_allowed not_acceptable : Status
  proxy_authentication_required request_timeout conflict gone length_required : Status
  precondition_failed payload_too_large uri_too_long unsupported_media_type : Status
  range_not_satisfiable expectation_failed misdirected_request unprocessable_entity : Status
  locked failed_dependency upgrade_required precondition_required too_many_requests : Status
  request_header_fields_too_large connection_closed_without_response : Status
  unavailable_for_legal_reasons client_closed_request internal_server_error : Status
  not_implemented bad_gateway service_unavailable gateway_timeout : Status
  http_version_not_supported variant_also_negotiates insufficient_storage loop_detected : Status
  not_extended network_authentication_required network_connect_timeout_error : Status

unfoldable pub value : Status → ℕ
value unknown = 0
value continue_ = 100
value switching_protocols = 101
value processing = 102
value ok = 200
value created = 201
value accepted = 202
value non_authoritative_information = 203
value no_content = 204
value reset_content = 205
value partial_content = 206
value multi_status = 207
value already_reported = 208
value im_used = 226
value multiple_choices = 300
value moved_permanently = 301
value found = 302
value see_other = 303
value not_modified = 304
value use_proxy = 305
value temporary_redirect = 307
value permanent_redirect = 308
value bad_request = 400
value unauthorized = 401
value payment_required = 402
value forbidden = 403
value not_found = 404
value method_not_allowed = 405
value not_acceptable = 406
value proxy_authentication_required = 407
value request_timeout = 408
value conflict = 409
value gone = 410
value length_required = 411
value precondition_failed = 412
value payload_too_large = 413
value uri_too_long = 414
value unsupported_media_type = 415
value range_not_satisfiable = 416
value expectation_failed = 417
value misdirected_request = 421
value unprocessable_entity = 422
value locked = 423
value failed_dependency = 424
value upgrade_required = 426
value precondition_required = 428
value too_many_requests = 429
value request_header_fields_too_large = 431
value connection_closed_without_response = 444
value unavailable_for_legal_reasons = 451
value client_closed_request = 499
value internal_server_error = 500
value not_implemented = 501
value bad_gateway = 502
value service_unavailable = 503
value gateway_timeout = 504
value http_version_not_supported = 505
value variant_also_negotiates = 506
value insufficient_storage = 507
value loop_detected = 508
value not_extended = 510
value network_authentication_required = 511
value network_connect_timeout_error = 599

pub data StatusClass : Type 0 where
  unknown_class informational successful redirection client_error server_error : StatusClass

-- the first of the labels with the number
unfoldable pub labelled : List Status → ℕ → Status
unfolding value
labelled [] v = unknown
labelled (w ∷ ws) v = let rest = labelled ws v in if v == value w then w else rest

-- the labels in `int_to_status`
abbrev pub labels : List Status
labels =
    continue_ ∷ switching_protocols ∷ processing ∷ ok ∷ created ∷ accepted
    ∷ non_authoritative_information ∷ no_content ∷ reset_content ∷ partial_content ∷ multi_status
    ∷ already_reported ∷ im_used ∷ multiple_choices ∷ moved_permanently ∷ found ∷ see_other
    ∷ not_modified ∷ use_proxy ∷ temporary_redirect ∷ permanent_redirect ∷ bad_request
    ∷ unauthorized ∷ payment_required ∷ forbidden ∷ not_found ∷ method_not_allowed ∷ not_acceptable
    ∷ proxy_authentication_required ∷ request_timeout ∷ conflict ∷ gone ∷ length_required
    ∷ precondition_failed ∷ payload_too_large ∷ uri_too_long ∷ unsupported_media_type
    ∷ range_not_satisfiable ∷ expectation_failed ∷ misdirected_request ∷ unprocessable_entity
    ∷ locked ∷ failed_dependency ∷ upgrade_required ∷ precondition_required ∷ too_many_requests
    ∷ request_header_fields_too_large ∷ connection_closed_without_response
    ∷ unavailable_for_legal_reasons ∷ client_closed_request ∷ internal_server_error
    ∷ not_implemented ∷ bad_gateway ∷ service_unavailable ∷ gateway_timeout
    ∷ http_version_not_supported ∷ variant_also_negotiates ∷ insufficient_storage ∷ loop_detected
    ∷ not_extended ∷ network_authentication_required ∷ network_connect_timeout_error ∷ []

abbrev pub int_to_status : ℕ → Status
int_to_status v = labelled labels v

-- the class `unknown` is `unknown_class`
abbrev pub to_status_class : ℕ → StatusClass
to_status_class v =
    let n = v / 100 in
    if n == 1
    then informational
    else if n == 2
    then successful
    else if n == 3
    then redirection
    else if n == 4
    then client_error
    else if n == 5
    then server_error
    else unknown_class

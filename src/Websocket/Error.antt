-- ===== src/Websocket/Error.antt =====
-- websocket/error.hpp. An `error_code` is `none` where its value is 0.
use beast_asio_standalone.Prelude.{Option}

pub data Error : Type 0 where
  closed buffer_overflow partial_deflate_block message_too_big bad_http_version : Error
  bad_method no_host no_connection no_connection_upgrade no_upgrade : Error
  no_upgrade_websocket no_sec_key bad_sec_key no_sec_version bad_sec_version : Error
  no_sec_accept bad_sec_accept upgrade_declined bad_opcode bad_data_frame : Error
  bad_continuation bad_reserved_bits bad_control_fragment bad_control_size : Error
  bad_unmasked_frame bad_masked_frame bad_size bad_frame_payload bad_close_code : Error
  bad_close_size bad_close_payload : Error

abbrev pub ErrorCode : Type 0
ErrorCode = Option Error

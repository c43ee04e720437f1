-- ===== src/Http/Error.antt =====
-- http/error.hpp, and what a parsing function hands back: a value and the characters behind it, or
-- the error it put into `ec`.
use beast_asio_standalone.Prelude.{ℕ, List, Option}

pub data Error : Type 0 where
  end_of_stream partial_message need_more unexpected_body need_buffer end_of_chunk : Error
  buffer_overflow header_limit body_limit bad_alloc bad_line_ending bad_method : Error
  bad_target bad_version bad_status bad_reason bad_field bad_value bad_content_length : Error
  bad_transfer_encoding bad_chunk bad_chunk_extension bad_obs_fold : Error

abbrev pub ErrorCode : Type 0
ErrorCode = Option Error

pub data Parsed {ℓ} (A : Type ℓ) : Type ℓ where
  parsed : A → List ℕ → Parsed A
  failed : Error → Parsed A

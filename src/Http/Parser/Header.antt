-- ===== src/Http/Parser/Header.antt =====
-- The header (`maybe_need_more`, `parse_start_line`, `do_field`, `parse_fields` and `finish_header` of
-- http/impl/basic_parser.ipp).
pub mod StartLine
pub mod Split
pub mod Fields
pub mod Rounds
pub mod Finish

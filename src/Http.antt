-- ===== src/Http.antt =====
-- The HTTP parser: the parts of include/beast/http that read a message.
pub mod Error
pub mod Chars
pub mod Lines
pub mod Numbers
pub mod StartLine
pub mod Field
pub mod Text
pub mod Verb
pub mod Names
pub mod Status
pub mod Tokens
pub mod Extensions
pub mod Parser
mod Samples

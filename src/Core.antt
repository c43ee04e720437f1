-- ===== src/Core.antt =====
-- include/beast/core: the helpers below the protocols.
pub mod Clamp
pub mod Varint
pub mod FlatBuffer
pub mod StaticBuffer
pub mod Base64
mod Samples

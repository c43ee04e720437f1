-- ===== src/Websocket.antt =====
-- include/beast/websocket: frames, masking and the reading side of the stream.
pub mod Mask
pub mod Error
pub mod Frame
pub mod Stream
pub mod Utf8
pub mod Control
mod Samples

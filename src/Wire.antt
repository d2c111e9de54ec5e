-- ===== src/Wire.antt =====
-- What crosses a process boundary as bytes: the quoted argv of the exec operation, and the
-- WebSocket frames of alloc-exec.
pub mod Quote
pub mod Texts
pub mod Frames

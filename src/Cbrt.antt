-- ===== src/Cbrt.antt =====
-- crates/cbrt/src/parser.rs: CBRT frames, which carry samples of several channels behind the sync
-- word "CBRT". Cbrt/Frame.antt reads one frame; Cbrt/Session.antt has what the parser keeps
-- from one frame to the next.
pub mod Frame
pub mod Session
pub mod Halves
pub mod Timing
pub mod Rows
pub mod Contents
pub mod Parse
pub mod Stream
pub mod Transform

-- ===== src/Formatter.antt =====
-- crates/cycbox-engine/src/formatter/: how a message's frame is shown. Formatter/Hexdump.antt makes
-- the hexadecimal view, Formatter/Terminal.antt the text view.
pub mod Hexdump
pub mod Terminal

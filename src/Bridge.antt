-- ===== src/Bridge.antt =====
-- src/atvr4samsung/bridge: the button map and the gesture interpreter, which know no protocol.
pub mod Keymap
pub mod Gestures
mod Tests

-- ===== src/Display.antt =====
-- How figures are shown, apart from their layout.
pub mod Envelope
pub mod Waterfall
pub mod Caps
mod Examples

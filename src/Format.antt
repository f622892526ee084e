-- ===== src/Format.antt =====
-- frontend/lib/format.ts: what the screen shows of an amount, a time, an identifier.
pub mod Decimal
pub mod Rupees
pub mod Labels
pub mod Times

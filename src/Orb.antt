-- ===== src/Orb.antt =====
-- frontend/lib/orb-knowledge.ts and frontend/app/api/orb/route.ts: the page assistant.
pub mod Facts
pub mod Prompt
pub mod Answers
pub mod Route
pub mod Chat
mod Examples

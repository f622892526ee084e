-- ===== src/Forms.antt =====
-- What the forms of the product send, apart from how they are drawn.
pub mod Service
pub mod Checks
pub mod Drafts
pub mod Agent
pub mod Application
pub mod Underwriting
pub mod Review
pub mod Repayment
pub mod Following
mod Examples

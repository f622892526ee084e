-- ===== src/Pages.antt =====
-- What the screens of frontend/app/(product) compute from the replies of the API before they draw them.
pub mod Search
pub mod Lists
pub mod Health
pub mod Audit
pub mod Start
pub mod Repayments
pub mod Pipeline
pub mod Meter
pub mod Console
pub mod Status
pub mod Vault
pub mod Risk
pub mod Narration
pub mod Tabs
pub mod Crumbs
mod Examples

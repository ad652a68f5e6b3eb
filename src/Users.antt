-- ===== src/Users.antt =====
-- The users component: who works in which tab, and in which role.
pub mod Accounts
pub mod Emails
pub mod Groups
pub mod InTab
pub mod Info
pub mod Import
pub mod Levels
pub mod Requests
pub mod Secrets
pub mod Switch

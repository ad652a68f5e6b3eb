-- ===== src/Social.antt =====
-- The look-ups that the workflows make in the tables of pages, senders, posts and messages.
pub mod Tabs
pub mod Lookups
pub mod Pages

-- ===== src/Store.antt =====
-- The SQLite store (internal/store): its tables, its errors, and one module for each repository.
pub mod Types
pub mod Errors
pub mod Users
pub mod Keys
pub mod Steps
pub mod Edits
pub mod Invariants
pub mod Settings
pub mod Packages
pub mod NewKeys

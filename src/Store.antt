-- ===== src/Store.antt =====
-- workflow/pkg/store: the in-memory store and its laws.
pub mod Memory
pub mod Versions
pub mod Listing

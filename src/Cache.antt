-- ===== src/Cache.antt =====
-- The caches: the cache library's interface, and what internal/cache builds on it.
pub mod Client
pub mod Clear
pub mod Assoc
pub mod Terminal
pub mod Manager

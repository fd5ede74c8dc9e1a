-- ===== src/Server.antt =====
-- internal/api/server.go: `Server` hands each request to its handler, and `BuildHandler` gives the
-- handlers their services, and the cache manager the services' caches.
pub mod Types
pub mod Handle
pub mod Claims
pub mod Sound
pub mod Replies
pub mod Handled
pub mod Lists
pub mod JobServices
pub mod Jobs
pub mod Single
pub mod Told
pub mod Runs
pub mod Refines
pub mod Fresh
pub mod Answers

-- ===== src/Services.antt =====
-- The multi-provider services of internal/services: dispatch on the provider's name, cache keys,
-- and the lookups that go through a cache.
pub mod Keys
pub mod Cached
pub mod Provider
pub mod Krci
pub mod Dispatch
pub mod Branches
pub mod PullRequests
pub mod Repositories
pub mod Organizations
pub mod PipelineTypes
pub mod Pipelines

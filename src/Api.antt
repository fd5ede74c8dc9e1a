-- ===== src/Api.antt =====
-- The HTTP layer of internal/api.
pub mod Pagination
pub mod Numbers
pub mod Responses
pub mod Pipelines
pub mod PullRequests
pub mod Catalog
pub mod Laws
pub mod Outcomes

-- ===== src/GitHub.antt =====
-- internal/services/github: the GitHub provider. The REST client (google/go-github) is a parameter.
pub mod Types
pub mod Convert
pub mod PullRequests
pub mod Pipelines
pub mod Repositories
pub mod Lists
pub mod Catalog

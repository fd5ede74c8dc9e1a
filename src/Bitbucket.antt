-- ===== src/Bitbucket.antt =====
-- internal/services/bitbucket/bitbucket.go: the Bitbucket provider. The client library, the HTTP
-- client, time.Parse and url.PathEscape are parameters.
pub mod Base64
pub mod Token
pub mod Convert
pub mod Types
pub mod Query
pub mod Calls
pub mod Urls
pub mod Lists
pub mod PullRequests
pub mod Pipelines

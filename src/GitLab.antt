-- ===== src/GitLab.antt =====
-- internal/services/gitlab/gitlab.go: the GitLab provider. The client library is a parameter.
pub mod Convert
pub mod Jobs
pub mod Trace
pub mod Calls
pub mod Pipelines
pub mod MergeRequests
pub mod Lists

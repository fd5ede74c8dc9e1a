-- ===== src/Tests.antt =====
-- Concrete runs of the models, and the theorems applied to them.
pub mod Data
pub mod Server
pub mod Bitbucket
pub mod Services
pub mod Traces
pub mod WorkflowRuns
pub mod Providers
pub mod Handlers
pub mod Lists
pub mod Repositories

-- ===== src/Lib.antt =====
-- Verification of gitfusion, a service that lists repositories, branches, organizations, pull
-- requests, pipelines and job traces of GitHub, GitLab and Bitbucket behind one HTTP interface.
--
-- A request goes through a handler (internal/api), a service with its cache (internal/services,
-- internal/cache) and a provider (internal/services/github, gitlab, bitbucket), which calls the
-- library of its platform. The settings of the Git server come from the cluster
-- (internal/services/krci).
--
-- Files:
--   Prelude, Prelude/*: Boolean tests, lists, Go's 64-bit `int` with its wrap-around, strings as
--     bytes, decimal numerals (strconv.Itoa).
--   GoError: internal/errors/errors.go, fmt.Errorf with %w, errors.Is and errors.As.
--   Models: internal/models. Common: internal/services/common/project.go and pkg/pointer.
--   Cache/Client: the cache library (github.com/viccon/sturdyc) as an interface. Cache/Assoc meets it
--     with an association list. Cache/Terminal, Cache/Manager: terminal_aware_cache.go and manager.go
--     of internal/cache.
--   Services/Krci: internal/services/krci/gitserver.go. Services/Provider, Keys, Cached, Dispatch: what
--     the services share (the provider by name, the cache key, GetOrFetch). Services/Branches,
--     PullRequests, Repositories, Organizations, Pipelines: the service of the same name under
--     internal/services (PipelineTypes has the keys of Pipelines); Pipelines/Traces says what the trace caches hold, Pipelines/Requests that
--     requests keep it, Pipelines/Race what one request writes.
--   Scan: pkg/xiter, pkg/github and pkg/bitbucket, the push iterators over pages. Scan/Range is the loop
--     by which the providers use them, Scan/Branches the Bitbucket iterator over pages that end.
--   GitHub/*: internal/services/github (github.go and github_pipelines.go). GitLab/*:
--     internal/services/gitlab/gitlab.go.
--   Bitbucket/*: internal/services/bitbucket/bitbucket.go. Base64 and Token: decodeBitbucketToken; Query:
--     the query text of ListPipelines; Calls: requests and the reading of responses; Urls: what the URLs
--     name; Convert: the conversions; Lists, PullRequests, Pipelines: the methods.
--   Api/*: internal/api, a function for each handler; Api/Numbers is strconv.Atoi; Api/Outcomes has the
--     handlers' branches.
--   Server/*: internal/api/server.go. Types and Handle: the state machine. Claims, Sound, Replies: what is
--     claimed of answers, of the caches and of replies. Lists, JobServices, Jobs, Single: each kind of
--     request. Runs: reachable states. Told, Refines, Fresh, Answers: replies against the providers' answers.
--   Tests/*: runs of the definitions and applications of the theorems.
--
-- How the code is read: a Go function is a function of its arguments and of the state that it reads,
-- and returns its result with the state it leaves. An error is a value of `GoError`; a pointer is an
-- `Option`; a string is the list of its bytes; an `int` is an integer, with sums and products taken
-- modulo 2^64. Client libraries, the cluster, floating-point numbers, Unicode's lower case, time.Parse, the
-- %q verb and json.Unmarshal are parameters.
--
-- The caches: an entry can vanish at any time, so the laws of the cache library say only where a
-- value that is found can come from. `GetOrFetch` returns by a hit, by a miss that fetches, or by a hit
-- with a refresh in the background. A service is sound if every entry answers the request of its key;
-- the statements are for any property of answers that a provider's own answers have.
--
-- A job's trace: a first look, steps of other requests, a second look inside the flight, the fetch
-- with steps of other requests, and the store. A request that joins a flight under way, and so gets the
-- result of that flight, is not modelled.
--
-- The program as a whole: Server.Types.App is the state of all caches, Server.Handle.handle one request
-- by its handler, service and caches as `BuildHandler` connects them. A World is what lies outside at
-- the time of a request: the cluster, and what the providers' implementations return. A run is any
-- sequence of requests, each in its own world, with entries dropped in between; requests of a run follow
-- one another, and what concurrent requests do to each other is in Services/Pipelines only.
--
-- Bounds and fuel: the loop over GitHub's pages has the source's own bound of 50 pages. An iterator
-- over pages has no bound in the source; it takes fuel, and its statements are for pages that end
-- within that fuel, which is enough then. For Bitbucket's branches that is one step for each page.
--
-- Not modelled: `ListRepositories` of the GitLab provider, whose iterator asks for the first page again
-- and again; the generated server; in server.go and main.go the construction of the cluster's client, the
-- environment, start and shutdown; and logging.
pub mod Prelude
pub mod GoError
pub mod Models
pub mod Common
pub mod Bitbucket
pub mod Api
pub mod Server
pub mod Cache
pub mod Services
pub mod GitHub
pub mod Scan
pub mod GitLab
pub mod Tests

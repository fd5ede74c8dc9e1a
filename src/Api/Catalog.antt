-- ===== src/Api/Catalog.antt =====
-- The other handlers of internal/api: repository_handler.go, branch_handler.go,
-- organization_handler.go and cache_handler.go. Their services are given by their methods.
use gitfusion.Prelude.{Option, none, List, ◌++◌, GoString, str, ◌==◌, string_eq, if◌then◌else◌}
use gitfusion.GoError.{GoError, Result, ok, err, error_text}
use gitfusion.Models.{Repository, Branch, Organization, ListOptions}
use gitfusion.Cache.Manager.{Clients, Manager, invalidate_cache}
use gitfusion.Api.Responses.{Response, success, failure, bad_request_response, repository_error}

abbrev pub answer : {A : Type 0} → Result A → Response A
answer (ok a) = success 200 a
answer (err e) = bad_request_response (error_text e)

abbrev pub repository_answer : Result Repository → Response Repository
repository_answer (ok a) = success 200 a
repository_answer (err e) = repository_error e

module _ {S : Type 0} where
  unfoldable pub get_repository :
      (service : GoString → GoString → GoString → S → Result Repository × S)
      → (git_server owner repo_name : GoString) → S
      → Response Repository × S
  get_repository service git_server owner repo_name s =
      let result = service git_server owner repo_name s in (repository_answer result.0, result.1)

  unfoldable pub list_repositories :
      (service : GoString → GoString → ListOptions → S → Result (List Repository) × S)
      → (git_server owner : GoString) (repo_name : Option GoString) → S
      → Response (List Repository) × S
  list_repositories service git_server owner repo_name s =
      let result = service git_server owner (record { name = repo_name }) s in
      (answer result.0, result.1)

  unfoldable pub list_branches :
      (service : GoString → GoString → GoString → ListOptions → S → Result (List Branch) × S)
      → (git_server owner repo_name : GoString) → S
      → Response (List Branch) × S
  list_branches service git_server owner repo_name s =
      let result = service git_server owner repo_name (record { name = none }) s in
      (answer result.0, result.1)

  unfoldable pub list_user_organizations :
      (service : GoString → S → Result (List Organization) × S)
      → (git_server : GoString) → S
      → Response (List Organization) × S
  list_user_organizations service git_server s =
      let result = service git_server s in (answer result.0, result.1)

-- The body of a successful invalidation is its message and the endpoint.
abbrev pub Invalidated : Type 0
Invalidated = GoString × GoString

abbrev pub invalid_endpoint_text : GoString
invalid_endpoint_text = str "unsupported endpoint"

-- `CacheHandler.errResponse`, which is called with an error only.
unfoldable pub cache_error : GoError → Response Invalidated
unfolding error_text
cache_error e =
    if error_text e == invalid_endpoint_text
    then failure 400 (str "invalid_endpoint") (error_text e)
    else failure 500 (str "internal_error") (error_text e)

abbrev pub invalidated : GoString → Result (Unit {0}) → Response Invalidated
invalidated endpoint (ok u) =
    success 200 (
      str "Cache for endpoint '" ++ endpoint ++ str "' has been successfully invalidated",
      endpoint,
    )
invalidated endpoint (err e) = cache_error e

-- `CacheHandler.InvalidateCache`
module _ {Float32 : Type 0} (c : Clients Float32) where
  unfoldable pub handle_invalidate : GoString → Manager c → Response Invalidated × Manager c
  unfolding invalidate_cache
  handle_invalidate endpoint m =
      let result = invalidate_cache c endpoint m in (invalidated endpoint result.0, result.1)

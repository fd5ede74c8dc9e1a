-- ===== src/GitLab/Calls.antt =====
-- What calls of the GitLab client return, and the mapping of their errors that `TriggerPipeline`,
-- `ListPipelines` and `ListPullRequests` of internal/services/gitlab/gitlab.go repeat.
use gitfusion.Prelude.{ℕ, ◌≡◌, ◌||◌, Option, GoString, str, if◌then◌else◌, ℤ}
use gitfusion.GoError.{
  GoError, Result, ok, err, wrapped, sentinel, not_found, unauthorized, is_gitlab_not_found,
}
use gitfusion.GitLab.Convert.{has_status}

-- A value with the response's `X-Total`, or an error with the status of the response if there is one.
pub data Answer (A : Type 0) : Type 0 where
  answered : A → ℤ → Answer A
  refused : Option ℕ → GoError → Answer A

-- The error for a refused call, by the texts for a missing project and for any other failure.
unfoldable pub call_error : GoString → GoString → Option ℕ → GoError → GoError
unfolding has_status
call_error missing failed status e =
    if is_gitlab_not_found e || has_status status 404
    then wrapped missing (sentinel not_found)
    else if has_status status 401 || has_status status 403
    then wrapped (str "invalid credentials: ") (sentinel unauthorized)
    else wrapped failed e

-- The value of a call, or its error.
abbrev pub value_of : {A B : Type 0} → GoString → GoString → (A → ℤ → B) → Answer A → Result B
value_of missing failed f (answered a total) = ok (f a total)
value_of missing failed f (refused status e) = err (call_error missing failed status e)

-- `newGitlabClient`: a client, which is the calls that are made of it, or an error.
abbrev pub with_client : {C B : Type 0} → GoString → (C → Result B) → Result C → Result B
with_client text f (ok client) = f client
with_client text f (err e) = err (wrapped text e)

pub answered-injective : {A : Type 0} {a b : A} {m n : ℤ} → answered a m ≡ answered b n → a ≡ b
answered-injective e = cc

-- ===== src/GoError.antt =====
-- Go errors as values: internal/errors/errors.go, the wrapping by `fmt.Errorf("…%w", err)`, and
-- the error types of the client libraries that the program tells apart.
use gitfusion.Prelude.{
  ℕ, ◌≡◌, refl, Bool, true, false, Option, none, some, ◌++◌, GoString, str, arith, ◌⊎◌, inl, inr,
}

-- The predefined errors.
pub data Sentinel : Type 0 where
  not_found unauthorized git_server_not_found secret_not_found bad_request : Sentinel

-- `response` errors carry the HTTP status and the text that `Error()` gives.
pub data GoError : Type 0 where
  sentinel : Sentinel → GoError
  message : GoString → GoError
  wrapped : GoString → GoError → GoError
  github_response : ℕ → GoString → GoError
  gitlab_response : Option ℕ → GoString → GoError
  gitlab_not_found : GoError
  bitbucket_status : GoString → GoError

pub data Result {ℓ} (T : Type ℓ) : Type ℓ where
  ok : T → Result T
  err : GoError → Result T

-- `if err != nil { return …, err }` before going on with the value.
infixl 5 ◌>>=◌
abbrev pub ◌>>=◌ {ℓ κ} : {T : Type ℓ} {U : Type κ} → Result T → (T → Result U) → Result U
ok x >>= next = next x
err failed >>= next = err failed

-- `(*Error).Error` for the structured ones: "code: message".
unfoldable pub sentinel_text : Sentinel → GoString
sentinel_text not_found = str "not found"
sentinel_text unauthorized = str "unauthorized"
sentinel_text git_server_not_found = str "git_server_not_found: The Git server was not found."
sentinel_text secret_not_found = str "secret_not_found: The secret was not found."
sentinel_text bad_request = str "bad_request: The request could not be processed."

-- `err.Error()`. The text of go-gitlab's `ErrNotFound` is its documented one.
unfoldable pub error_text : GoError → GoString
unfolding sentinel_text
error_text (sentinel s) = sentinel_text s
error_text (message m) = m
error_text (wrapped prefix e) = prefix ++ error_text e
error_text (github_response status text) = text
error_text (gitlab_response status text) = text
error_text gitlab_not_found = str "404 Not Found"
error_text (bitbucket_status status) = status

abbrev pub same_sentinel : Sentinel → Sentinel → Bool
same_sentinel not_found not_found = true
same_sentinel unauthorized unauthorized = true
same_sentinel git_server_not_found git_server_not_found = true
same_sentinel secret_not_found secret_not_found = true
same_sentinel bad_request bad_request = true
same_sentinel _ _ = false

-- `errors.Is(err, s)`: the chain of wrapped errors is searched.
unfoldable pub is_error : GoError → Sentinel → Bool
is_error (sentinel t) s = same_sentinel t s
is_error (wrapped prefix e) s = is_error e s
is_error _ s = false

-- `errors.Is(err, gitlab.ErrNotFound)`.
unfoldable pub is_gitlab_not_found : GoError → Bool
is_gitlab_not_found gitlab_not_found = true
is_gitlab_not_found (wrapped prefix e) = is_gitlab_not_found e
is_gitlab_not_found _ = false

-- `errors.As(err, &ghErr)`: the status of the first GitHub response in the chain.
unfoldable pub github_status : GoError → Option ℕ
github_status (github_response status text) = some status
github_status (wrapped prefix e) = github_status e
github_status _ = none

-- `errors.As(err, &errResp)` with a response: the status of the first GitLab error in the chain.
unfoldable pub gitlab_status : GoError → Option ℕ
gitlab_status (gitlab_response status text) = status
gitlab_status (wrapped prefix e) = gitlab_status e
gitlab_status _ = none

-- `errors.As(err, &statusErr)` for the Bitbucket client.
unfoldable pub bitbucket_status_text : GoError → Option GoString
bitbucket_status_text (bitbucket_status status) = some status
bitbucket_status_text (wrapped prefix e) = bitbucket_status_text e
bitbucket_status_text _ = none

-- Wrapping never changes what `errors.Is` finds.
pub is_error-wrapped :
    (prefix : GoString) (e : GoError) (s : Sentinel) → is_error (wrapped prefix e) s ≡ is_error e s
unfolding is_error
is_error-wrapped prefix e s = refl

-- A chain succeeds only if its first call did.
pub >>=-eq-ok {ℓ κ} :
    {T : Type ℓ} {U : Type κ} (first : Result T) (next : T → Result U) {u : U}
    → (first >>= next) ≡ ok u
    → (x : T) × (first ≡ ok x) × (next x ≡ ok u)
>>=-eq-ok (ok x) next h = (x, refl, h)
>>=-eq-ok (err e) next h = ground arith

pub Result-cases {ℓ} :
    {T : Type ℓ} (r : Result T) → ((x : T) × (r ≡ ok x)) ⊎ ((e : GoError) × (r ≡ err e))
Result-cases (ok x) = inl (x, refl)
Result-cases (err e) = inr (e, refl)

pub ok-injective {ℓ} : {T : Type ℓ} {x y : T} → ok x ≡ ok y → x ≡ y
ok-injective e = cc

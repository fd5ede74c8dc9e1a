-- ===== src/Api/Responses.antt =====
-- HTTP responses, and the mapping of errors that the handlers of internal/api share. The generated
-- response types `…200JSONResponse` etc. differ in their status and body only.
use gitfusion.Prelude.{ℕ, GoString, str, ℤ, itoa, if◌then◌else◌}
use gitfusion.GoError.{GoError, is_error, error_text, unauthorized, bad_request, not_found}

pub data Response (A : Type 0) : Type 0 where
  success : ℕ → A → Response A
  failure : ℕ → GoString → GoString → Response A

abbrev pub status_code : {A : Type 0} → Response A → ℕ
status_code (success n a) = n
status_code (failure n code text) = n

-- The code is the status in decimal, as by `fmt.Sprintf("%d", …)`.
unfoldable pub numbered : {A : Type 0} → ℕ → GoString → Response A
unfolding itoa
numbered status text = failure status (itoa (ℤ.pos status)) text

-- `jobsErrResponse`, `traceErrResponse`, `triggerErrResponse` and `listErrResponse` of
-- internal/api/pipeline_handler.go, which differ in their response types only.
unfoldable pub pipeline_error : {A : Type 0} → GoError → Response A
unfolding is_error error_text numbered
pipeline_error e =
    if is_error e unauthorized
    then numbered 401 (error_text e)
    else if is_error e bad_request
    then numbered 400 (error_text e)
    else if is_error e not_found
    then numbered 404 (error_text e)
    else numbered 500 (error_text e)

-- `errResponse` of internal/api/pullrequest_handler.go.
unfoldable pub pull_request_error : {A : Type 0} → GoError → Response A
unfolding is_error error_text numbered
pull_request_error e =
    if is_error e unauthorized
    then numbered 401 (error_text e)
    else if is_error e not_found
    then numbered 404 (error_text e)
    else numbered 500 (error_text e)

abbrev pub bad_request_response : {A : Type 0} → GoString → Response A
bad_request_response text = failure 400 (str "bad_request") text

-- `errResponse` of internal/api/repository_handler.go, which is called with an error only.
unfoldable pub repository_error : {A : Type 0} → GoError → Response A
unfolding is_error error_text
repository_error e =
    if is_error e not_found
    then failure 404 (str "not_found") (error_text e)
    else bad_request_response (error_text e)

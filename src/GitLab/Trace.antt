-- ===== src/GitLab/Trace.antt =====
-- `GetJobTrace` of internal/services/gitlab/gitlab.go: a bounded read of the job's log.
use gitfusion.Prelude.{
  ℕ, zero, suc, ◌+◌, ◌≡◌, refl, ap, Bool, true, false, not, ◌&&◌, Option, none, some, List, [], ◌∷◌,
  ◌++◌, length, length-take, take, take-of_le, ltb, GoString, str, nonempty, ◌==◌, nat_eq, ℤ, itoa,
  if◌then◌else◌, Bool-cases, inl, inr, arith,
}
use gitfusion.GoError.{GoError, Result, ok, err, wrapped}
use gitfusion.GitLab.Convert.{map_trace_status}

-- An HTTP response: its status, its body, and the error that ends the body early, if there is one.
pub record HttpResponse : Type 0 where
  pub status_code : ℕ
  pub body : GoString
  pub read_error : Option GoError

-- 4 MiB
unfoldable pub max_trace_bytes : ℕ
max_trace_bytes = 4194304

-- io.ReadAll(io.LimitReader(body, limit)): an error is met only if it comes before the limit.
unfoldable pub read_limited : ℕ → HttpResponse → Result GoString
read_limited limit resp = elim resp.read_error [
  | none ↦ ok (take limit resp.body)
  | some e ↦ if ltb (length resp.body) limit then err e else ok (take limit resp.body)
]

-- The content and whether it was cut.
cut_at : ℕ → GoString → GoString × Bool
cut_at limit read = if ltb limit (length read) then (take limit read, true) else (read, false)

-- strings.TrimRight(s, "/")
unfoldable pub trim_slashes : GoString → GoString
trim_slashes [] = []
trim_slashes (c ∷ s) =
    let rest = trim_slashes s in if c == b'/' && not (nonempty rest) then [] else c ∷ rest

-- The client's `PathEscape`, the construction of a request and its sending are parameters.
module _ (escape : GoString → GoString) (new_request : GoString → Option GoError)
    (send : GoString → GoString → Result HttpResponse) where
  pub trace_url : GoString → GoString → ℤ → GoString
  unfolding itoa trim_slashes
  trace_url url project job_id =
      trim_slashes url
      ++ str "/api/v4/projects/"
      ++ escape project
      ++ str "/jobs/"
      ++ itoa job_id
      ++ str "/trace"

  failed : GoString → GoString → ℤ → GoError → GoError
  unfolding itoa
  failed what project job_id e =
      wrapped (what ++ project ++ str " job " ++ itoa job_id ++ str ": ") e

  read_trace : GoString → ℤ → HttpResponse → Result (GoString × Bool)
  unfolding map_trace_status read_limited cut_at max_trace_bytes failed
  read_trace project job_id resp =
      if not (resp.status_code == 200)
      then err (map_trace_status resp.status_code project job_id)
      else (elim (read_limited (max_trace_bytes + 1) resp) [
        | err e ↦ err (failed (str "failed to read job trace for ") project job_id e)
        | ok read ↦ ok (cut_at max_trace_bytes read)
      ])

  unfoldable pub get_job_trace : GoString → GoString → GoString → ℤ → Result (GoString × Bool)
  unfolding trace_url failed read_trace
  get_job_trace url token project job_id = elim (new_request (trace_url url project job_id)) [
    | some e ↦ err (failed (str "failed to build job trace request for ") project job_id e)
    | none ↦ elim (send (trace_url url project job_id) token) [
      | err e ↦ err (failed (str "failed to fetch job trace for ") project job_id e)
      | ok resp ↦ read_trace project job_id resp
    ]
  ]

take-take : {A : Type 0} (n : ℕ) (xs : List A) → take n (take (suc n) xs) ≡ take n xs
take-take zero xs = refl
take-take (suc n) [] = refl
take-take (suc n) (x ∷ xs) = ap (λ t. x ∷ t) (take-take n xs)

cut_at_lem :
    (limit : ℕ) (body : GoString)
    → cut_at limit (take (suc limit) body) ≡ (take limit body, ltb limit (length body))
unfolding cut_at
cut_at_lem limit body = elim (Bool-cases (ltb limit (length body))) [
  | inl e ↦ ground (arith, e, length-take (suc limit) body, take-take limit body)
  | inr e ↦ ground (
    arith,
    e,
    length-take (suc limit) body,
    take-of_le (suc limit) body (ground (arith, e)),
    take-of_le limit body (ground (arith, e)),
  )
]

module _ (escape : GoString → GoString) (new_request : GoString → Option GoError)
    (send : GoString → GoString → Result HttpResponse) where
  -- If GitLab answers the request for the log with status 200 and its body is read without an error,
  -- the content is the log's first 4 MiB, and it is marked truncated exactly if the log is longer.
  pub get_job_trace_lem :
      (url token project : GoString) (job_id : ℤ) (body : GoString)
      → new_request (trace_url escape new_request send url project job_id) ≡ none
      → send (trace_url escape new_request send url project job_id) token
        ≡ ok (record { status_code = 200; body = body; read_error = none })
      → get_job_trace escape new_request send url token project job_id
        ≡ ok (take max_trace_bytes body, ltb max_trace_bytes (length body))
  unfolding get_job_trace read_trace read_limited max_trace_bytes
  get_job_trace_lem url token project job_id body h k =
      rw (h, get_job_trace) (rw (k, get_job_trace) (ap ok (cut_at_lem 4194304 body)))

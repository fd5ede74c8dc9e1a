-- ===== src/Bitbucket/Pipelines/Laws.antt =====
-- What Bitbucket's list of pipelines asks for and how it answers.
use gitfusion.Prelude.{
  ℕ, ◌≡◌, ◌≢◌, ◌<◌, ◌⊎◌, inl, inr, refl, ap, ◌∙◌, Bool, Bool-cases, true, false, ◌||◌, Option, none,
  some, [], ◌∷◌, ◌++◌, GoString, str, count, ◌==◌, nat_eq, string_eq, eq_str, eq_str_iff, arith,
}
use gitfusion.Common.{split_project}
use gitfusion.GoError.{GoError, Result, ok, err, is_error, not_found, unauthorized}
use gitfusion.Models.{Time, PipelineStatus, PipelineListOptions, GitServerSettings, status_string}
use gitfusion.Bitbucket.Types.{BitbucketPipeline, Answer}
use gitfusion.Bitbucket.Token.{decode_token}
use gitfusion.Bitbucket.Convert.{normalize_pipeline_status}
use gitfusion.Bitbucket.Query.{status_query, in_quotes}
use gitfusion.Bitbucket.Calls.{Get, found-is_error}
use gitfusion.Bitbucket.Pipelines.{
  is_brace, trim_left, trim_right, trim_braces, is_skipped, pipelines_page, pipelines_request,
  list_pipelines,
}

-- Every unified status but `skipped` has a condition on one field of a pipeline, the name of its state
-- or that of its result, and a pipeline that meets it, if it is completed where the field is the
-- result's, has that unified status.
pub status_query-normalize_pipeline_status :
    (s : PipelineStatus)
    → s ≢ PipelineStatus.skipped
    → (v : GoString) × (((status_query (status_string s) ≡ str "state.name=" ++ in_quotes v)
          × ((result : GoString) → normalize_pipeline_status v result ≡ s))
        ⊎ ((status_query (status_string s) ≡ str "state.result.name=" ++ in_quotes v)
            × (normalize_pipeline_status (str "COMPLETED") v ≡ s)))
unfolding status_query status_string normalize_pipeline_status eq_str
status_query-normalize_pipeline_status PipelineStatus.cancelled h =
    (str "STOPPED", inr (refl, refl))
status_query-normalize_pipeline_status PipelineStatus.failed h = (str "FAILED", inr (refl, refl))
status_query-normalize_pipeline_status PipelineStatus.manual h =
    (str "HALTED", inl (refl, λ r. refl))
status_query-normalize_pipeline_status PipelineStatus.pending h =
    (str "PENDING", inl (refl, λ r. refl))
status_query-normalize_pipeline_status PipelineStatus.running h =
    (str "IN_PROGRESS", inl (refl, λ r. refl))
status_query-normalize_pipeline_status PipelineStatus.skipped h = absurd (h refl)
status_query-normalize_pipeline_status PipelineStatus.success h =
    (str "SUCCESSFUL", inr (refl, refl))

no_brace :
    (c : ℕ) (s : GoString) → count b'{' (c ∷ s) ≡ 0 → count b'}' (c ∷ s) ≡ 0 → is_brace c ≡ false
unfolding count
no_brace c s h k = ground (arith, h, k)

trim_right-brace :
    (c : ℕ) (id : GoString)
    → count b'{' (c ∷ id) ≡ 0
    → count b'}' (c ∷ id) ≡ 0
    → trim_right (c ∷ id ++ b'}' ∷ []) ≡ c ∷ id
unfolding trim_right count
trim_right-brace c [] h k = ground (arith, h, k)
trim_right-brace c (d ∷ id) h k =
    rw (trim_right-brace d id (ground (arith, h)) (ground (arith, k))) refl

trim_right-kept :
    (c : ℕ) (s : GoString) {d : ℕ} {t : GoString}
    → trim_right s ≡ d ∷ t
    → trim_right (c ∷ s) ≡ c ∷ d ∷ t
unfolding trim_right
trim_right-kept c s h = rw h refl

trim_left-kept : (c : ℕ) (s : GoString) → is_brace c ≡ false → trim_left (b'{' ∷ c ∷ s) ≡ c ∷ s
unfolding trim_left
trim_left-kept c s h = ground (arith, h)

-- An identifier without braces is read back from the braces around it.
pub trim_braces-brace :
    (c : ℕ) (id : GoString)
    → count b'{' (c ∷ id) ≡ 0
    → count b'}' (c ∷ id) ≡ 0
    → trim_braces (b'{' ∷ (c ∷ id ++ b'}' ∷ [])) ≡ c ∷ id
unfolding trim_braces
trim_braces-brace c id h k =
    ap trim_left (trim_right-kept b'{' (c ∷ id ++ b'}' ∷ []) (trim_right-brace c id h k))
    ∙ trim_left-kept c id (no_brace c id h k)

or_false : (b : Bool) → (b || false) ≡ b
or_false true = refl
or_false false = refl

is_skipped-eq-false :
    (status : Option GoString) → status ≢ some (str "skipped") → is_skipped status ≡ false
is_skipped-eq-false none h = refl
is_skipped-eq-false (some status) h = elim (Bool-cases (status == str "skipped")) [
  | inl e ↦ absurd (h (ap some ((eq_str_iff status (str "skipped")).0 e)))
  | inr e ↦ e
]

module _ (parse_time : GoString → Result Time) (quote : GoString → GoString) where
  module _ (corrupt : GoString → GoError) (get : Get BitbucketPipeline) where
    -- If the status is not `skipped` and Bitbucket answers the request for the user of the token with an
    -- error status, the error is `not found` exactly for 404 and `unauthorized` exactly for 401.
    pub list_pipelines-refused :
        (project : GoString) (settings : GitServerSettings) (opts : PipelineListOptions)
        (login repo : GoString × GoString) (answer : Answer BitbucketPipeline)
        → decode_token corrupt settings.token ≡ ok login
        → split_project quote project ≡ ok repo
        → opts.status ≢ some (str "skipped")
        → get (pipelines_request parse_time quote corrupt get repo login opts) ≡ ok answer
        → 399 < answer.status
        → (e : GoError) × (list_pipelines parse_time quote corrupt get project settings opts
            ≡ err e)
          × (is_error e not_found ≡ (answer.status == 404))
          × (is_error e unauthorized ≡ (answer.status == 401))
    unfolding list_pipelines pipelines_page
    list_pipelines-refused project settings opts login repo answer decoded parts listed got bad =
        let (e, failed, a, b) =
          found-is_error (str "project " ++ project ++ str ": ") false
            (str "failed to list pipelines for " ++ project) answer bad in
        (
          e,
          rw (decoded, parts, is_skipped-eq-false opts.status listed, got, failed) refl,
          a,
          b ∙ or_false (answer.status == 401),
        )

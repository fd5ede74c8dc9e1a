-- ===== src/Bitbucket/Query.antt =====
-- The query text of `ListPipelines` of internal/services/bitbucket/bitbucket.go.
use gitfusion.Prelude.{
  ℕ, ◌≡◌, refl, Option, none, some, List, [], ◌∷◌, ◌++◌, append_assoc, GoString, str, nonempty,
  ◌==◌, nat_eq, string_eq, if◌then◌else◌, arith,
}

-- strings.ReplaceAll for a single byte
unfoldable pub replace_all : ℕ → GoString → GoString → GoString
replace_all c by [] = []
replace_all c by (d ∷ s) = let rest = replace_all c by s in if d == c then by ++ rest else d ∷ rest

abbrev pub backslash : ℕ
backslash = 92

abbrev pub quote_mark : ℕ
quote_mark = 34

-- The two replacements, of `\` first.
unfoldable pub sanitize : GoString → GoString
unfolding replace_all
sanitize ref =
    replace_all quote_mark (backslash ∷ quote_mark ∷ [])
      (replace_all backslash (backslash ∷ backslash ∷ []) ref)

-- `mapPipelineStatusToBitbucketQuery`, each value a field, a state and the marks around it
abbrev pub in_quotes : GoString → GoString
in_quotes s = quote_mark ∷ s ++ quote_mark ∷ []

unfoldable pub status_query : GoString → GoString
status_query status =
    if status == str "pending"
    then str "state.name=" ++ in_quotes (str "PENDING")
    else if status == str "running"
    then str "state.name=" ++ in_quotes (str "IN_PROGRESS")
    else if status == str "success"
    then str "state.result.name=" ++ in_quotes (str "SUCCESSFUL")
    else if status == str "failed"
    then str "state.result.name=" ++ in_quotes (str "FAILED")
    else if status == str "cancelled"
    then str "state.result.name=" ++ in_quotes (str "STOPPED")
    else if status == str "manual"
    then str "state.name=" ++ in_quotes (str "HALTED")
    else []

abbrev pub ref_part : Option GoString → List GoString
ref_part none = []
ref_part (some ref) =
    if nonempty ref
    then (str "target.ref_name=" ++ quote_mark ∷ (sanitize ref ++ quote_mark ∷ [])) ∷ []
    else []

abbrev pub status_part : Option GoString → List GoString
status_part none = []
status_part (some status) = if nonempty (status_query status) then status_query status ∷ [] else []

-- strings.Join(parts, " AND ")
abbrev pub join_and : List GoString → GoString
join_and [] = []
join_and (p ∷ []) = p
join_and (p ∷ q ∷ r) = p ++ str " AND " ++ join_and (q ∷ r)

abbrev pub query_of : List GoString → Option GoString
query_of [] = none
query_of (p ∷ r) = some (join_and (p ∷ r))

-- The parameter `q`, if there is one.
unfoldable pub pipelines_query : Option GoString → Option GoString → Option GoString
unfolding sanitize status_query
pipelines_query ref status = query_of (ref_part ref ++ status_part status)

-- How a quoted text of the query language is read after its opening mark: a backslash takes the
-- next byte as it is, and the first mark without one ends the text.
unfoldable pub read_quoted : GoString → Option (GoString × GoString)
read_quoted [] = none
read_quoted (c ∷ []) = if c == quote_mark then some ([], []) else none
read_quoted (c ∷ d ∷ s) =
    if c == quote_mark
    then some ([], d ∷ s)
    else if c == backslash
    then (elim (read_quoted s) [ none ↦ none | some (t, rest) ↦ some (d ∷ t, rest) ])
    else (elim (read_quoted (d ∷ s)) [ none ↦ none | some (t, rest) ↦ some (c ∷ t, rest) ])

escape_byte : ℕ → GoString
escape_byte c =
    if c == backslash
    then backslash ∷ backslash ∷ []
    else if c == quote_mark
    then backslash ∷ quote_mark ∷ []
    else c ∷ []

sanitize-cons : (c : ℕ) (s : GoString) → sanitize (c ∷ s) ≡ escape_byte c ++ sanitize s
unfolding sanitize escape_byte
sanitize-cons c s = ground arith

read_quoted-mark :
    (rest : GoString) → read_quoted (sanitize [] ++ quote_mark ∷ rest) ≡ some ([], rest)
unfolding read_quoted sanitize replace_all
read_quoted-mark [] = refl
read_quoted-mark (d ∷ rest) = refl

read_quoted-escape_byte :
    (c : ℕ) (s t rest : GoString)
    → read_quoted s ≡ some (t, rest)
    → read_quoted (escape_byte c ++ s) ≡ some (c ∷ t, rest)
unfolding read_quoted escape_byte
read_quoted-escape_byte c [] t rest h = absurd (ground arith)
read_quoted-escape_byte c (d ∷ s) t rest h = ground arith

-- A sanitized ref ends exactly where the quotation mark after it stands, whatever the ref and the
-- rest of the query are, and is read back: no ref can add a condition of its own to the query.
pub read_quoted-sanitize :
    (ref rest : GoString) → read_quoted (sanitize ref ++ quote_mark ∷ rest) ≡ some (ref, rest)
unfolding read_quoted
read_quoted-sanitize [] rest = read_quoted-mark rest
read_quoted-sanitize (c ∷ ref) rest =
    rw (sanitize-cons c ref, append_assoc (escape_byte c) (sanitize ref) (quote_mark ∷ rest))
      (read_quoted-escape_byte c (sanitize ref ++ quote_mark ∷ rest) ref rest
        (read_quoted-sanitize ref rest))

-- ===== src/Bitbucket/Lists.antt =====
-- `GetRepository`, `ListRepositories`, `ListUserOrganizations` and `ListBranches` of
-- internal/services/bitbucket/bitbucket.go.
use gitfusion.Prelude.{
  ℕ, ◌+◌, ◌≤◌, ◌≡◌, refl, ap, ◌∙◌, true, Option, none, some, List, [], ◌∷◌, ◌++◌, map, length,
  concat, GoString, str, nat_eq, ℤ, pos, int_max, arith,
}
use gitfusion.GoError.{GoError, Result, ok, err, wrapped, ◌>>=◌}
use gitfusion.Models.{Repository, Organization, Branch, GitServerSettings, ListOptions}
use gitfusion.Scan.{BranchesPage, scan_bitbucket}
use gitfusion.Scan.Range.{range_scan, converted, range_yield, range_scan-of_items}
use gitfusion.Scan.Branches.{Serves, scan_bitbucket-deliver}
use gitfusion.Bitbucket.Types.{BitbucketRepository, Workspace}
use gitfusion.Bitbucket.Token.{decode_token}
use gitfusion.Bitbucket.Convert.{convert_repository, library_error}
use gitfusion.Bitbucket.Calls.{api_url, Get, checked}

-- An error with a text before it.
abbrev pub or_wrapped : {T : Type 0} → GoString → Result T → Result T
or_wrapped text (ok x) = ok x
or_wrapped text (err e) = err (wrapped text e)

pub or_wrapped-eq-ok :
    {T : Type 0} (text : GoString) (r : Result T) {x : T} → or_wrapped text r ≡ ok x → r ≡ ok x
or_wrapped-eq-ok text (ok y) h = h
or_wrapped-eq-ok text (err e) h = ground arith

-- The calls of the client library that are made: an owner and a repository or a name, and for
-- branches the number of a page, give a value or an error.
pub record Library : Type 0 where
  pub get : GoString → GoString → Result BitbucketRepository
  pub list_for_account : GoString → Option GoString → Result (List BitbucketRepository)
  pub branches : GoString → GoString → ℤ → Result (BranchesPage GoString)

-- A library call's error, by the texts for a missing object and for any other failure.
abbrev pub called : {T U : Type 0} → GoString → GoString → (T → U) → Result T → Result U
unfolding library_error
called missing failed f (ok x) = ok (f x)
called missing failed f (err e) = err (library_error missing failed e)

branch_error : GoString → GoString → GoError → GoError
unfolding library_error
branch_error owner repo =
    library_error (str "repository " ++ owner ++ str "/" ++ repo ++ str ": ")
      (str "failed to list branches: ")

branch_of : GoString → Option Branch
branch_of name = some (record { name = name })

converted-branch_of :
    (wrap_error : GoError → GoError) (names : List GoString)
    → converted wrap_error branch_of names ≡ map (λ n. record { name = n }) names
unfolding converted branch_of
converted-branch_of wrap_error [] = refl
converted-branch_of wrap_error (n ∷ names) =
    ap (λ l. record { name = n } ∷ l) (converted-branch_of wrap_error names)

organization_of : Workspace → Organization
organization_of w = record { avatar_url = none; id = w.uuid; name = w.slug }

-- The parameters are the error of the base64 decoder and `bitbucket.NewBasicAuth`.
module _ (corrupt : GoString → GoError)
    (new_basic_auth : GoString → GoString → Result Library) where
  client_of : GoString × GoString → Result Library
  client_of (user, password) =
      or_wrapped (str "failed to create bitbucket client: ") (new_basic_auth user password)

  unfoldable pub get_repository : GoString → GoString → GitServerSettings → Result Repository
  unfolding decode_token client_of convert_repository
  get_repository owner repo settings = do
    login ← decode_token corrupt settings.token
    client ← client_of login
    called (str "repository " ++ owner ++ str "/" ++ repo ++ str " ")
        (str "failed to get repository " ++ owner ++ str "/" ++ repo ++ str ": ") convert_repository
        (client.get owner repo)

  unfoldable pub list_repositories :
      GoString → GitServerSettings → ListOptions → Result (List Repository)
  unfolding decode_token client_of convert_repository
  list_repositories account settings opts = do
    login ← decode_token corrupt settings.token
    client ← client_of login
    called (str "account " ++ account ++ str ": ")
        (str "failed to list repositories for account " ++ account ++ str ": ")
        (map convert_repository) (client.list_for_account account opts.name)

  -- `none` means that the fuel of the iterator ran out.
  branches_of : ℕ → GoString → GoString → Result Library → Option (Result (List Branch))
  unfolding range_scan scan_bitbucket branch_error branch_of
  branches_of fuel owner repo (err e) = some (err e)
  branches_of fuel owner repo (ok client) =
      range_scan (branch_error owner repo) branch_of
        (scan_bitbucket fuel (client.branches owner repo) (pos 0))

  unfoldable pub list_branches :
      ℕ → GoString → GoString → GitServerSettings → Option (Result (List Branch))
  unfolding decode_token client_of branches_of
  list_branches fuel owner repo settings = branches_of fuel owner repo (
      or_wrapped (str "failed to decode bitbucket token: ") (decode_token corrupt settings.token)
      >>= client_of)

-- The parameters are the error of the base64 decoder and the HTTP client.
module _ (corrupt : GoString → GoError) (get : Get Workspace) where
  unfoldable pub list_user_organizations : GitServerSettings → Result (List Organization)
  unfolding decode_token checked organization_of
  list_user_organizations settings = do
    login ← decode_token corrupt settings.token
    answer ← or_wrapped (str "failed to list workspaces: ") (
        get (record {
          url = api_url ++ str "/user/workspaces";
          username = login.0;
          password = login.1;
          query = [];
        }))
    page ← checked true (str "failed to list workspaces") answer
    ok (map organization_of page.values)

module _ (corrupt : GoString → GoError)
    (new_basic_auth : GoString → GoString → Result Library) where
  -- If the token holds a user and a password for which there is a client, and the API serves the
  -- branches of the repository in pages, then with a step for each page the answer is the branches of
  -- all the pages in order.
  pub list_branches_complete :
      (fuel : ℕ) (owner repo user password : GoString) (settings : GitServerSettings)
      (client : Library) (names : List GoString) (rest : List (List GoString))
      → decode_token corrupt settings.token ≡ ok (user, password)
      → new_basic_auth user password ≡ ok client
      → client.branches owner repo (pos 0) ≡ client.branches owner repo (pos 1)
      → Serves (client.branches owner repo) 1 names rest
      → length rest + 1 ≤ fuel
      → 1 + length rest ≤ int_max
      → list_branches corrupt new_basic_auth fuel owner repo settings
        ≡ some (ok (map (λ n. record { name = n }) (concat (names ∷ rest))))
  unfolding list_branches client_of branches_of
  list_branches_complete fuel owner repo user password settings client names rest token login same
        serves h k =
      rw (token, login)
        (range_scan-of_items (branch_error owner repo) branch_of
            (scan_bitbucket fuel (client.branches owner repo) (pos 0)) (concat (names ∷ rest))
            (scan_bitbucket-deliver (range_yield (branch_error owner repo) branch_of)
              (client.branches owner repo) fuel names rest ([], none) h k same serves)
          ∙ ap (λ l. some (ok l))
              (converted-branch_of (branch_error owner repo) (concat (names ∷ rest))))

-- ===== src/GitHub/Lists.antt =====
-- `ListRepositories`, `ListUserOrganizations` and `ListBranches` of internal/services/github/github.go.
use gitfusion.Prelude.{
  ℕ, ◌≡◌, refl, ap, Bool, Option, none, some, List, [], ◌∷◌, ◌++◌, map, GoString, str, ℤ, pos, itoa,
  if◌then◌else◌,
}
use gitfusion.Common.{value_or_empty}
use gitfusion.GoError.{GoError, Result, ok, err, wrapped}
use gitfusion.Models.{Branch, Organization}
use gitfusion.Scan.{scan_github}
use gitfusion.Scan.Laws.{events, until_error}
use gitfusion.Scan.Range.{range_scan, converted, reply, range_scan-scan_github}
use gitfusion.GitHub.Types.{User}
use gitfusion.GitHub.Convert.{int_or_zero, github_error}

-- A page of items and the number of the next page, for a page number and a page size.
abbrev pub Pages : Type 0 → Type 0
Pages T = ℤ → ℤ → Result (List T × ℤ)

-- The default page size of `ScanGitHubList`.
abbrev pub scan_page_size : ℤ
scan_page_size = pos 100

pub branch_error : GoString → GoString → GoError → GoError
unfolding github_error
branch_error owner repo e =
    github_error (str "repository " ++ owner ++ str "/" ++ repo ++ str ": ")
      (str "failed to list branches: ") e

-- A branch is read by its name, a pointer.
abbrev pub branch_of : Option GoString → Option Branch
branch_of name = some (record { name = value_or_empty name })

unfoldable pub list_branches :
    ℕ → Pages (Option GoString) → GoString → GoString → Option (Result (List Branch))
unfolding range_scan scan_github branch_error
list_branches fuel pages owner repo =
    range_scan (branch_error owner repo) branch_of (scan_github fuel pages scan_page_size)

-- If the pages end within the fuel, the answer is their branches in order, or the first error.
pub list_branches-reply :
    (fuel : ℕ) (pages : Pages (Option GoString)) (owner repo : GoString)
    (es : List (Result (Option GoString)))
    → events fuel (λ page. pages page scan_page_size) (pos 0) ≡ some es
    → list_branches fuel pages owner repo
      ≡ some (reply (branch_error owner repo) branch_of [] (until_error es))
unfolding list_branches
list_branches-reply fuel pages owner repo es h =
    range_scan-scan_github (branch_error owner repo) branch_of fuel pages scan_page_size es h

pub organization_of_user : User → Organization
unfolding itoa
organization_of_user u = record {
  avatar_url = u.avatar_url;
  id = itoa (int_or_zero u.id);
  name = value_or_empty u.login;
}

-- A membership is read by its organization, a pointer; one without is passed over.
pub membership_of : Option User → Option Organization
unfolding organization_of_user
membership_of none = none
membership_of (some u) = some (organization_of_user u)

user_organization : Result User → Result Organization
unfolding organization_of_user
user_organization (err e) = err (wrapped (str "failed to get current user: ") e)
user_organization (ok u) = ok (organization_of_user u)

-- `errgroup`: the error is that of the goroutine that fails first.
join_group : Bool → Result Organization → Result (List Organization) → Result (List Organization)
join_group user_first (ok own) (ok orgs) = ok (orgs ++ own ∷ [])
join_group user_first (ok own) (err e) = err e
join_group user_first (err e) (ok orgs) = err e
join_group user_first (err e) (err f) = if user_first then err e else err f

-- The memberships are those that the scan sees, also where the group's context ends it.
unfoldable pub list_user_organizations :
    ℕ → Bool → Result User → Pages (Option User) → Option (Result (List Organization))
unfolding range_scan scan_github membership_of user_organization join_group
list_user_organizations fuel user_first user pages =
    elim (range_scan (wrapped (str "failed to list organizations: ")) membership_of
      (scan_github fuel pages scan_page_size)) [
        | none ↦ none
        | some orgs ↦ some (join_group user_first (user_organization user) orgs)
      ]

-- The organizations that memberships point to.
abbrev pub present : List (Option User) → List User
present [] = []
present (none ∷ members) = present members
present (some x ∷ members) = x ∷ present members

map-converted :
    {B : Type 0} (f : Organization → B) (g : User → B) (members : List (Option User)) (u : User)
    → ((x : User) → f (organization_of_user x) ≡ g x)
    → map f (
        converted (wrapped (str "failed to list organizations: ")) membership_of members
        ++ organization_of_user u ∷ [])
      ≡ map g (present members ++ u ∷ [])
unfolding converted membership_of
map-converted f g [] u same = ap (λ b. b ∷ []) (same u)
map-converted f g (none ∷ members) u same = map-converted f g members u same
map-converted f g (some x ∷ members) u same = rw (same x, map-converted f g members u same) refl

-- If the user is found and the pages of memberships end within the fuel without an error, the answer
-- has one organization for each membership that has one, in order, and then one for the user; each has
-- the login as its name, the number in decimal as its id, and the avatar of what it stands for.
pub list_user_organizations_lem :
    (fuel : ℕ) (user_first : Bool) (u : User) (pages : Pages (Option User))
    (es : List (Result (Option User))) (members : List (Option User))
    → events fuel (λ page. pages page scan_page_size) (pos 0) ≡ some es
    → until_error es ≡ (members, none)
    → (orgs : List Organization) × (list_user_organizations fuel user_first (ok u) pages
        ≡ some (ok orgs))
      × (map (λ o. o.name) orgs ≡ map (λ x. value_or_empty x.login) (present members ++ u ∷ []))
      × (map (λ o. o.id) orgs ≡ map (λ x. itoa (int_or_zero x.id)) (present members ++ u ∷ []))
      × (map (λ o. o.avatar_url) orgs ≡ map (λ x. x.avatar_url) (present members ++ u ∷ []))
unfolding list_user_organizations reply organization_of_user
list_user_organizations_lem fuel user_first u pages es members h k = (
  converted (wrapped (str "failed to list organizations: ")) membership_of members
      ++ organization_of_user u ∷ [],
  rw
      (
        range_scan-scan_github (wrapped (str "failed to list organizations: ")) membership_of fuel
            pages scan_page_size es h,
        k,
        list_user_organizations,
      )
      refl,
  map-converted (λ o. o.name) (λ x. value_or_empty x.login) members u (λ x. refl),
  map-converted (λ o. o.id) (λ x. itoa (int_or_zero x.id)) members u (λ x. refl),
  map-converted (λ o. o.avatar_url) (λ x. x.avatar_url) members u (λ x. refl),
)

-- ===== src/Bitbucket/Calls.antt =====
-- The requests that internal/services/bitbucket/bitbucket.go sends by its HTTP client, and how it
-- reads the responses.
use mathlib.Core.Path.{subst}
use Prim.Native.Nat.{◌/◌, ◌%◌}
use gitfusion.Prelude.{
  ℕ, ◌+◌, ◌-◌, ◌<◌, ◌≤◌, ◌≡◌, All, Bool-cases, inl, inr, Bool, ◌&&◌, ◌||◌, List, [], ◌∷◌, ◌++◌,
  GoString, str, ◌==◌, nat_eq, ltb, leb, itoa_nat, if◌then◌else◌, arith,
}
use gitfusion.GoError.{
  GoError, Result, ok, err, message, wrapped, ◌>>=◌, >>=-eq-ok, ok-injective, is_error, sentinel,
  unauthorized, not_found,
}
use gitfusion.Bitbucket.Types.{Answer, Page}

-- The bytes that url.PathEscape leaves as they are.
unfoldable pub stays : ℕ → Bool
stays c =
    (leb b'a' c && leb c b'z')
    || (leb b'A' c && leb c b'Z')
    || (leb b'0' c && leb c b'9')
    || c == b'-'
    || c == b'_'
    || c == b'.'
    || c == b'~'
    || c == b'$'
    || c == b'&'
    || c == b'+'
    || c == b':'
    || c == b'='
    || c == b'@'

unfoldable pub hex : ℕ → ℕ
hex n = if ltb n 10 then b'0' + n else b'A' + n - 10

-- url.PathEscape
unfoldable pub path_escape : GoString → GoString
unfolding stays hex
path_escape [] = []
path_escape (c ∷ s) =
    let rest = path_escape s in
    if stays c then c ∷ rest else b'%' ∷ hex (c / 16) ∷ hex (c % 16) ∷ rest

-- `defaultBitbucketAPIURL`
abbrev pub api_url : GoString
api_url = str "https://api.bitbucket.org/2.0"

-- The path of a part of a repository.
unfoldable pub repository_url : GoString → GoString → GoString → GoString
unfolding path_escape
repository_url owner repo part =
    api_url ++ str "/repositories/" ++ path_escape owner ++ b'/' ∷ (path_escape repo ++ b'/' ∷ part)

-- The values of the query parameters, in the order in which they are set.
pub record Request : Type 0 where
  pub url : GoString
  pub username : GoString
  pub password : GoString
  pub query : List (GoString × GoString)

-- The client: a response, or an error of the transport or of the decoding.
abbrev pub Get : Type 0 → Type 0
Get V = Request → Result (Answer V)

abbrev pub status_error : GoString → ℕ → GoString → GoError
unfolding itoa_nat
status_error failed status text =
    message (failed ++ str ": status " ++ itoa_nat status ++ str ", body: " ++ text)

-- What follows the requests: the status of refused credentials, 401 and for most calls also 403, and
-- any other error status.
unfoldable pub checked : {V : Type 0} → Bool → GoString → Answer V → Result (Page V)
unfolding status_error
checked forbidden failed answer =
    if answer.status == 401 || (forbidden && answer.status == 403)
    then err (wrapped (str "invalid credentials: ") (sentinel unauthorized))
    else if ltb 399 answer.status
    then err (status_error failed answer.status answer.text)
    else ok answer.page

-- A status for a missing object is tested first.
unfoldable pub found : {V : Type 0} → GoString → Bool → GoString → Answer V → Result (Page V)
unfolding checked
found missing forbidden failed answer =
    if answer.status == 404
    then err (wrapped missing (sentinel not_found))
    else checked forbidden failed answer

-- The loop over the values returns at the first error.
unfoldable pub each : {V U : Type 0} → (V → Result U) → List V → Result (List U)
each f [] = ok []
each f (x ∷ xs) = do u ← f x; us ← each f xs; ok (u ∷ us)

-- An error status gives an error, which is `not found` exactly for 404 and `unauthorized` exactly for
-- 401 and, where it counts as refused credentials, 403.
pub found-is_error :
    {V : Type 0} (missing : GoString) (forbidden : Bool) (failed : GoString) (answer : Answer V)
    → 399 < answer.status
    → (e : GoError) × (found missing forbidden failed answer ≡ err e)
      × (is_error e not_found ≡ (answer.status == 404))
      × (is_error e unauthorized ≡ (answer.status == 401 || (forbidden && answer.status == 403)))
unfolding found checked is_error
found-is_error missing forbidden failed answer h = elim (Bool-cases (answer.status == 404)) [
  | inl e ↦ (
    wrapped missing (sentinel not_found),
    ground (arith, e),
    ground (arith, e),
    ground (arith, e),
  )
  | inr e ↦ elim (Bool-cases (answer.status == 401 || (forbidden && answer.status == 403))) [
    | inl u ↦ (
      wrapped (str "invalid credentials: ") (sentinel unauthorized),
      ground (arith, e, u),
      ground (arith, e, u),
      ground (arith, e, u),
    )
    | inr u ↦ (
      status_error failed answer.status answer.text,
      ground (arith, e, u),
      ground (arith, e, u),
      ground (arith, e, u),
    )
  ]
]

pub found-eq-ok :
    {V : Type 0} (missing : GoString) (forbidden : Bool) (failed : GoString) (answer : Answer V)
    (page : Page V)
    → found missing forbidden failed answer ≡ ok page
    → (answer.status ≤ 399) × (answer.page ≡ page)
unfolding found checked
found-eq-ok missing forbidden failed answer page h = ground arith

pub each-All :
    {V U : Type 0} (f : V → Result U) (P : V → Type 0) (Q : U → Type 0) (xs : List V) (us : List U)
    → ((x : V) (u : U) → P x → f x ≡ ok u → Q u)
    → each f xs ≡ ok us
    → All P xs
    → All Q us
unfolding each
each-All f P Q [] us one h all = subst (All Q) (ok-injective h) tt
each-All f P Q (x ∷ xs) us one h all =
    let (u, first, more) = >>=-eq-ok (f x) (λ u. each f xs >>= λ us'. ok (u ∷ us')) h in
    let (rest, others, last) = >>=-eq-ok (each f xs) (λ us'. ok (u ∷ us')) more in
    subst (All Q) (ok-injective last) (one x u all.0 first, each-All f P Q xs rest one others all.1)

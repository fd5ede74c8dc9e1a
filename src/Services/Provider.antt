-- ===== src/Services/Provider.antt =====
-- The providers that every multi-provider service registers by name (`providers` in the
-- constructors of internal/services/*/*_provider.go).
use gitfusion.Prelude.{
  Option, none, some, ◌++◌, GoString, str, ◌==◌, nat_eq, string_eq, if◌then◌else◌,
}
use gitfusion.GoError.{GoError, message}

pub data Provider : Type 0 where
  gitlab github bitbucket : Provider

-- The lookup `m.providers[settings.GitProvider]`.
unfoldable pub provider_of : GoString → Option Provider
provider_of name =
    if name == str "gitlab"
    then some gitlab
    else if name == str "github"
    then some github
    else if name == str "bitbucket"
    then some bitbucket
    else none

-- The error of the services for branches, pull requests, repositories and organizations.
unfoldable pub unsupported : GoString → GoError
unsupported name = message (str "unsupported provider: " ++ name)

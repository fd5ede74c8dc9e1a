-- ===== src/GitHub/Types.antt =====
-- The records of google/go-github that internal/services/github reads: every field is a pointer.
use gitfusion.Prelude.{Bool, Option, GoString, ℤ}
use gitfusion.Models.{Time}

pub record User : Type 0 where
  pub id : Option ℤ
  pub login : Option GoString
  pub avatar_url : Option GoString

pub record GithubRepository : Type 0 where
  pub id : Option ℤ
  pub name : Option GoString
  pub owner : Option User
  pub html_url : Option GoString
  pub default_branch : Option GoString
  pub description : Option GoString
  pub is_private : Option Bool

pub record PullRequestBranch : Type 0 where
  pub ref : Option GoString
  pub sha : Option GoString

pub record GithubPullRequest : Type 0 where
  pub id : Option ℤ
  pub number : Option ℤ
  pub title : Option GoString
  pub state : Option GoString
  pub body : Option GoString
  pub html_url : Option GoString
  pub head : Option PullRequestBranch
  pub base : Option PullRequestBranch
  pub merged_at : Option Time
  pub created_at : Option Time
  pub updated_at : Option Time
  pub draft : Option Bool
  pub user : Option User

pub record WorkflowRun : Type 0 where
  pub id : Option ℤ
  pub status : Option GoString
  pub conclusion : Option GoString
  pub head_branch : Option GoString
  pub head_sha : Option GoString
  pub html_url : Option GoString
  pub created_at : Option Time
  pub updated_at : Option Time
  pub repository : Option GithubRepository
  pub event : Option GoString

-- The page numbers that the client reads from the response's `Link` header; 0 if there is none.
pub record Response : Type 0 where
  pub next_page : ℤ
  pub last_page : ℤ

-- ===== src/Bitbucket/Types.antt =====
-- The values that internal/services/bitbucket/bitbucket.go reads from responses of the Bitbucket API.
use gitfusion.Prelude.{ℕ, Bool, Option, List, GoString, ℤ}

-- The fields that are read of a repository of the client library. Those of its maps `Owner` and
-- `Links` are there only if they are of the expected types.
pub record BitbucketRepository : Type 0 where
  pub uuid : GoString
  pub name : GoString
  pub description : GoString
  pub main_branch : GoString
  pub owner_username : Option GoString
  pub html_href : Option GoString

pub record Workspace : Type 0 where
  pub uuid : GoString
  pub slug : GoString

pub record BitbucketPullRequest : Type 0 where
  pub id : ℤ
  pub title : GoString
  pub state : GoString
  pub description : GoString
  pub draft : Bool
  pub author_name : GoString
  pub author_uuid : GoString
  pub author_avatar : GoString
  pub source_branch : GoString
  pub source_hash : GoString
  pub destination_branch : GoString
  pub html_href : GoString
  pub created_on : GoString
  pub updated_on : GoString

pub record BitbucketPipeline : Type 0 where
  pub uuid : GoString
  pub state_name : GoString
  pub result_name : Option GoString
  pub ref_name : GoString
  pub commit_hash : GoString
  pub trigger_name : GoString
  pub created_on : GoString
  pub completed_on : GoString
  pub html_href : GoString

-- A page of values, decoded from a successful response.
pub record Page (V : Type 0) : Type 0 where
  pub size : ℤ
  pub values : List V

-- An HTTP response: its status, its text and the decoded page.
pub record Answer (V : Type 0) : Type 0 where
  pub status : ℕ
  pub text : GoString
  pub page : Page V

-- ===== src/Adapters/Github.antt =====
-- GitHub's webhooks (VerifyWebhook and the parse functions of internal/adapters/vcsgithub/source.go,
-- internal/schemas/webhook_github.go), and the reviews that are posted to it.
use codereviewer.Prelude.{
  Bool, false, ◌||◌, ◌&&◌, Option, none, some, [], ◌∷◌, ◌++◌, Text, codes, text_eq, is_empty, cut,
  if◌then◌else◌,
}
use codereviewer.Prelude.Int.{ℤ, pos, ltb_ℤ}
use codereviewer.Ports.{
  Result, ok, err, wrap, PrRef, RepoRef, BotComment, pull_request, push, review_comment, reaction,
  ping, WebhookEvent,
}
use codereviewer.Adapters.Signature.{Hashing, verify_signature}

pub record GithubRepoRef : Type 0 where
  pub name : Text
  pub owner_login : Text
  pub default_branch : Text

pub record GithubPullRequestEvent : Type 0 where
  pub action : Text
  pub number : ℤ
  pub draft : Bool
  pub head_sha : Text
  pub repository : GithubRepoRef

pub record GithubPushEvent : Type 0 where
  pub ref : Text
  pub before : Text
  pub after : Text
  pub repository : GithubRepoRef

pub record GithubReviewCommentEvent : Type 0 where
  pub comment_id : ℤ
  pub in_reply_to_id : ℤ
  pub body : Text
  pub user_login : Text
  pub user_type : Text
  pub number : ℤ
  pub head_sha : Text
  pub repository : GithubRepoRef

pub record GithubReactionEvent : Type 0 where
  pub content : Text
  pub user_login : Text
  pub comment_id : ℤ

-- encoding/json, on the bodies of events
pub record GithubJson : Type 0 where
  pub decode_pull_request : Text → Result GithubPullRequestEvent
  pub decode_push : Text → Result GithubPushEvent
  pub decode_comment : Text → Result GithubReviewCommentEvent
  pub decode_reaction : Text → Result GithubReactionEvent

unfoldable pub github_repo_id : GithubRepoRef → Text
github_repo_id r = r.owner_login ++ b'/' ∷ r.name

unfoldable pub github_repo : GithubRepoRef → RepoRef
github_repo r = record {
  tenant_id = [];
  repo_id = github_repo_id r;
  owner = r.owner_login;
  name = r.name;
  default_branch = r.default_branch;
  enabled = false;
  provider = [];
}

unfoldable pub github_ref : GithubRepoRef → ℤ → Text → PrRef
github_ref r number sha = record {
  tenant_id = [];
  repo_id = github_repo_id r;
  pr_number = number;
  head_sha = sha;
  provider = [];
}

unfoldable pub github_pull_request : Result GithubPullRequestEvent → Result WebhookEvent
github_pull_request (err e) = err (wrap (codes "parse pull_request") e)
github_pull_request (ok p) = ok (record {
  kind = pull_request;
  pull_request_payload = some (record {
    action = p.action;
    ref = github_ref p.repository p.number p.head_sha;
    repo = github_repo p.repository;
    is_draft = p.draft;
  });
  push_payload = none;
  comment_payload = none;
  reaction_payload = none;
})

unfoldable pub github_push : Result GithubPushEvent → Result WebhookEvent
github_push (err e) = err (wrap (codes "parse push") e)
github_push (ok p) = ok (record {
  kind = push;
  pull_request_payload = none;
  push_payload = some (record {
    repo = github_repo p.repository;
    ref = p.ref;
    before_sha = p.before;
    head_sha = p.after;
  });
  comment_payload = none;
  reaction_payload = none;
})

unfoldable pub github_comment : Result GithubReviewCommentEvent → Result WebhookEvent
github_comment (err e) = err (wrap (codes "parse review_comment") e)
github_comment (ok p) = ok (record {
  kind = review_comment;
  pull_request_payload = none;
  push_payload = none;
  comment_payload = some (record {
    ref = github_ref p.repository p.number p.head_sha;
    author_id = p.user_login;
    body = p.body;
    is_bot = text_eq p.user_type (codes "Bot");
    in_reply_to_id = p.in_reply_to_id;
  });
  reaction_payload = none;
})

unfoldable pub github_reaction : Result GithubReactionEvent → Result WebhookEvent
github_reaction (err e) = err (wrap (codes "parse reaction") e)
github_reaction (ok p) = ok (record {
  kind = reaction;
  pull_request_payload = none;
  push_payload = none;
  comment_payload = none;
  reaction_payload =
      some (record {
        comment_external_id = p.comment_id;
        reaction = p.content;
        user_id = p.user_login;
      });
})

abbrev pub github_ping : WebhookEvent
github_ping = record {
  kind = ping;
  pull_request_payload = none;
  push_payload = none;
  comment_payload = none;
  reaction_payload = none;
}

module _ (hashing : Hashing) (json : GithubJson) (secret : Text) where
  unfoldable pub parse_github_event : Text → Text → Result WebhookEvent
  parse_github_event event body =
      if text_eq event (codes "pull_request")
      then github_pull_request (json.decode_pull_request body)
      else if text_eq event (codes "push")
      then github_push (json.decode_push body)
      else if text_eq event (codes "pull_request_review_comment")
      then github_comment (json.decode_comment body)
      else if text_eq event (codes "reaction")
      then github_reaction (json.decode_reaction body)
      else if text_eq event (codes "ping")
      then ok github_ping
      else err (codes "unsupported webhook event")

  -- a request is its headers, by name, and its body
  unfoldable pub verify_github : (Text → Text) → Text → Result WebhookEvent
  verify_github headers body =
      if is_empty (headers (codes "X-Hub-Signature-256"))
      then err (codes "missing X-Hub-Signature-256 header")
      else if verify_signature hashing secret body (headers (codes "X-Hub-Signature-256"))
      then parse_github_event (headers (codes "X-GitHub-Event")) body
      else err (codes "invalid webhook signature")

abbrev pub both_parts : Option (Text × Text) → Option (Text × Text)
both_parts none = none
both_parts (some (owner, name)) =
    if is_empty owner || is_empty name then none else some (owner, name)

-- the owner and the name of a repository, or `none` if one is empty
unfoldable pub parse_repo_id : Text → Option (Text × Text)
parse_repo_id id = both_parts (cut id b'/')

-- an inline comment as the API takes it: a range, or one line
pub record DraftReviewComment : Type 0 where
  pub path : Text
  pub body : Text
  pub start_line : Option ℤ
  pub line : ℤ

unfoldable pub draft_comment : BotComment → DraftReviewComment
draft_comment c = record {
  path = c.file;
  body = c.body;
  start_line =
      if ltb_ℤ (pos 0) c.start_line && ltb_ℤ c.start_line c.end_line
      then some c.start_line
      else none;
  line = c.end_line;
}

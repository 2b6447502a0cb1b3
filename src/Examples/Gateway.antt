-- ===== src/Examples/Gateway.antt =====
-- The webhook gateway on concrete inputs.
use codereviewer.Prelude.{
  ℕ, ◌+◌, ◌≡◌, ◌⊎◌, refl, true, false, none, some, List, [], ◌∷◌, Text, codes, tally, ◌&&◌, All,
  trim_space, text_eq, if◌then◌else◌, has_prefix, cut, is_empty,
}
use codereviewer.Prelude.Int.{pos}
use codereviewer.Dict
use codereviewer.Dict.{Dict, empty, put}
use codereviewer.Ports.{
  ok, ReviewCommentPayload, WebhookEvent, pull_request, pr_opened, slash_command, RepoRef, github,
}
use codereviewer.Exec.{returned, publish_review}
use codereviewer.Exec.Counting.{is_returned}
use codereviewer.Schemas.{review_key}
use codereviewer.Gateway.{
  Gateway, to_lower, first_line, before_cut, command_of, parse_slash_command, owned_ref, route,
  route_review_comment, webhook_handler,
}
use codereviewer.Gateway.Routes.{is_publish, wants_job, route-publishes, slash_review-same_key}
use codereviewer.Gateway.Requests.{is_effect, webhook_handler-refuses}
use codereviewer.Gateway.Limiter.{WebhookBucket, serve, passes, within}
use codereviewer.Gateway.Limiter.Window.{bucket_of, lesser, is_from, serve-passes}
use codereviewer.Examples.World.{world, pull_request_ref}

abbrev gateway : Gateway
gateway = record { repos = true; context_db = true; tenant_id = codes "acme" }

abbrev repository : RepoRef
repository = record {
  tenant_id = codes "acme";
  repo_id = codes "widgets";
  owner = codes "acme";
  name = codes "widgets";
  default_branch = codes "main";
  enabled = true;
  provider = [];
}

abbrev opened_event : WebhookEvent
opened_event = record {
  kind = pull_request;
  pull_request_payload = some (record {
    action = codes "opened";
    ref = pull_request_ref;
    repo = repository;
    is_draft = false;
  });
  push_payload = none;
  comment_payload = none;
  reaction_payload = none;
}

abbrev review_please : ReviewCommentPayload
review_please = record {
  ref = pull_request_ref;
  author_id = codes "alice";
  body = codes "/Review now\nplease";
  is_bot = false;
  in_reply_to_id = pos 0;
}

route-publishes_example :
    (is_returned (route world gateway (codes "github") opened_event []).0 ≡ true)
    × (tally is_publish (route world gateway (codes "github") opened_event []).1
        ≡ (if wants_job world gateway (codes "github") opened_event [] then 1 else 0) + 0)
route-publishes_example = route-publishes world gateway (codes "github") opened_event []

is_review_command :
    (parse_slash_command (trim_space (codes "/Review now\nplease"))).0 ≡ codes "/review"
unfolding parse_slash_command command_of first_line before_cut to_lower trim_space has_prefix cut
is_review_command = refl

slash_review-same_key_example :
    (route_review_comment world gateway (codes "github") (some review_please) []).1
    ≡ publish_review
        (review_key (record {
          pr_ref = owned_ref gateway (codes "github") pull_request_ref;
          trigger = pr_opened;
        }))
        (record {
          pr_ref = owned_ref gateway (codes "github") pull_request_ref;
          trigger = slash_command;
        })
      ∷ []
slash_review-same_key_example =
    slash_review-same_key world gateway (codes "github") review_please [] refl is_review_command

not_verified :
    (world.registered (if is_empty (codes "github") then github else codes "github") && false)
    ≡ false
unfolding text_eq is_empty
not_verified = refl

webhook_handler-refuses_example :
    (tally is_effect (webhook_handler world gateway (codes "github") [] (ok (codes "{}")) []).1 ≡ 0)
    × (((webhook_handler world gateway (codes "github") [] (ok (codes "{}")) []).0 ≡ returned 404)
        ⊎ (((webhook_handler world gateway (codes "github") [] (ok (codes "{}")) []).0
              ≡ returned 400)
            ⊎ ((webhook_handler world gateway (codes "github") [] (ok (codes "{}")) []).0
                ≡ returned 401)))
webhook_handler-refuses_example =
    webhook_handler-refuses world gateway (codes "github") [] (ok (codes "{}")) [] not_verified

-- a bucket of one token
abbrev buckets : Dict WebhookBucket
buckets = put empty (codes "a") (bucket_of 1 0)

abbrev requests : List (Text × ℕ)
requests = (codes "a", 5) ∷ (codes "b", 6) ∷ (codes "a", 7) ∷ []

has_token : Dict.get buckets (codes "a") ≡ some (bucket_of 1 0)
unfolding put empty Dict.get text_eq
has_token = refl

early_requests : All (λ r. within (codes "a") 0 r ≡ true) requests
unfolding within text_eq
early_requests = (refl, (refl, (refl, tt)))

serve-passes_example :
    tally (passes (codes "a")) (serve (pos 1) buckets requests)
    ≡ lesser (tally (is_from (codes "a")) requests) 1
serve-passes_example =
    serve-passes (pos 1) (codes "a") 0 1 buckets requests has_token early_requests

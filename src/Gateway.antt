-- ===== src/Gateway.antt =====
-- The webhook gateway (cmd/webhook-gateway/main.go): a verified webhook becomes a job on the bus.
-- Logging and the health check are left out.
pub mod Limiter
pub mod Commands
pub mod Routes
pub mod Requests
use codereviewer.Prelude.{
  ℕ, Bool, true, false, not, ◌&&◌, ◌||◌, Option, none, some, List, [], ◌∷◌, ◌++◌, map, Text, codes,
  text_eq, is_empty, has_prefix, trim_space, cut, lower_char, ◌==◌, if◌then◌else◌,
}
use codereviewer.Prelude.Int.{ℤ, pos, eqb_ℤ}
use codereviewer.Ports.{
  Result, ok, err, wrap, PrRef, RepoRef, Trigger, pr_opened, pr_updated, slash_command,
  PrContextItem, WebhookEventKind, pull_request, push, review_comment, reaction, check_run, ping,
  PullRequestPayload, PushPayload, ReviewCommentPayload, ReactionPayload, WebhookEvent, github,
}
use codereviewer.Schemas.{ReviewJob, IndexJob, FeedbackJob, review_key, index_key, feedback_key}
use codereviewer.Exec.{
  Env, M, ◌>>=◌, pure, call, verify_webhook, ensure_exists, append_pr_context, publish_review,
  publish_index, publish_feedback,
}

-- unicode.ToLower, right on every character whose lower case is ASCII; the others, which no command
-- has, stay as they are
unfoldable pub to_lower : ℕ → ℕ
to_lower c = if c == 0x130 then b'i' else if c == 0x212a then b'k' else lower_char c

-- the text up to a cut, or all of it
unfoldable pub before_cut : Text → Option (Text × Text) → Text
before_cut body none = body
before_cut body (some (line, rest)) = line

-- the text up to the first newline
unfoldable pub first_line : Text → Text
first_line body = before_cut body (cut body b'\n')

unfoldable pub command_of : Text → Option (Text × Text) → Text × Text
command_of line none = (map to_lower line, [])
command_of line (some (name, rest)) = (map to_lower name, trim_space rest)

-- the command and what follows it in its line
unfoldable pub parse_slash_command : Text → Text × Text
parse_slash_command body =
    if has_prefix body (codes "/")
    then command_of (first_line body) (cut (first_line body) b' ')
    else ([], [])

unfoldable pub trigger_for : Text → Trigger
trigger_for action = if text_eq action (codes "synchronize") then pr_updated else pr_opened

-- the optional stores, and the tenant of the deployment
pub record Gateway : Type 0 where
  pub repos : Bool
  pub context_db : Bool
  pub tenant_id : Text

-- the text of a /context command: the rest of its line, or the lines behind it
unfoldable pub context_text : Text → Text → Text
context_text full_body rest =
    if is_empty (trim_space rest)
    then elim (cut full_body b'\n') [ none ↦ [] | some (line, below) ↦ trim_space below ]
    else trim_space rest

unfoldable pub is_review_action : Text → Bool
is_review_action action =
    text_eq action (codes "opened")
    || (text_eq action (codes "synchronize") || text_eq action (codes "reopened"))

module _ (gw : Gateway) (provider : Text) where
  unfoldable pub owned_ref : PrRef → PrRef
  owned_ref ref = record ref { tenant_id = gw.tenant_id; provider = provider }

  unfoldable pub owned_repo : RepoRef → RepoRef
  owned_repo repo = record repo { tenant_id = gw.tenant_id; provider = provider }

  unfoldable pub reply_job : ReviewCommentPayload → FeedbackJob
  reply_job p = record {
    tenant_id = gw.tenant_id;
    repo_id = p.ref.repo_id;
    provider = provider;
    kind = codes "reply";
    comment_external_id = p.in_reply_to_id;
    reaction = [];
    author_id = p.author_id;
    body = p.body;
    pr_number = p.ref.pr_number;
  }

  unfoldable pub reaction_job : ReactionPayload → FeedbackJob
  reaction_job p = record {
    tenant_id = gw.tenant_id;
    repo_id = [];
    provider = provider;
    kind = codes "reaction";
    comment_external_id = p.comment_external_id;
    reaction = p.reaction;
    author_id = p.user_id;
    body = [];
    pr_number = pos 0;
  }

  unfoldable pub index_job : PushPayload → IndexJob
  index_job p = record {
    tenant_id = gw.tenant_id;
    repo_id = p.repo.repo_id;
    provider = provider;
    ref = p.ref;
    before_sha = p.before_sha;
    head_sha = p.head_sha;
  }

unfoldable pub context_item : Gateway → ReviewCommentPayload → Text → PrContextItem
context_item gw p text = record {
  tenant_id = gw.tenant_id;
  repo_id = p.ref.repo_id;
  pr_number = p.ref.pr_number;
  source = codes "command";
  body = text;
  created_by = p.author_id;
}

module _ (env : Env) where
  unfoldable pub publish_review_job : ReviewJob → M (Result (Unit {0}))
  publish_review_job job =
      call (publish_review (review_key job) job) (λ t. env.review_published t (review_key job) job)

  unfoldable pub publish_index_job : IndexJob → M (Result (Unit {0}))
  publish_index_job job =
      call (publish_index (index_key job) job) (λ t. env.index_published t (index_key job) job)

  unfoldable pub publish_feedback_job : FeedbackJob → M (Result (Unit {0}))
  publish_feedback_job job =
      call (publish_feedback (feedback_key job) job)
        (λ t. env.feedback_published t (feedback_key job) job)

  -- the repository is known now, or that failed
  unfoldable pub once_ensured : Result (Unit {0}) → M (Result (Unit {0})) → M (Result (Unit {0}))
  once_ensured (err e) next = pure (err (wrap (codes "ensure repo") e))
  once_ensured (ok _) next = next

  module _ (gw : Gateway) where
    unfoldable pub ensure_repo : RepoRef → M (Result (Unit {0})) → M (Result (Unit {0}))
    ensure_repo repo next =
        if gw.repos
        then (do r ← call (ensure_exists repo) (λ t. env.ensured t repo); once_ensured r next)
        else next

    unfoldable pub handle_context_command :
        ReviewCommentPayload → Text → Text → M (Result (Unit {0}))
    handle_context_command p full_body rest =
        if gw.context_db && not (is_empty (context_text full_body rest))
        then call (append_pr_context (context_item gw p (context_text full_body rest)))
            (λ t. env.context_appended t (context_item gw p (context_text full_body rest)))
        else pure (ok tt)

    module _ (provider : Text) where
      unfoldable pub route_pull_request : Option PullRequestPayload → M (Result (Unit {0}))
      route_pull_request none = pure (ok tt)
      route_pull_request (some p) =
          if is_review_action p.action && not p.is_draft
          then ensure_repo (owned_repo gw provider p.repo) (
              publish_review_job
                (record { pr_ref = owned_ref gw provider p.ref; trigger = trigger_for p.action }))
          else pure (ok tt)

      unfoldable pub route_push : Option PushPayload → M (Result (Unit {0}))
      route_push none = pure (ok tt)
      route_push (some p) =
          if text_eq p.ref (codes "refs/heads/" ++ p.repo.default_branch)
          then ensure_repo (owned_repo gw provider p.repo)
              (publish_index_job (index_job gw provider p))
          else pure (ok tt)

      unfoldable pub run_command : ReviewCommentPayload → Text × Text → M (Result (Unit {0}))
      run_command p (cmd, rest) =
          if text_eq cmd (codes "/review")
          then publish_review_job
              (record { pr_ref = owned_ref gw provider p.ref; trigger = slash_command })
          else if text_eq cmd (codes "/context")
          then handle_context_command p (trim_space p.body) rest
          else if text_eq cmd (codes "/improve") || text_eq cmd (codes "/ask")
          then pure (ok tt)
          else if eqb_ℤ p.in_reply_to_id (pos 0)
          then pure (ok tt)
          else publish_feedback_job (reply_job gw provider p)

      unfoldable pub route_review_comment : Option ReviewCommentPayload → M (Result (Unit {0}))
      route_review_comment none = pure (ok tt)
      route_review_comment (some p) =
          if p.is_bot then pure (ok tt) else run_command p (parse_slash_command (trim_space p.body))

      unfoldable pub route_reaction : Option ReactionPayload → M (Result (Unit {0}))
      route_reaction none = pure (ok tt)
      route_reaction (some p) =
          if eqb_ℤ p.comment_external_id (pos 0)
          then pure (ok tt)
          else publish_feedback_job (reaction_job gw provider p)

      unfoldable pub route_as : WebhookEventKind → WebhookEvent → M (Result (Unit {0}))
      route_as pull_request event = route_pull_request event.pull_request_payload
      route_as push event = route_push event.push_payload
      route_as review_comment event = route_review_comment event.comment_payload
      route_as reaction event = route_reaction event.reaction_payload
      route_as check_run event = pure (ok tt)
      route_as ping event = pure (ok tt)

      unfoldable pub route : WebhookEvent → M (Result (Unit {0}))
      route event = route_as event.kind event

      -- 202, or 500 when the routing failed
      unfoldable pub respond : Result (Unit {0}) → M ℕ
      respond (err e) = pure 500
      respond (ok _) = pure 202

      -- the signature is right, or the request is refused
      unfoldable pub use_event : Result WebhookEvent → M ℕ
      use_event (err e) = pure 401
      use_event (ok event) = do r ← route event; respond r

      unfoldable pub use_body : Text → Result Text → M ℕ
      use_body header (err e) = pure 400
      use_body header (ok body) = do
        event ←
            call (verify_webhook provider header body) (λ t. env.verified t provider header body)
        use_event event

      -- The handler of a provider's webhooks: a request is its header and its body, which may fail
      -- to be read; the result is the status of the response.
      unfoldable pub webhook_handler : Text → Result Text → M ℕ
      webhook_handler header body =
          if env.registered (if is_empty provider then github else provider)
          then use_body header body
          else pure 404

-- ===== src/Ports.antt =====
-- The data that the components exchange (internal/ports/types.go, vcs.go, llm.go,
-- context_provider.go, internal/ports/store/types.go, internal/schemas/llm_output.go). Only the
-- fields that the modelled code reads or writes stand here.
mod Values
unfoldable pub use Values.*
use codereviewer.Prelude.{
  ℕ, ◌≡◌, refl, ◌⊎◌, inl, inr, Bool, Option, List, ◌++◌, Text, codes, is_empty, if◌then◌else◌,
}
use codereviewer.Prelude.Int.{ℤ}

pub record BeginRun : Type 0 where
  pub ref : PrRef
  pub trigger : Trigger
  pub idempotency_key : Text
  pub started_at : Time

pub record RunResult : Type 0 where
  pub status : RunStatus
  pub model_used : Text
  pub tokens_in : ℤ
  pub tokens_out : ℤ
  pub cost_usd : Usd
  pub finished_at : Time
  pub posted_review_id : ℤ
  pub error : Text

pub record PrRun : Type 0 where
  pub run_id : Text
  pub ref : PrRef
  pub status : RunStatus

pub record CostCap : Type 0 where
  pub daily_usd_cap : Usd
  pub per_pr_token_cap : ℤ

-- the empty outcome is that of a comment just posted
pub data Outcome : Type 0 where
  unset pending accepted dismissed discussed : Outcome

pub data OutcomeSignal : Type 0 where
  implicit_line_changed thumbs_up thumbs_down replied dismissed_signal : OutcomeSignal

pub record CommentUpsert : Type 0 where
  pub tenant_id : Text
  pub repo_id : Text
  pub pr_number : ℤ
  pub source : Text
  pub github_id : Option ℤ
  pub file_path : Text
  pub start_line : ℤ
  pub end_line : ℤ
  pub diff_hunk : Text
  pub comment_text : Text
  pub category : Text
  pub outcome : Outcome
  -- `none` is the empty signal
  pub outcome_signal : Option OutcomeSignal
  pub embedding : Vector

pub record Comment : Type 0 where
  pub comment_id : Text
  pub tenant_id : Text
  pub repo_id : Text
  pub pr_number : ℤ
  pub source : Text
  pub github_id : Option ℤ
  pub comment_text : Text

pub record CodeChunkHit : Type 0 where
  pub file_path : Text
  pub symbol_name : Text
  pub start_line : ℤ
  pub end_line : ℤ
  pub content : Text

pub record CommentHit : Type 0 where
  pub file_path : Text
  pub comment_text : Text
  pub outcome : Outcome

pub record Rule : Type 0 where
  pub title : Text
  pub description : Text

pub record FeedbackEvent : Type 0 where
  pub tenant_id : Text
  pub comment_id : Text
  pub signal : OutcomeSignal
  pub observed_at : Time

pub record ConversationConfig : Type 0 where
  pub enabled : Bool
  pub max_replies_per_pr : ℤ
  pub trigger_suffixes : List Text
  pub trigger_prefixes : List Text
  pub max_output_tokens : ℤ

pub record PrContextItem : Type 0 where
  pub tenant_id : Text
  pub repo_id : Text
  pub pr_number : ℤ
  pub source : Text
  pub body : Text
  pub created_by : Text

pub data WebhookEventKind : Type 0 where
  pull_request push review_comment reaction check_run : WebhookEventKind
  -- GitHub's first call, which is none of the kinds that have a name
  ping : WebhookEventKind

pub record PullRequestPayload : Type 0 where
  pub action : Text
  pub ref : PrRef
  pub repo : RepoRef
  pub is_draft : Bool

pub record PushPayload : Type 0 where
  pub repo : RepoRef
  pub ref : Text
  pub before_sha : Text
  pub head_sha : Text

pub record ReviewCommentPayload : Type 0 where
  pub ref : PrRef
  pub author_id : Text
  pub body : Text
  pub is_bot : Bool
  pub in_reply_to_id : ℤ

pub record ReactionPayload : Type 0 where
  pub comment_external_id : ℤ
  pub reaction : Text
  pub user_id : Text

pub record WebhookEvent : Type 0 where
  pub kind : WebhookEventKind
  pub pull_request_payload : Option PullRequestPayload
  pub push_payload : Option PushPayload
  pub comment_payload : Option ReviewCommentPayload
  pub reaction_payload : Option ReactionPayload

pub record RawRuleFile : Type 0 where
  pub path : Text
  pub content : Text

pub record RulesSnapshot : Type 0 where
  pub commit_sha : Text
  pub files : List RawRuleFile

pub record FrontMatter : Type 0 where
  pub scope : Text
  pub title : Text

pub record RuleUpsert : Type 0 where
  pub rule_id : Text
  pub tenant_id : Text
  pub scope : Text
  pub title : Text
  pub description : Text
  pub embedding : Vector

pub record ChangedFile : Type 0 where
  pub path : Text
  pub status : Text

pub record ParsedChunk : Type 0 where
  pub symbol_name : Text
  pub symbol_kind : Text
  pub start_line : ℤ
  pub end_line : ℤ
  pub content : Text

pub record CodeChunkUpsert : Type 0 where
  pub tenant_id : Text
  pub repo_id : Text
  pub file_path : Text
  pub symbol_name : Text
  pub symbol_kind : Text
  pub start_line : ℤ
  pub end_line : ℤ
  pub content : Text
  pub content_hash : Text
  pub commit_sha : Text
  pub embedding : Vector

pub record HumanComment : Type 0 where
  pub external_id : ℤ
  pub body : Text
  pub path : Text
  pub diff_hunk : Text
  pub start_line : ℤ
  pub end_line : ℤ
  pub reactions_plus_one : ℤ
  pub reactions_minus_one : ℤ

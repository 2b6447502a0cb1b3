-- ===== src/Exec.antt =====
-- How the pipelines act on the world. Each call of a port (internal/ports, internal/ports/store) is
-- an event; the record of all events so far, newest first, is the state. What a call returns is a
-- function of that record and of the call, given by an environment that is arbitrary in every
-- theorem: any store, VCS, LLM or bus, with any failures, is one. A panic ends the run.
pub mod Counting
pub mod Working
use codereviewer.Prelude.{◌||◌, ℕ, Bool, true, false, Option, List, [], ◌∷◌, Text, if◌then◌else◌}
use codereviewer.Prelude.Int.{ℤ}
use codereviewer.Ports.{
  Usd, Time, Vector, Result, PrRef, RepoRef, ReviewPayload, PostedReview, CheckResult, ChatRequest,
  ChatResponse, ContextItem, RawComment, BeginRun, RunResult, PrRun, CostCap, Outcome,
  OutcomeSignal, CommentUpsert, Comment, CodeChunkHit, CommentHit, Rule, FeedbackEvent,
  ConversationConfig, PrContextItem, WebhookEvent, RulesSnapshot, FrontMatter, RuleUpsert,
  ChangedFile, ParsedChunk, CodeChunkUpsert, HumanComment,
}
use codereviewer.Dict.{Dict}
use codereviewer.Schemas.{ReviewJob, IndexJob, FeedbackJob}

pub data Event : Type 0 where
  get_repo : Text → Event
  begin : BeginRun → Event
  finish : Text → RunResult → Event
  get_recent : Text → ℤ → ℕ → Event
  get_effective : Text → Text → Event
  today_spend : Text → Text → Event
  record_spend : Text → Text → Usd → Time → Event
  fetch_diff : PrRef → Event
  fetch_diff_between : Text → Text → Text → Event
  post_review : PrRef → ReviewPayload → Event
  update_check : PrRef → CheckResult → Event
  post_comment_reply : Text → ℤ → ℤ → Text → Event
  cache_get : Text → Event
  cache_put : Text → Vector → Event
  embed : Text → Text → Event
  chat : ChatRequest → Event
  wait : ℕ → Event
  search_code : Text → Vector → Text → ℕ → Event
  search_comments : Text → Vector → ℕ → Event
  list_rules : Text → List Text → Event
  fetch_context : ℕ → PrRef → Event
  upsert_comment : CommentUpsert → Event
  get_by_github_id : ℤ → Event
  append_feedback : FeedbackEvent → Event
  update_outcome : Text → Outcome → OutcomeSignal → Event
  list_by_pr : PrRef → Event
  read_clock read_token_cap read_conversation_config : Event
  verify_webhook : Text → Text → Text → Event
  ensure_exists : RepoRef → Event
  append_pr_context : PrContextItem → Event
  publish_review : Text → ReviewJob → Event
  publish_index : Text → IndexJob → Event
  publish_feedback : Text → FeedbackJob → Event
  fetch_rules : Event
  list_changed_files : Text → Text → Text → Event
  fetch_file_at : Text → Text → Text → Event
  upsert_chunks : List CodeChunkUpsert → Event
  search_closed_prs : Text → Time → Event
  list_pr_comments : PrRef → Event
  cache_get_many : List Text → Event
  embed_many : List Text → Event
  cache_put_many : List (Text × Vector) → Event
  upsert_rules : Text → List RuleUpsert → Event
  tombstone_missing : Text → List Text → Event
  ack : Event
  nack : Text → Event

abbrev pub is_finish : Event → Bool
is_finish (finish id r) = true
is_finish _ = false

abbrev pub is_check : Event → Bool
is_check (update_check ref r) = true
is_check _ = false

-- the answer to a delivery of the bus
abbrev pub is_settled : Event → Bool
is_settled ack = true
is_settled (nack reason) = true
is_settled _ = false

-- the end of a run, the answer to a delivery, a check that is set
abbrev pub is_watched : Event → Bool
is_watched e = is_finish e || (is_settled e || is_check e)

abbrev pub Trace : Type 0
Trace = List Event

-- what a context provider does: it returns, fails or panics
pub data Fetched : Type 0 where
  items : List ContextItem → Fetched
  failed panicking : Fetched

-- the answers of the world
pub record Env : Type 0 where
  -- the providers that the VCS registry knows
  pub registered : Text → Bool
  pub clock : Trace → Time
  pub repo : Trace → Text → Result (Option RepoRef)
  pub began : Trace → BeginRun → Result (Text × Bool)
  pub finished : Trace → Text → RunResult → Result (Unit {0})
  pub recent : Trace → Text → ℤ → ℕ → Result (List PrRun)
  pub effective : Trace → Text → Text → Result CostCap
  pub spend : Trace → Text → Text → Result Usd
  pub recorded : Trace → Text → Text → Usd → Time → Result (Unit {0})
  pub diff : Trace → PrRef → Result Text
  pub diff_between : Trace → Text → Text → Text → Result Text
  pub posted : Trace → PrRef → ReviewPayload → Result PostedReview
  pub checked : Trace → PrRef → CheckResult → Result (Unit {0})
  pub replied : Trace → Text → ℤ → ℤ → Text → Result ℤ
  pub cached : Trace → Text → Result (Option Vector)
  pub put : Trace → Text → Vector → Result (Unit {0})
  pub embedded : Trace → Text → Text → Result (List Vector)
  pub estimate_tokens : Text → Text → ℕ
  -- `truncateToTokens`, which computes a ratio of floats
  pub truncate : Text → Text → Text
  pub answer : Trace → ChatRequest → Result ChatResponse
  -- whether the context is cancelled during a wait
  pub cancelled : Trace → Bool
  pub code : Trace → Text → Vector → Text → ℕ → Result (List CodeChunkHit)
  pub comments : Trace → Text → Vector → ℕ → Result (List CommentHit)
  pub rules : Trace → Text → List Text → Result (List Rule)
  pub fetched : Trace → ℕ → PrRef → Fetched
  pub upserted : Trace → CommentUpsert → Result Text
  pub by_github_id : Trace → ℤ → Result (Option Comment)
  pub appended : Trace → FeedbackEvent → Result (Unit {0})
  pub updated : Trace → Text → Outcome → OutcomeSignal → Result (Unit {0})
  pub pr_comments : Trace → PrRef → Result (List Comment)
  pub token_cap : Trace → ℤ
  pub conversation_config : Trace → ConversationConfig
  -- the verification of a request to a provider, by its header and body
  pub verified : Trace → Text → Text → Text → Result WebhookEvent
  pub ensured : Trace → RepoRef → Result (Unit {0})
  pub context_appended : Trace → PrContextItem → Result (Unit {0})
  pub review_published : Trace → Text → ReviewJob → Result (Unit {0})
  pub index_published : Trace → Text → IndexJob → Result (Unit {0})
  pub feedback_published : Trace → Text → FeedbackJob → Result (Unit {0})
  pub rules_fetched : Trace → Result RulesSnapshot
  pub changed_files : Trace → Text → Text → Text → Result (List ChangedFile)
  pub file_at : Trace → Text → Text → Text → Result Text
  -- the parser of a file, by its path and content
  pub supports : Text → Bool
  pub parse_chunks : Text → Text → Result (List ParsedChunk)
  pub chunks_upserted : Trace → List CodeChunkUpsert → Result (Unit {0})
  -- the order in which a walk over a Go map meets its entries: for each entry, where it stands
  -- among those behind it
  pub map_order : Trace → List ℕ
  pub closed_prs : Trace → Text → Time → Result (List ℤ)
  pub human_comments : Trace → PrRef → Result (List HumanComment)
  pub cached_many : Trace → List Text → Result (Dict Vector)
  pub embedded_many : Trace → List Text → Result (List Vector)
  pub put_many : Trace → List (Text × Vector) → Result (Unit {0})
  pub rules_upserted : Trace → Text → List RuleUpsert → Result (Unit {0})
  pub tombstoned : Trace → Text → List Text → Result ℕ
  -- yaml.v3, on a front matter, and SHA-256 in hexadecimal
  pub decode_front_matter : Text → Result FrontMatter
  pub content_hash : Text → Text
  pub acked : Trace → Result (Unit {0})
  pub nacked : Trace → Text → Result (Unit {0})
  -- encoding/json, on an array of comments
  pub decode_output : Text → Result (List RawComment)

pub data Run {ℓ} (A : Type ℓ) : Type ℓ where
  returned : A → Run A
  panicked : Run A

abbrev pub M : Type 0 → Type 0
M A = Trace → Run A × Trace

abbrev pub continue : {A B : Type 0} → Run A → (A → M B) → M B
continue (returned a) f t = f a t
continue panicked f t = (panicked, t)

infixl 5 ◌>>=◌ ◌>>◌
unfoldable pub ◌>>=◌ : {A B : Type 0} → M A → (A → M B) → M B
◌>>=◌ m f t = continue (m t).0 f (m t).1

abbrev pub ◌>>◌ : {A B : Type 0} → M A → M B → M B
m >> k = m >>= λ _. k

unfoldable pub pure : {A : Type 0} → A → M A
pure a t = (returned a, t)

-- the call `e`, and what the world answers
unfoldable pub call : {A : Type 0} → Event → (Trace → A) → M A
call e answer t = (returned (answer t), e ∷ t)

unfoldable pub panic : {A : Type 0} → M A
panic t = (panicked, t)

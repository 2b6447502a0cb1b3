-- ===== src/Review/Process.antt =====
-- The review pipeline (internal/core/pipelines/review/pipeline.go). Logging and the stopwatch, which
-- only feeds the log, are left out.
mod Calls
mod Stages
pub mod Runs
pub mod Verdicts
pub mod Spending
pub mod Heads
use codereviewer.Prelude.{
  ℕ, Bool, true, false, not, ◌&&◌, ◌||◌, Option, none, some, List, [], ◌∷◌, ◌++◌, Text, codes,
  text_eq, is_empty, trim_space, itoa, length, if◌then◌else◌,
}
use codereviewer.Prelude.Int.{ℤ, pos, ltb_ℤ, leb_ℤ}
use codereviewer.Ports.{
  Usd, Time, Vector, Result, ok, err, wrap, PrRef, provider_or_default, RepoRef, BotComment,
  ReviewPayload, PostedReview, CheckResult, primary, ChatRequest, ChatResponse, RunStatus, posted,
  failed_open, budget_exceeded, BeginRun, RunResult, PrRun, CostCap, RawComment,
}
use codereviewer.Schemas.{ReviewJob, review_key}
use codereviewer.Exec.{
  Env, M, ◌>>=◌, ◌>>◌, pure, call, panic, get_repo, begin, finish, get_recent, get_effective,
  today_spend, record_spend, fetch_diff, fetch_diff_between, post_review, update_check,
  upsert_comment, read_clock, read_token_cap, ack, nack,
}
use codereviewer.Core.Budgets.{exceeds_daily_cap, default_per_pr_token_cap, max_output_tokens}
use codereviewer.Core.Prompt.{Assembled, ContextSection, assemble}
use codereviewer.Core.LlmOutput.{parse_output}
use codereviewer.Core.Retry.{chat_with_retry, default_retry_policy}
use codereviewer.Core.Retrieval.{
  embed_query, retrieve_code, retrieve_comments, retrieve_rules, format_code, format_comments,
  format_rules,
}
use codereviewer.Review.Diff.{valid_right_lines, extract_changed_files}
use codereviewer.Review.Context.{fetch_sections}
use codereviewer.Review.Posting.{Placed, place, summary_body, upsert_of}
use codereviewer.Review.Ending.{
  check_name, check, neutral_review, finished_as, now, vcs, post, set_check, end_run, fail_open,
  post_budget_exceeded, post_no_changes,
}
use codereviewer.Review.Publishing.{publish}

-- what is wired into the pipeline: which optional stores there are, how many context providers, and
-- the texts that are fixed at boot
pub record Deps : Type 0 where
  pub repos : Bool
  pub pr_runs : Bool
  pub code_chunks : Bool
  pub comments : Bool
  pub rules : Bool
  pub embedding_cache : Bool
  pub context_providers : ℕ
  pub system_prompt : Text
  pub embedding_model : Text

-- the head of the latest run that was posted for another head
unfoldable pub previous_head : Text → List PrRun → Option Text
previous_head head [] = none
previous_head head (r ∷ rs) =
    let rest = previous_head head rs in
    elim r.status [
      | posted ↦
          if is_empty r.ref.head_sha || text_eq r.ref.head_sha head
          then rest
          else some r.ref.head_sha
      | _ ↦ rest
    ]

-- the cap that the settings give, or the default, lowered to the repository's own
unfoldable pub effective_token_cap : ℤ → ℤ → ℤ
effective_token_cap setting repo_cap =
    let cap = if leb_ℤ setting (pos 0) then pos default_per_pr_token_cap else setting in
    if ltb_ℤ (pos 0) repo_cap && ltb_ℤ repo_cap cap then repo_cap else cap

abbrev pub ok_or {ℓ} : {A : Type ℓ} → A → Result A → A
ok_or d (ok a) = a
ok_or d (err e) = d

-- the answer names a repository that is switched off
unfoldable pub is_disabled : Result (Option RepoRef) → Bool
is_disabled (err e) = false
is_disabled (ok none) = false
is_disabled (ok (some repo)) = not repo.enabled

abbrev pub first_file : List Text → Text
first_file [] = []
first_file (p ∷ ps) = p

abbrev pub default_closing_instruction : Text
default_closing_instruction = codes "Emit the JSON array now. No prose, no markdown fences."

module _ (env : Env) (deps : Deps) where
  -- the prompt is assembled; `none` stands for an assembly that does not end
  unfoldable pub ask : PrRef → Text → Text → ℤ → Option Assembled → M (Result (Unit {0}))
  ask ref run_id diff token_cap none = panic
  ask ref run_id diff token_cap (some assembled) = do
    resp ←
        chat_with_retry env
          (record {
            tier = primary;
            system_prompt = assembled.system_prompt;
            user_prompt = assembled.user_prompt;
            max_output_tokens = pos (max_output_tokens token_cap);
            response_format = codes "json";
          })
          default_retry_policy
    publish env ref run_id diff resp

  -- retrieval, context and prompt for a diff that is there
  unfoldable pub review_diff : PrRef → Text → CostCap → Text → M (Result (Unit {0}))
  review_diff ref run_id cost_cap diff = do
    let changed = extract_changed_files diff
    embedding ←
        embed_query env deps.embedding_cache
          (codes "review-query:" ++ (ref.repo_id ++ b':' ∷ ref.head_sha)) diff deps.embedding_model
    let query = ok_or [] embedding
    code ← retrieve_code env deps.code_chunks ref.repo_id query (first_file changed) 0
    comments ← retrieve_comments env deps.comments ref.repo_id query 0
    rules ← retrieve_rules env deps.rules ref.repo_id changed
    sections ← fetch_sections env ref deps.context_providers
    setting ← call read_token_cap env.token_cap
    let token_cap = effective_token_cap setting cost_cap.per_pr_token_cap
    ask ref run_id diff token_cap (
        assemble
          (record {
            system_prompt = deps.system_prompt;
            diff = diff;
            related_code = format_code (ok_or [] code);
            past_reviews = format_comments (ok_or [] comments);
            context = sections;
            rules = format_rules (ok_or [] rules);
            closing_instruction = default_closing_instruction;
          })
          token_cap (λ s. env.estimate_tokens s []))

  -- the diff is fetched, or that failed; an empty incremental diff needs no review
  unfoldable pub use_diff :
      PrRef → Text → CostCap → Option Text → Result Text → M (Result (Unit {0}))
  use_diff ref run_id cost_cap prev (err e) = fail_open env ref run_id (wrap (codes "fetch diff") e)
  use_diff ref run_id cost_cap none (ok diff) = review_diff ref run_id cost_cap diff
  use_diff ref run_id cost_cap (some head) (ok diff) =
      if is_empty (trim_space diff)
      then post_no_changes env ref run_id
      else review_diff ref run_id cost_cap diff

  unfoldable pub fetch : PrRef → Option Text → M (Result Text)
  fetch ref (some head) = do
    vcs env ref
    call (fetch_diff_between ref.repo_id head ref.head_sha)
        (λ t. env.diff_between t ref.repo_id head ref.head_sha)
  fetch ref none = do vcs env ref; call (fetch_diff ref) (λ t. env.diff t ref)

  unfoldable pub find_previous_head : PrRef → M (Option Text)
  find_previous_head ref =
      if deps.pr_runs
      then (do
        runs ←
            call (get_recent ref.repo_id ref.pr_number 20)
              (λ t. env.recent t ref.repo_id ref.pr_number 20)
        pure (previous_head ref.head_sha (ok_or [] runs)))
      else pure none

  -- the spend of the day is known, or that failed
  unfoldable pub within_budget : PrRef → Text → CostCap → Result Usd → M (Result (Unit {0}))
  within_budget ref run_id cost_cap (err e) =
      fail_open env ref run_id (wrap (codes "get today spend") e)
  within_budget ref run_id cost_cap (ok spent) =
      if exceeds_daily_cap spent cost_cap.daily_usd_cap
      then post_budget_exceeded env ref run_id
      else (do
        prev ← find_previous_head ref
        diff ← fetch ref prev
        use_diff ref run_id cost_cap prev diff)

  unfoldable pub budget : PrRef → Text → Result CostCap → M (Result (Unit {0}))
  budget ref run_id (err e) = fail_open env ref run_id (wrap (codes "get cost cap") e)
  budget ref run_id (ok cost_cap) = do
    spent ←
        call (today_spend ref.tenant_id ref.repo_id) (λ t. env.spend t ref.tenant_id ref.repo_id)
    within_budget ref run_id cost_cap spent

  -- the run is recorded, or that failed; a duplicate is skipped
  unfoldable pub begun : PrRef → Result (Text × Bool) → M (Result (Unit {0}))
  begun ref (err e) = pure (err (wrap (codes "begin run") e))
  begun ref (ok (run_id, true)) = pure (ok tt)
  begun ref (ok (run_id, false)) = do
    cost_cap ←
        call (get_effective ref.tenant_id ref.repo_id)
          (λ t. env.effective t ref.tenant_id ref.repo_id)
    budget ref run_id cost_cap

  unfoldable pub check_disabled : Text → M Bool
  check_disabled repo_id =
      if deps.repos
      then (do r ← call (get_repo repo_id) (λ t. env.repo t repo_id); pure (is_disabled r))
      else pure false

  unfoldable pub start : ReviewJob → M (Result (Unit {0}))
  start job = do
    at ← now env
    let args : BeginRun = record {
      ref = job.pr_ref;
      trigger = job.trigger;
      idempotency_key = review_key job;
      started_at = at;
    }
    r ← call (begin args) (λ t. env.began t args)
    begun job.pr_ref r

  unfoldable pub process : ReviewJob → M (Result (Unit {0}))
  process job = do
    disabled ← check_disabled job.pr_ref.repo_id
    if disabled then pure (ok tt) else start job

  -- the payload decodes to a job, or it does not
  unfoldable pub handle : Result ReviewJob → M (Result (Unit {0}))
  handle (err e) = do
    call (nack (codes "invalid review job: " ++ e))
        (λ t. env.nacked t (codes "invalid review job: " ++ e))
    pure (err (wrap (codes "unmarshal review job") e))
  handle (ok job) = do process job; call ack env.acked

-- ===== src/Review/Ending.antt =====
-- The ways in which a run of the review pipeline (internal/core/pipelines/review/pipeline.go) ends
-- early: failOpen, postBudgetExceeded, postNoChanges; and the calls that all ends share.
use codereviewer.Prelude.{[], Text, codes, if◌then◌else◌}
use codereviewer.Prelude.Int.{pos}
use codereviewer.Ports.{
  Time, Result, err, PrRef, provider_or_default, ReviewPayload, PostedReview, CheckResult,
  RunStatus, posted, failed_open, budget_exceeded, RunResult,
}
use codereviewer.Exec.{
  Env, M, ◌>>=◌, ◌>>◌, pure, call, panic, finish, post_review, update_check, read_clock,
}

abbrev pub check_name : Text
check_name = codes "code-review-bot/review"

unfoldable pub check : Text → Text → CheckResult
check conclusion summary = record { name = check_name; conclusion = conclusion; summary = summary }

unfoldable pub neutral_review : Text → ReviewPayload
neutral_review body = record { body = body; comments = [] }

unfoldable pub finished_as : RunStatus → Time → Text → RunResult
finished_as status at error = record {
  status = status;
  model_used = [];
  tokens_in = pos 0;
  tokens_out = pos 0;
  cost_usd = pos 0;
  finished_at = at;
  posted_review_id = pos 0;
  error = error;
}

module _ (env : Env) where
  unfoldable pub now : M Time
  now = call read_clock env.clock

  -- an unregistered provider is a panic
  unfoldable pub vcs : PrRef → M (Unit {0})
  vcs ref = if env.registered (provider_or_default ref) then pure tt else panic

  unfoldable pub post : PrRef → ReviewPayload → M (Result PostedReview)
  post ref review = do vcs ref; call (post_review ref review) (λ t. env.posted t ref review)

  unfoldable pub set_check : PrRef → CheckResult → M (Result (Unit {0}))
  set_check ref result = do vcs ref; call (update_check ref result) (λ t. env.checked t ref result)

  unfoldable pub end_run : Text → RunResult → M (Result (Unit {0}))
  end_run run_id result = call (finish run_id result) (λ t. env.finished t run_id result)

  unfoldable pub fail_open : PrRef → Text → Text → M (Result (Unit {0}))
  fail_open ref run_id cause = do
    post ref
        (neutral_review (codes "Code review bot: an error occurred; the check passes by policy."))
    set_check ref (check (codes "success") (codes "Review unavailable"))
    at ← now
    end_run run_id (finished_as failed_open at cause)
    pure (err cause)

  unfoldable pub post_budget_exceeded : PrRef → Text → M (Result (Unit {0}))
  post_budget_exceeded ref run_id = do
    post ref (
        neutral_review (
          codes
            "Code review bot: daily budget exceeded; review skipped. The check passes by policy."))
    set_check ref (check (codes "success") (codes "Budget exceeded; review skipped"))
    at ← now
    end_run run_id (finished_as budget_exceeded at [])

  unfoldable pub post_no_changes : PrRef → Text → M (Result (Unit {0}))
  post_no_changes ref run_id = do
    set_check ref (check (codes "success") (codes "No new diff since last review"))
    at ← now
    end_run run_id (finished_as posted at [])

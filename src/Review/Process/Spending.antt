-- ===== src/Review/Process/Spending.antt =====
-- What a job does whose repository has spent its daily budget.
use codereviewer.Prelude.{◌≡◌, refl, true, false, [], ◌∷◌, Text, codes}
use codereviewer.Ports.{Usd, ok, PrRef, provider_or_default, CostCap, budget_exceeded}
use codereviewer.Schemas.{ReviewJob}
use codereviewer.Exec.{
  Env, Trace, ◌>>=◌, pure, call, finish, get_effective, today_spend, post_review, update_check,
  read_clock,
}
use codereviewer.Core.Budgets.{exceeds_daily_cap}
use codereviewer.Review.Process.{Deps, within_budget, budget, begun, process}
use codereviewer.Review.Ending.{
  check, neutral_review, finished_as, now, vcs, post, set_check, end_run, post_budget_exceeded,
}
use codereviewer.Review.Process.Runs.{disabled_now, begin_result, begin_trace, process_enabled}

abbrev pub budget_review : Text
budget_review =
    codes "Code review bot: daily budget exceeded; review skipped. The check passes by policy."

module _ (env : Env) (deps : Deps) where
  -- the events of a run that is stopped by the budget, behind those of its begin
  abbrev pub stopped_trace : PrRef → Text → Trace → Trace
  stopped_trace ref id s =
      let asked : Trace =
        today_spend ref.tenant_id ref.repo_id ∷ get_effective ref.tenant_id ref.repo_id ∷ s in
      let told : Trace =
        update_check ref (check (codes "success") (codes "Budget exceeded; review skipped"))
        ∷ post_review ref (neutral_review budget_review)
        ∷ asked in
      finish id (finished_as budget_exceeded (env.clock told) []) ∷ read_clock ∷ told

  begun_over :
      (ref : PrRef) (id : Text) (cap : CostCap) (spent : Usd) (s : Trace)
      → env.registered (provider_or_default ref) ≡ true
      → env.effective s ref.tenant_id ref.repo_id ≡ ok cap
      → env.spend (get_effective ref.tenant_id ref.repo_id ∷ s) ref.tenant_id ref.repo_id ≡ ok spent
      → exceeds_daily_cap spent cap.daily_usd_cap ≡ true
      → (begun env deps ref (ok (id, false)) s).1 ≡ stopped_trace ref id s
  unfolding begun budget within_budget post_budget_exceeded post set_check vcs now end_run ◌>>=◌
      call pure
  begun_over ref id cap spent s known h k over = rw (h, k, over, known) refl

  -- A run whose repository has spent its daily budget is stopped before the diff is fetched or the
  -- LLM asked: after the two readings of the budget it posts a review without comments, passes the
  -- check and ends as budget-exceeded, and does nothing else. The VCS provider of the pull request
  -- must be registered.
  pub process-over_budget :
      (job : ReviewJob) (id : Text) (cap : CostCap) (spent : Usd) (t : Trace)
      → env.registered (provider_or_default job.pr_ref) ≡ true
      → disabled_now env deps job t ≡ false
      → begin_result env deps job t ≡ ok (id, false)
      → env.effective (begin_trace env deps job t) job.pr_ref.tenant_id job.pr_ref.repo_id ≡ ok cap
      → env.spend
          (get_effective job.pr_ref.tenant_id job.pr_ref.repo_id ∷ begin_trace env deps job t)
          job.pr_ref.tenant_id
          job.pr_ref.repo_id
        ≡ ok spent
      → exceeds_daily_cap spent cap.daily_usd_cap ≡ true
      → (process env deps job t).1 ≡ stopped_trace job.pr_ref id (begin_trace env deps job t)
  process-over_budget job id cap spent t known enabled new h k over =
      rw (process_enabled env deps job t enabled, new)
        (begun_over job.pr_ref id cap spent (begin_trace env deps job t) known h k over)

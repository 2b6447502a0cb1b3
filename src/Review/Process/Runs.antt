-- ===== src/Review/Process/Runs.antt =====
-- Whole runs: which jobs open a run, that a run is ended once, and that a delivery is answered once.
use codereviewer.Prelude.{
  ℕ, ◌+◌, ◌≡◌, refl, Bool, true, false, not, ◌&&◌, inl, inr, ◌∷◌, arith, Text, tally, Bool-cases,
  if◌then◌else◌, either_zero,
}
use codereviewer.Ports.{
  Result, ok, err, PrRef, provider_or_default, CheckResult, BeginRun, RunResult,
}
use codereviewer.Schemas.{ReviewJob, review_key}
use codereviewer.Exec.{
  is_settled, is_watched, update_check, Event, Env, Trace, Run, returned, panicked, continue, ◌>>=◌,
  pure, call, get_repo, begin, finish, read_clock, ack,
}
use codereviewer.Exec.Counting.{Counts, Counts-call_other, Counts-rest, is_returned}
use codereviewer.Review.Process.{Deps, begun, is_disabled, check_disabled, start, process, handle}
use codereviewer.Review.Ending.{now, end_run}
use codereviewer.Review.Process.Calls.{other}
use codereviewer.Review.Process.Stages.{IsVerdict, Counts-budget}

abbrev pub is_new : Result (Text × Bool) → Bool
is_new (ok (id, false)) = true
is_new _ = false

not_new : (a b : Bool) → (not a && b) ≡ false → a ≡ false → b ≡ false
not_new a true = ground arith
not_new a false = ground arith

both : (a b : Bool) → (not a && b) ≡ true → (a ≡ false) × (b ≡ true)
both true b h = absurd (ground arith)
both false b h = (refl, h)

module _ (env : Env) (deps : Deps) (job : ReviewJob) (t : Trace) where
  -- the repository is found to be disabled
  abbrev pub disabled_now : Bool
  disabled_now = deps.repos && is_disabled (env.repo t job.pr_ref.repo_id)

  -- the events of the check whether the repository is disabled
  abbrev pub looked_up : Trace
  looked_up = if deps.repos then get_repo job.pr_ref.repo_id ∷ t else t

  abbrev pub begin_args : BeginRun
  begin_args = record {
    ref = job.pr_ref;
    trigger = job.trigger;
    idempotency_key = review_key job;
    started_at = env.clock looked_up;
  }

  abbrev pub begin_result : Result (Text × Bool)
  begin_result = env.began (read_clock ∷ looked_up) begin_args

  -- the job opens a run: its repository is not disabled, and the store records a new run for it
  abbrev pub opens_run : Bool
  opens_run = not disabled_now && is_new begin_result

  abbrev pub begin_trace : Trace
  begin_trace = begin begin_args ∷ read_clock ∷ looked_up

  -- all that a job does which opens no run
  abbrev pub skipped_trace : Trace
  skipped_trace = if disabled_now then looked_up else begin_trace

  check_disabled_lem :
      check_disabled env deps job.pr_ref.repo_id t ≡ (returned disabled_now, looked_up)
  check_disabled_lem = elim (Bool-cases deps.repos) [
    | inl e ↦ unfold check_disabled ◌>>=◌ call pure in rw e refl
    | inr e ↦ unfold check_disabled pure in rw e refl
  ]

  process_disabled : disabled_now ≡ true → process env deps job t ≡ (returned (ok tt), looked_up)
  process_disabled h = unfold process ◌>>=◌ pure in rw (check_disabled_lem, h) refl

  pub process_enabled :
      disabled_now ≡ false
      → process env deps job t ≡ begun env deps job.pr_ref begin_result begin_trace
  process_enabled h = unfold process start now ◌>>=◌ call in rw (check_disabled_lem, h) refl

  begun_old :
      (ref : PrRef) (r : Result (Text × Bool)) (s : Trace)
      → is_new r ≡ false
      → (is_returned (begun env deps ref r s).0 ≡ true) × ((begun env deps ref r s).1 ≡ s)
  unfolding begun pure
  begun_old ref (err e) s h = (refl, refl)
  begun_old ref (ok (id, true)) s h = (refl, refl)
  begun_old ref (ok (id, false)) s h = absurd (ground arith)

  process_skipped :
      opens_run ≡ false
      → (is_returned (process env deps job t).0 ≡ true)
        × ((process env deps job t).1 ≡ skipped_trace)
  process_skipped h = elim (Bool-cases disabled_now) [
    | inl e ↦ rw (process_disabled e, e) (refl, refl)
    | inr e ↦
        rw (process_enabled e, e)
          (begun_old job.pr_ref begin_result begin_trace
            (not_new disabled_now (is_new begin_result) h e))
  ]

module _ (p : Event → Bool) (quiet : (e : Event) → is_watched e ≡ false → p e ≡ false) (env : Env)
    (checks : (ref : PrRef) (r : CheckResult) → IsVerdict env r → p (update_check ref r) ≡ false)
    (n : ℕ) (ends : (id : Text) (r : RunResult) → Counts p n (end_run env id r)) (deps : Deps) where
  Counts-new :
      (ref : PrRef)
      → env.registered (provider_or_default ref) ≡ true
      → (r : Result (Text × Bool)) → is_new r ≡ true
      → Counts p n (begun env deps ref r)
  unfolding begun
  Counts-new ref known (ok (id, false)) h =
      search (other p quiet, Counts-budget p quiet env checks n ends ref known, Counts-rest)
  Counts-new ref known (ok (id, true)) h = absurd (ground arith)
  Counts-new ref known (err e) h = absurd (ground arith)

  tally_if :
      (b : Bool) (k : ℕ) (u v : Trace)
      → tally p u ≡ k
      → tally p v ≡ k
      → tally p (if b then u else v) ≡ k
  tally_if true k u v hu hv = hu
  tally_if false k u v hu hv = hv

  tally_begin : (job : ReviewJob) (t : Trace) → tally p (begin_trace env deps job t) ≡ tally p t
  tally_begin job t =
      let a = quiet (get_repo job.pr_ref.repo_id) refl in
      let b = quiet (begin (begin_args env deps job t)) refl in
      let c = quiet read_clock refl in
      rw (b, c)
        (tally_if deps.repos (tally p t) (get_repo job.pr_ref.repo_id ∷ t) t (rw a refl) refl)

  tally_skipped : (job : ReviewJob) (t : Trace) → tally p (skipped_trace env deps job t) ≡ tally p t
  tally_skipped job t =
      let a = quiet (get_repo job.pr_ref.repo_id) refl in
      let looked =
        tally_if deps.repos (tally p t) (get_repo job.pr_ref.repo_id ∷ t) t (rw a refl) refl in
      tally_if (disabled_now env deps job t) (tally p t) _ _ looked (tally_begin job t)

  pub process_counts :
      (job : ReviewJob) (t : Trace)
      → env.registered (provider_or_default job.pr_ref) ≡ true
      → (is_returned (process env deps job t).0 ≡ true)
        × (tally p (process env deps job t).1
            ≡ (if opens_run env deps job t then n else 0) + tally p t)
  process_counts job t known = elim (Bool-cases (opens_run env deps job t)) [
    | inl e ↦
        let (enabled, new) =
          both (disabled_now env deps job t) (is_new (begin_result env deps job t)) e in
        let run = Counts-new job.pr_ref known (begin_result env deps job t) new in
        let begins = begin_trace env deps job t in
        rw (process_enabled env deps job t enabled, e)
          (run.returns begins, rw (run.adds begins, tally_begin job t) refl)
    | inr e ↦
        let (returns, trace) = process_skipped env deps job t e in
        rw e (returns, rw (trace, tally_skipped job t) (omega arith))
  ]

module _ (env : Env) (deps : Deps) where
  -- A job that opens no run does nothing but look its repository up and, if that is not disabled,
  -- read the clock and ask the store to begin the run: no diff is fetched, no LLM is asked, and
  -- nothing is posted. It returns.
  pub process-skips :
      (job : ReviewJob) (t : Trace)
      → opens_run env deps job t ≡ false
      → (is_returned (process env deps job t).0 ≡ true)
        × ((process env deps job t).1 ≡ skipped_trace env deps job t)
  process-skips job t h = process_skipped env deps job t h

  ack_after :
      (r : Run (Result (Unit {0}))) (s : Trace)
      → is_returned r ≡ true
      → continue r (λ _. call ack env.acked) s ≡ (returned (env.acked s), ack ∷ s)
  unfolding call
  ack_after (returned x) s h = refl
  ack_after panicked s h = absurd (ground arith)

  handle_decoded :
      (job : ReviewJob) (t : Trace)
      → is_returned (process env deps job t).0 ≡ true
      → (is_returned (handle env deps (ok job) t).0 ≡ true)
        × ((handle env deps (ok job) t).1 ≡ ack ∷ (process env deps job t).1)
  handle_decoded job t h =
      unfold handle ◌>>=◌ in
      rw (ack_after (process env deps job t).0 (process env deps job t).1 h) (refl, refl)

  -- the VCS provider of the job's pull request, if there is a job, is registered
  abbrev pub HasProvider : Result ReviewJob → Type 0
  HasProvider (err e) = Unit
  HasProvider (ok job) = env.registered (provider_or_default job.pr_ref) ≡ true

  -- Every delivery is answered exactly once, by one ack or one nack, and its handling returns,
  -- whatever the stores, the VCS and the LLM answer. When the payload decodes to a job, the VCS
  -- provider of its pull request must be registered.
  pub handle-answers_once :
      (payload : Result ReviewJob) (t : Trace)
      → HasProvider payload
      → (is_returned (handle env deps payload t).0 ≡ true)
        × (tally is_settled (handle env deps payload t).1 ≡ 1 + tally is_settled t)
  handle-answers_once (err e) t known = unfold handle ◌>>=◌ call pure in (refl, omega arith)
  handle-answers_once (ok job) t known =
      let (returns, adds) =
        process_counts is_settled (λ e h. ground (arith, h)) env (λ ref r v. refl) 0
          (λ id r. unfold end_run in Counts-call_other (finish id r) _ refl) deps job t known in
      let (handled, trace) = handle_decoded job t returns in
      (handled, rw trace (omega (arith, adds, either_zero (opens_run env deps job t))))

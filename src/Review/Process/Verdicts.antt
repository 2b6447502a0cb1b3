-- ===== src/Review/Process/Verdicts.antt =====
-- Which checks a job sets.
use codereviewer.Prelude.{
  ◌≡◌, refl, ◌∙◌, Bool, true, false, ◌&&◌, List, [], ◌∷◌, arith, Text, codes, text_eq, tally, keep,
  any_of, either_zero, All, Bool-cases, inl, inr,
}
use codereviewer.Ports.{
  ok, PrRef, provider_or_default, CheckResult, RawComment, ChatRequest, ChatResponse,
}
use codereviewer.Schemas.{ReviewJob}
use codereviewer.Exec.{Event, Env, Trace, update_check, is_check, finish}
use codereviewer.Exec.Counting.{Counts-call_other}
use codereviewer.Core.LlmOutput.{parse_output}
use codereviewer.Review.Diff.{valid_right_lines}
use codereviewer.Review.Posting.{blocks}
use codereviewer.Review.Posting.Comments.{IsBlocker, blocks_iff, is_in_diff, place-keep}
use codereviewer.Review.Process.{Deps, process}
use codereviewer.Review.Ending.{check, end_run}
use codereviewer.Review.Process.Stages.{IsVerdict, passing, verdict}
use codereviewer.Review.Process.Runs.{process_counts, opens_run}

abbrev pub fails : Event → Bool
fails (update_check ref r) = text_eq r.conclusion (codes "failure")
fails _ = true

-- a check that fails
abbrev pub is_failure : Event → Bool
is_failure e = is_check e && fails e

any_of-keep :
    (p q : RawComment → Bool) (cs : List RawComment)
    → any_of p cs ≡ false
    → any_of p (keep q cs) ≡ false
any_of-keep p q [] h = refl
any_of-keep p q (c ∷ cs) h =
    let rest = any_of-keep p q cs (ground (arith, h)) in ground (arith, rest, h)

success_passes :
    (summary : Text)
    → text_eq (check (codes "success") summary).conclusion (codes "failure") ≡ false
unfolding check text_eq
success_passes summary = refl

no_blocker : (cs : List RawComment) → All (λ c. ¬ IsBlocker c) cs → any_of blocks cs ≡ false
no_blocker [] _ = refl
no_blocker (c ∷ cs) (harmless, rest) = elim (Bool-cases (blocks c)) [
  | inl e ↦ absurd (harmless ((blocks_iff c).0 e))
  | inr e ↦ rw e (no_blocker cs rest)
]

-- Wherever an answer of the LLM parses, none of its comments is about a bug or security or has high
-- severity.
abbrev pub IsHarmless : Env → Type 0
IsHarmless env =
    (asked : Trace) (req : ChatRequest) (resp : ChatResponse) (raw : List RawComment)
    → env.answer asked req ≡ ok resp
    → parse_output env.decode_output resp.content ≡ ok raw
    → All (λ c. ¬ IsBlocker c) raw

module _ (env : Env) (harmless : IsHarmless env) where
  verdict-IsPassing :
      (ref : PrRef) (r : CheckResult) → IsVerdict env r → is_failure (update_check ref r) ≡ false
  verdict-IsPassing ref r (passing summary) = success_passes summary
  verdict-IsPassing ref r (verdict resp diff summary raw (asked, req, answer) parsed) =
      let (comments, blocker) = place-keep (valid_right_lines diff) raw in
      let kept =
        any_of-keep blocks (is_in_diff (valid_right_lines diff)) raw
          (no_blocker raw (harmless asked req resp raw answer parsed)) in
      rw (blocker, kept) (success_passes summary)

  -- If no answer of the LLM that parses has a comment about a bug or security or of high severity, a
  -- job sets no failing check: not when it fails open, exceeds the budget or finds no changes,
  -- either. The VCS provider of the pull request must be registered.
  pub process-passes :
      (deps : Deps) (job : ReviewJob) (t : Trace)
      → env.registered (provider_or_default job.pr_ref) ≡ true
      → tally is_failure (process env deps job t).1 ≡ tally is_failure t
  process-passes deps job t known =
      let (returns, adds) =
        process_counts is_failure (λ e h. ground (arith, h)) env verdict-IsPassing 0
          (λ id r. unfold end_run in Counts-call_other (finish id r) _ refl) deps job t known in
      adds ∙ rw (either_zero (opens_run env deps job t)) (omega arith)

-- ===== src/Review/Process/Stages.antt =====
-- The stages of a run whose VCS provider is registered: each returns, and they add the events of a
-- kind that the end of the run adds.
use codereviewer.Prelude.{
  ℕ, ◌≡◌, refl, codes, if◌then◌else◌, Bool, true, false, Option, none, some, List, [], ◌∷◌, Text,
}
use codereviewer.Prelude.Int.{ℤ}
use codereviewer.Ports.{
  Usd, Result, ok, err, PrRef, provider_or_default, BotComment, ReviewPayload, PostedReview,
  CheckResult, ChatResponse, RunResult, CostCap, RawComment,
}
use codereviewer.Exec.{is_watched, Event, Env, update_check}
use codereviewer.Exec.Counting.{
  Counts, Counts-pure, Counts-call_other, Counts-rest, Counts-rest_with, Counts-first, Counts-if,
}
use codereviewer.Core.Retry.Answers.{IsAnswer, IsAnswered, chat_with_retry-IsAnswered}
use codereviewer.Core.LlmOutput.{parse_output}
use codereviewer.Review.Diff.{valid_right_lines}
use codereviewer.Core.Prompt.{Inputs, assemble}
use codereviewer.Core.Prompt.Drops.{assemble-IsAssemblyOf}
use codereviewer.Review.Posting.{Placed, place}
use codereviewer.Review.Process.{
  Deps, ask, review_diff, use_diff, fetch, find_previous_head, within_budget, budget,
}
use codereviewer.Review.Ending.{
  check, now, vcs, post, set_check, end_run, fail_open, post_budget_exceeded, post_no_changes,
}
use codereviewer.Review.Publishing.{persist, settle, conclude, publish, publish_raw, later_ids}
use codereviewer.Review.Process.Calls.{
  other, Counts-chat_with_retry, Counts-embed_query, Counts-retrieve_code, Counts-retrieve_comments,
  Counts-retrieve_rules, Counts-fetch_sections,
}

-- The checks that a run may set: one that passes, or the verdict on an answer of the LLM, where it
-- parses.
pub data IsVerdict (env : Env) : CheckResult → Type 0 where
  passing : (summary : Text) → IsVerdict env (check (codes "success") summary)
  verdict :
      (resp : ChatResponse) (diff summary : Text) (raw : List RawComment)
      → IsAnswer env resp
      → parse_output env.decode_output resp.content ≡ ok raw
      → IsVerdict env (
          check
            (if (place (valid_right_lines diff) raw).has_blocker
              then codes "failure"
              else codes "success")
            summary)

module _ (p : Event → Bool) (quiet : (e : Event) → is_watched e ≡ false → p e ≡ false) (env : Env)
    (checks : (ref : PrRef) (r : CheckResult) → IsVerdict env r → p (update_check ref r) ≡ false)
    (n : ℕ) (ends : (id : Text) (r : RunResult) → Counts p n (end_run env id r)) (ref : PrRef)
    (known : env.registered (provider_or_default ref) ≡ true) where
  Counts-vcs : Counts p 0 (vcs env ref)
  unfolding vcs
  Counts-vcs = rw known (Counts-pure tt)

  Counts-now : Counts p 0 (now env)
  unfolding now
  Counts-now = search (other p quiet)

  Counts-post : (review : ReviewPayload) → Counts p 0 (post env ref review)
  unfolding post
  Counts-post review = search (Counts-vcs, other p quiet, Counts-rest)

  Counts-set_check : (r : CheckResult) → IsVerdict env r → Counts p 0 (set_check env ref r)
  unfolding set_check
  Counts-set_check r v =
      Counts-rest _ _ Counts-vcs (λ _. Counts-call_other (update_check ref r) _ (checks ref r v))

  Counts-passing :
      (summary : Text) → Counts p 0 (set_check env ref (check (codes "success") summary))
  Counts-passing summary = Counts-set_check _ (passing summary)

  pub Counts-fail_open : (id cause : Text) → Counts p n (fail_open env ref id cause)
  unfolding fail_open
  Counts-fail_open id cause = Counts-rest _ _ (Counts-post _) λ _.
      Counts-rest _ _ (Counts-passing _)
        λ _. Counts-rest _ _ Counts-now λ at. Counts-first _ _ (ends id _) λ _. Counts-pure _

  Counts-persist : (cs : List BotComment) (ids : List ℤ) → Counts p 0 (persist env ref cs ids)
  unfolding persist
  Counts-persist [] ids = Counts-pure tt
  Counts-persist (c ∷ cs) ids =
      Counts-rest _ _ (search (other p quiet)) (λ _. Counts-persist cs (later_ids ids))

  Counts-settle :
      (id : Text) (resp : ChatResponse) (review : PostedReview) (r : Result (Unit {0}))
      → Counts p n (settle env ref id resp review r)
  unfolding settle
  Counts-settle id resp review (err e) = search Counts-fail_open
  Counts-settle id resp review (ok _) = search (Counts-now, other p quiet, Counts-rest, ends)

  Counts-conclude :
      (id : Text) (resp : ChatResponse) (placed : Placed) (r : Result PostedReview)
      → ((summary : Text)
          → IsVerdict env
              (check (if placed.has_blocker then codes "failure" else codes "success") summary))
      → Counts p n (conclude env ref id resp placed r)
  unfolding conclude
  Counts-conclude id resp placed (err e) v = search Counts-fail_open
  Counts-conclude id resp placed (ok review) v =
      Counts-rest _ _ (Counts-persist _ _)
        λ _. Counts-rest _ _ (Counts-set_check _ (v _)) λ r. Counts-settle id resp review r

  Counts-publish_raw :
      (id diff : Text) (resp : ChatResponse) (r : Result (List RawComment))
      → IsAnswer env resp
      → parse_output env.decode_output resp.content ≡ r
      → Counts p n (publish_raw env ref id diff resp r)
  unfolding publish_raw
  Counts-publish_raw id diff resp (err e) answer parsed = search Counts-fail_open
  Counts-publish_raw id diff resp (ok raw) answer parsed = Counts-rest _ _ (Counts-post _) λ review.
      Counts-conclude id resp _ review (λ summary. verdict resp diff summary raw answer parsed)

  Counts-publish :
      (id diff : Text) (r : Result ChatResponse)
      → IsAnswered env r
      → Counts p n (publish env ref id diff r)
  unfolding publish
  Counts-publish id diff (err e) answer = search Counts-fail_open
  Counts-publish id diff (ok resp) answer = Counts-publish_raw id diff resp _ answer refl

  Counts-ask :
      (deps : Deps) (id diff : Text) (i : Inputs) (cap token_cap : ℤ) (est : Text → ℕ)
      → Counts p n (ask env deps ref id diff cap (assemble i token_cap est))
  unfolding ask
  Counts-ask deps id diff i cap token_cap est =
      let (a, returns, _) = assemble-IsAssemblyOf i token_cap est in
      rw (returns, ask)
        (Counts-rest_with (IsAnswered env) _ _ (Counts-chat_with_retry p quiet env _ _)
          (chat_with_retry-IsAnswered env _ _) (Counts-publish id diff))

  Counts-review_diff :
      (deps : Deps) (id : Text) (cap : CostCap) (diff : Text)
      → Counts p n (review_diff env deps ref id cap diff)
  unfolding review_diff
  Counts-review_diff deps id cap diff =
      Counts-rest _ _ (Counts-embed_query p quiet env _ _ _ _) λ v.
        Counts-rest _ _ (Counts-retrieve_code p quiet env _ _ _ _ _) λ code.
          Counts-rest _ _ (Counts-retrieve_comments p quiet env _ _ _ _) λ comments.
            Counts-rest _ _ (Counts-retrieve_rules p quiet env _ _ _) λ rules.
              Counts-rest _ _ (Counts-fetch_sections p quiet env _ _) λ sections.
                Counts-rest _ _ (search (other p quiet)) λ setting. Counts-ask deps id diff _ _ _ _

  Counts-use_diff :
      (deps : Deps) (id : Text) (cap : CostCap) (prev : Option Text) (r : Result Text)
      → Counts p n (use_diff env deps ref id cap prev r)
  unfolding use_diff
  Counts-use_diff deps id cap prev (err e) = search Counts-fail_open
  Counts-use_diff deps id cap none (ok diff) = search Counts-review_diff
  Counts-use_diff deps id cap (some head) (ok diff) =
      unfold post_no_changes in
      search (Counts-review_diff, Counts-if, Counts-passing, Counts-now, Counts-rest, ends)

  Counts-fetch : (deps : Deps) (prev : Option Text) → Counts p 0 (fetch env deps ref prev)
  unfolding fetch
  Counts-fetch deps none = search (Counts-vcs, other p quiet, Counts-rest)
  Counts-fetch deps (some head) = search (Counts-vcs, other p quiet, Counts-rest)

  Counts-find_previous_head : (deps : Deps) → Counts p 0 (find_previous_head env deps ref)
  unfolding find_previous_head
  Counts-find_previous_head deps = search (Counts-pure, other p quiet, Counts-rest, Counts-if)

  Counts-within_budget :
      (deps : Deps) (id : Text) (cap : CostCap) (r : Result Usd)
      → Counts p n (within_budget env deps ref id cap r)
  unfolding within_budget
  Counts-within_budget deps id cap (err e) = search Counts-fail_open
  Counts-within_budget deps id cap (ok spent) =
      unfold post_budget_exceeded in
      search (
        Counts-find_previous_head, Counts-fetch, Counts-use_diff, Counts-post, Counts-passing,
        Counts-now, Counts-if, Counts-rest, ends,
      )

  pub Counts-budget :
      (deps : Deps) (id : Text) (r : Result CostCap) → Counts p n (budget env deps ref id r)
  unfolding budget
  Counts-budget deps id (err e) = search Counts-fail_open
  Counts-budget deps id (ok cap) = search (other p quiet, Counts-within_budget, Counts-rest)

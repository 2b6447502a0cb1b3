-- ===== src/Review/Publishing.antt =====
-- From the LLM's answer to the end of a run of the review pipeline
-- (internal/core/pipelines/review/pipeline.go): parsing, posting, the check, the spend.
use codereviewer.Prelude.{
  Option, none, some, List, [], ◌∷◌, ◌++◌, Text, codes, itoa, length, if◌then◌else◌,
}
use codereviewer.Prelude.Int.{ℤ}
use codereviewer.Ports.{
  Time, Result, ok, err, wrap, PrRef, BotComment, PostedReview, ChatResponse, posted, RunResult,
  RawComment,
}
use codereviewer.Exec.{Env, M, ◌>>=◌, ◌>>◌, pure, call, record_spend, upsert_comment}
use codereviewer.Core.LlmOutput.{parse_output}
use codereviewer.Review.Diff.{valid_right_lines}
use codereviewer.Review.Posting.{Placed, place, summary_body, upsert_of}
use codereviewer.Review.Ending.{check, now, post, set_check, end_run, fail_open}

abbrev pub next_id : List ℤ → Option ℤ
next_id [] = none
next_id (i ∷ is) = some i

abbrev pub later_ids : List ℤ → List ℤ
later_ids [] = []
later_ids (i ∷ is) = is

module _ (env : Env) where
  -- one upsert for each comment; failures are not fatal; the store of comments, which is called
  -- without a check for nil, is taken to be wired
  unfoldable pub persist : PrRef → List BotComment → List ℤ → M (Unit {0})
  persist ref [] ids = pure tt
  persist ref (c ∷ cs) ids = do
    call (upsert_comment (upsert_of ref c (next_id ids)))
        (λ t. env.upserted t (upsert_of ref c (next_id ids)))
    persist ref cs (later_ids ids)

  abbrev pub run_result : ChatResponse → PostedReview → Time → RunResult
  run_result resp review at = record {
    status = posted;
    model_used = resp.model_used;
    tokens_in = resp.tokens_in;
    tokens_out = resp.tokens_out;
    cost_usd = resp.cost_usd;
    finished_at = at;
    posted_review_id = review.review_id;
    error = [];
  }

  -- the check is set, or that failed: record the spend and finish, or fail open
  unfoldable pub settle :
      PrRef → Text → ChatResponse → PostedReview → Result (Unit {0}) → M (Result (Unit {0}))
  settle ref run_id resp review (err e) = fail_open env ref run_id (wrap (codes "update check") e)
  settle ref run_id resp review (ok _) = do
    spent_at ← now env
    call (record_spend ref.tenant_id ref.repo_id resp.cost_usd spent_at)
        (λ t. env.recorded t ref.tenant_id ref.repo_id resp.cost_usd spent_at)
    at ← now env
    end_run env run_id (run_result resp review at)

  -- the review is up, or posting it failed
  unfoldable pub conclude :
      PrRef → Text → ChatResponse → Placed → Result PostedReview → M (Result (Unit {0}))
  conclude ref run_id resp placed (err e) = fail_open env ref run_id (wrap (codes "post review") e)
  conclude ref run_id resp placed (ok review) = do
    persist ref placed.comments review.comment_ids
    r ← set_check env ref (
        check (if placed.has_blocker then codes "failure" else codes "success")
          (itoa (length placed.comments) ++ codes " comments posted"))
    settle ref run_id resp review r

  -- the LLM's answer is parsed, or it is malformed
  unfoldable pub publish_raw :
      PrRef → Text → Text → ChatResponse → Result (List RawComment) → M (Result (Unit {0}))
  publish_raw ref run_id diff resp (err e) =
      fail_open env ref run_id (wrap (codes "parse llm output") e)
  publish_raw ref run_id diff resp (ok raw) = do
    let placed = place (valid_right_lines diff) raw
    review ← post env ref (record {
      body = summary_body (length placed.comments) placed.has_blocker;
      comments = placed.comments;
    })
    conclude ref run_id resp placed review

  -- the LLM has answered, or it is unavailable
  unfoldable pub publish : PrRef → Text → Text → Result ChatResponse → M (Result (Unit {0}))
  publish ref run_id diff (err e) = fail_open env ref run_id (wrap (codes "llm chat") e)
  publish ref run_id diff (ok resp) =
      publish_raw ref run_id diff resp (parse_output env.decode_output resp.content)

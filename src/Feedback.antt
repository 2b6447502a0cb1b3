-- ===== src/Feedback.antt =====
-- The feedback pipeline (internal/core/pipelines/feedback): reactions and replies to the bot's
-- comments are recorded as outcomes, then Conversation may answer. Logging is left out.
pub mod Signals
use codereviewer.Prelude.{
  ℕ, suc, Bool, true, false, not, ◌&&◌, ◌||◌, Option, none, some, List, [], ◌∷◌, ◌++◌, Text, codes,
  text_eq, is_empty, print_int, has_prefix, has_suffix, trim_space, tally, if◌then◌else◌,
}
use codereviewer.Prelude.Int.{ℤ, pos, ltb_ℤ, leb_ℤ, eqb_ℤ}
use codereviewer.Ports.{
  Usd, Result, ok, err, wrap, PrRef, primary, ChatRequest, ChatResponse, CostCap, Outcome, accepted,
  dismissed, discussed, OutcomeSignal, thumbs_up, thumbs_down, replied, CommentUpsert, Comment,
  FeedbackEvent, ConversationConfig, github,
}
use codereviewer.Schemas.{FeedbackJob}
use codereviewer.Exec.{
  Env, M, ◌>>=◌, ◌>>◌, pure, call, get_effective, today_spend, record_spend, chat,
  post_comment_reply, upsert_comment, get_by_github_id, append_feedback, update_outcome, list_by_pr,
  read_clock, read_conversation_config, ack, nack,
}
use codereviewer.Conversation.{Conversation, maybe_reply}

unfoldable pub is_one_of : List Text → Text → Bool
is_one_of [] s = false
is_one_of (x ∷ xs) s = text_eq s x || is_one_of xs s

-- what a job says of the comment, or that the job is ignored
unfoldable pub classify : FeedbackJob → Option (Outcome × OutcomeSignal)
classify job =
    if text_eq job.kind (codes "reaction")
    then (if is_one_of
          (codes "+1" ∷ codes "thumbs_up" ∷ codes "heart" ∷ codes "hooray" ∷ codes "rocket" ∷ [])
          job.reaction
        then some (accepted, thumbs_up)
        else if is_one_of (codes "-1" ∷ codes "thumbs_down" ∷ codes "confused" ∷ []) job.reaction
        then some (dismissed, thumbs_down)
        else none)
    else if text_eq job.kind (codes "reply")
    then some (discussed, replied)
    else none

abbrev pub feedback_event : Comment → OutcomeSignal → ℕ → FeedbackEvent
feedback_event c signal at = record {
  tenant_id = c.tenant_id;
  comment_id = c.comment_id;
  signal = signal;
  observed_at = at;
}

unfoldable pub is_bot : Comment → Bool
is_bot c = text_eq c.source (codes "bot")

module _ (env : Env) (conv : Conversation) where
  unfoldable pub reject : Text → Text → M (Result (Unit {0}))
  reject reason error = do call (nack reason) (λ t. env.nacked t reason); pure (err error)

  unfoldable pub accept : M (Result (Unit {0}))
  accept = call ack env.acked

  unfoldable pub after_update : FeedbackJob → Comment → Result (Unit {0}) → M (Result (Unit {0}))
  after_update job c (err e) =
      reject (codes "update outcome failed") (wrap (codes "update outcome") e)
  after_update job c (ok _) = do maybe_reply env conv c job; accept

  unfoldable pub after_append :
      FeedbackJob → Comment → Outcome → OutcomeSignal → Result (Unit {0}) → M (Result (Unit {0}))
  after_append job c outcome signal (err e) =
      reject (codes "append feedback failed") (wrap (codes "append feedback") e)
  after_append job c outcome signal (ok _) = do
    r ←
        call (update_outcome c.comment_id outcome signal)
          (λ t. env.updated t c.comment_id outcome signal)
    after_update job c r

  unfoldable pub record_signal :
      FeedbackJob → Outcome → OutcomeSignal → Result (Option Comment) → M (Result (Unit {0}))
  record_signal job outcome signal (err e) =
      reject (codes "lookup comment failed")
        (wrap (codes "get comment by github id " ++ print_int job.comment_external_id) e)
  record_signal job outcome signal (ok none) = accept
  record_signal job outcome signal (ok (some c)) =
      if is_bot c
      then (do
        at ← call read_clock env.clock
        r ←
            call (append_feedback (feedback_event c signal at))
              (λ t. env.appended t (feedback_event c signal at))
        after_append job c outcome signal r)
      else accept

  unfoldable pub look_up : FeedbackJob → Option (Outcome × OutcomeSignal) → M (Result (Unit {0}))
  look_up job none = accept
  look_up job (some (outcome, signal)) = do
    found ←
        call (get_by_github_id job.comment_external_id)
          (λ t. env.by_github_id t job.comment_external_id)
    record_signal job outcome signal found

  -- the payload decodes to a job, or it does not: a bad payload is acked too
  unfoldable pub consume : Result FeedbackJob → M (Result (Unit {0}))
  consume (err e) = accept
  consume (ok job) = look_up job (classify job)

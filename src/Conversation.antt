-- ===== src/Conversation.antt =====
-- Conversations (internal/core/pipelines/feedback/conversation.go): a question that is asked as a
-- reply to a comment of the bot is answered in the thread, when conversations are switched on.
-- Logging is left out.
pub mod Gates
pub mod Replies
use codereviewer.Prelude.{
  ℕ, suc, Bool, true, false, not, ◌&&◌, ◌||◌, Option, none, some, List, [], ◌∷◌, ◌++◌, Text, codes,
  text_eq, is_empty, print_int, has_prefix, has_suffix, trim_space, tally, if◌then◌else◌,
}
use codereviewer.Prelude.Int.{ℤ, pos, ltb_ℤ, leb_ℤ, eqb_ℤ}
use codereviewer.Ports.{
  Usd, Result, ok, err, wrap, PrRef, primary, ChatRequest, ChatResponse, CostCap, Outcome, accepted,
  dismissed, discussed, unset, OutcomeSignal, thumbs_up, thumbs_down, replied, CommentUpsert,
  Comment, FeedbackEvent, ConversationConfig, github,
}
use codereviewer.Schemas.{FeedbackJob}
use codereviewer.Exec.{
  Env, M, ◌>>=◌, ◌>>◌, pure, call, get_effective, today_spend, record_spend, chat,
  post_comment_reply, upsert_comment, get_by_github_id, append_feedback, update_outcome, list_by_pr,
  read_clock, read_conversation_config, ack, nack,
}

unfoldable pub starts_with_one : List Text → Text → Bool
starts_with_one [] body = false
starts_with_one (p ∷ ps) body = not (is_empty p) && has_prefix body p || starts_with_one ps body

unfoldable pub ends_with_one : List Text → Text → Bool
ends_with_one [] body = false
ends_with_one (s ∷ ss) body = not (is_empty s) && has_suffix body s || ends_with_one ss body

unfoldable pub matches_trigger : Text → ConversationConfig → Bool
matches_trigger body cfg =
    starts_with_one cfg.trigger_prefixes (trim_space body)
    || ends_with_one cfg.trigger_suffixes (trim_space body)

unfoldable pub build_conversation_user_prompt : Text → Text → Text
build_conversation_user_prompt original_comment reply =
    codes "Your original comment:\n"
    ++ (original_comment ++ (codes "\n\nThe author replied:\n" ++ (reply ++ codes "\n\nClarify.")))

unfoldable pub is_bot_reply : Comment → Bool
is_bot_reply c = text_eq c.source (codes "bot-reply")

-- what conversations need is wired, the cost caps are; the fixed prompt
pub record Conversation : Type 0 where
  pub wired : Bool
  pub cost_caps : Bool
  pub system_prompt : Text

-- the switches, the kind and the text of a job under which the bot goes on to answer
unfoldable pub is_asked : ConversationConfig → FeedbackJob → Bool
is_asked cfg job =
    cfg.enabled
    && (text_eq job.kind (codes "reply")
        && not (is_empty (trim_space job.body))
        && matches_trigger job.body cfg)

-- the id that a thread is replied to; 0 when there is none
unfoldable pub parent_external_id : Comment → ℤ
parent_external_id parent = elim parent.github_id [ none ↦ pos 0 | some id ↦ id ]

unfoldable pub reply_upsert : Comment → FeedbackJob → Text → ℤ → CommentUpsert
reply_upsert parent job reply id = record {
  tenant_id = parent.tenant_id;
  repo_id = parent.repo_id;
  pr_number = job.pr_number;
  source = codes "bot-reply";
  github_id = some id;
  file_path = [];
  start_line = pos 0;
  end_line = pos 0;
  diff_hunk = [];
  comment_text = reply;
  category = [];
  outcome = unset;
  outcome_signal = none;
  embedding = [];
}

unfoldable pub thread_of : Comment → FeedbackJob → PrRef
thread_of parent job = record {
  tenant_id = parent.tenant_id;
  repo_id = parent.repo_id;
  pr_number = job.pr_number;
  head_sha = [];
  provider = [];
}

abbrev pub provider_of : FeedbackJob → Text
provider_of job = if is_empty job.provider then github else job.provider

abbrev pub ok_or_zero : Result Usd → Usd
ok_or_zero (ok spent) = spent
ok_or_zero (err e) = pos 0

module _ (env : Env) (conv : Conversation) (parent : Comment) (job : FeedbackJob) where
  -- the reply is posted, or that failed: keep it, and charge what it cost
  unfoldable pub keep_reply : ChatResponse → Text → Result ℤ → M (Unit {0})
  keep_reply resp reply (err e) = pure tt
  keep_reply resp reply (ok id) = do
    call (upsert_comment (reply_upsert parent job reply id))
        (λ t. env.upserted t (reply_upsert parent job reply id))
    if conv.cost_caps
        then (do
          at ← call read_clock env.clock
          call (record_spend parent.tenant_id parent.repo_id resp.cost_usd at)
              (λ t. env.recorded t parent.tenant_id parent.repo_id resp.cost_usd at)
          pure tt)
        else pure tt

  unfoldable pub post_reply : ChatResponse → Text → M (Unit {0})
  post_reply resp reply =
      if is_empty reply || eqb_ℤ (parent_external_id parent) (pos 0)
      then pure tt
      else if env.registered (provider_of job)
      then (do
        r ←
            call (post_comment_reply parent.repo_id job.pr_number (parent_external_id parent) reply)
              (λ t. env.replied t parent.repo_id job.pr_number (parent_external_id parent) reply)
        keep_reply resp reply r)
      else pure tt

  unfoldable pub use_answer : Result ChatResponse → M (Unit {0})
  use_answer (err e) = pure tt
  use_answer (ok resp) = post_reply resp (trim_space resp.content)

  unfoldable pub ask_llm : ConversationConfig → M (Unit {0})
  ask_llm cfg = do
    let request : ChatRequest = record {
      tier = primary;
      system_prompt = conv.system_prompt;
      user_prompt = build_conversation_user_prompt parent.comment_text job.body;
      max_output_tokens = cfg.max_output_tokens;
      response_format = codes "text";
    }
    r ← call (chat request) (λ t. env.answer t request)
    use_answer r

  -- the cap of the day is spent; a cap that is not positive, or that cannot be read, is none
  unfoldable pub over_cap : Result CostCap → M Bool
  over_cap (err e) = pure false
  over_cap (ok cap) =
      if ltb_ℤ (pos 0) cap.daily_usd_cap
      then (do
        spent ←
            call (today_spend parent.tenant_id parent.repo_id)
              (λ t. env.spend t parent.tenant_id parent.repo_id)
        pure (leb_ℤ cap.daily_usd_cap (ok_or_zero spent)))
      else pure false

  unfoldable pub is_over_budget : M Bool
  is_over_budget =
      if conv.cost_caps
      then (do
        cap ←
            call (get_effective parent.tenant_id parent.repo_id)
              (λ t. env.effective t parent.tenant_id parent.repo_id)
        over_cap cap)
      else pure false

  unfoldable pub within_reply_cap : ConversationConfig → Result (List Comment) → M (Unit {0})
  within_reply_cap cfg (err e) = pure tt
  within_reply_cap cfg (ok existing) =
      if leb_ℤ cfg.max_replies_per_pr (pos (tally is_bot_reply existing))
      then pure tt
      else do over ← is_over_budget; if over then pure tt else ask_llm cfg

  unfoldable pub answer_asked : ConversationConfig → M (Unit {0})
  answer_asked cfg =
      if is_asked cfg job
      then (do
        existing ←
            call (list_by_pr (thread_of parent job)) (λ t. env.pr_comments t (thread_of parent job))
        within_reply_cap cfg existing)
      else pure tt

  unfoldable pub maybe_reply : M (Unit {0})
  maybe_reply =
      if conv.wired
      then (do cfg ← call read_conversation_config env.conversation_config; answer_asked cfg)
      else pure tt

-- ===== src/Feedback/Signals.antt =====
-- How deliveries of feedback are answered and recorded.
use codereviewer.Prelude.{
  ℕ, ◌+◌, ◌≡◌, refl, ◌∙◌, Bool, true, false, ◌&&◌, Option, none, some, List, ◌∷◌, Text, tally,
  Bool-cases, inl, inr, if◌then◌else◌,
}
use codereviewer.Prelude.Int.{ℤ}
use codereviewer.Ports.{
  Result, ok, err, ChatResponse, CostCap, Outcome, OutcomeSignal, Comment, ConversationConfig,
  FeedbackEvent,
}
use codereviewer.Schemas.{FeedbackJob}
use codereviewer.Exec.{
  Event, Env, Trace, ◌>>=◌, call, append_feedback, get_by_github_id, is_settled, ack, nack,
}
use codereviewer.Exec.Counting.{
  Counts, Counts-pure, Counts-call_other, Counts-call_one, Counts-rest, Counts-bind, Counts-if,
  is_returned,
}
use codereviewer.Conversation.{
  Conversation, keep_reply, post_reply, use_answer, ask_llm, over_cap, is_over_budget,
  within_reply_cap, answer_asked, maybe_reply,
}
use codereviewer.Feedback.{
  classify, reject, accept, after_update, after_append, is_bot, feedback_event, record_signal,
  look_up, consume,
}

abbrev pub is_append : Event → Bool
is_append (append_feedback e) = true
is_append _ = false

-- the store finds a comment of the bot
abbrev pub is_own : Result (Option Comment) → Bool
is_own (ok (some c)) = is_bot c
is_own _ = false

abbrev pub is_signal : Option (Outcome × OutcomeSignal) → Bool
is_signal none = false
is_signal (some k) = true

-- the payload is a signal on a comment that the store has as the bot's
abbrev pub is_recorded : Env → Result FeedbackJob → Trace → Bool
is_recorded env (err e) t = false
is_recorded env (ok job) t =
    is_signal (classify job) && is_own (env.by_github_id t job.comment_external_id)

module _ (p : Event → Bool)
    (quiet : (e : Event) → is_append e ≡ false → is_settled e ≡ false → p e ≡ false) (env : Env)
    (conv : Conversation) (job : FeedbackJob) (c : Comment) where
  other :
      {A : Type 0} (e : Event) (answer : Trace → A)
      → is_append e ≡ false
      → is_settled e ≡ false
      → Counts p 0 (call e answer)
  other e answer f s = Counts-call_other e answer (quiet e f s)

  Counts-keep_reply :
      (resp : ChatResponse) (reply : Text) (r : Result ℤ)
      → Counts p 0 (keep_reply env conv c job resp reply r)
  unfolding keep_reply
  Counts-keep_reply resp reply (err e) = search Counts-pure
  Counts-keep_reply resp reply (ok id) = search (Counts-pure, other, Counts-rest, Counts-if)

  Counts-post_reply :
      (resp : ChatResponse) (reply : Text) → Counts p 0 (post_reply env conv c job resp reply)
  unfolding post_reply
  Counts-post_reply resp reply =
      search (Counts-pure, other, Counts-rest, Counts-if, Counts-keep_reply)

  Counts-use_answer : (r : Result ChatResponse) → Counts p 0 (use_answer env conv c job r)
  unfolding use_answer
  Counts-use_answer (err e) = search Counts-pure
  Counts-use_answer (ok resp) = search Counts-post_reply

  Counts-over_cap : (r : Result CostCap) → Counts p 0 (over_cap env conv c job r)
  unfolding over_cap
  Counts-over_cap (err e) = search Counts-pure
  Counts-over_cap (ok cap) = search (Counts-pure, other, Counts-rest, Counts-if)

  Counts-within_reply_cap :
      (cfg : ConversationConfig) (r : Result (List Comment))
      → Counts p 0 (within_reply_cap env conv c job cfg r)
  unfolding within_reply_cap is_over_budget ask_llm
  Counts-within_reply_cap cfg (err e) = search Counts-pure
  Counts-within_reply_cap cfg (ok existing) =
      search (Counts-pure, other, Counts-rest, Counts-if, Counts-over_cap, Counts-use_answer)

  Counts-maybe_reply : Counts p 0 (maybe_reply env conv c job)
  unfolding maybe_reply answer_asked
  Counts-maybe_reply = search (Counts-pure, other, Counts-rest, Counts-if, Counts-within_reply_cap)

module _ (p : Event → Bool)
    (quiet : (e : Event) → is_append e ≡ false → is_settled e ≡ false → p e ≡ false) (env : Env)
    (conv : Conversation) (s a : ℕ) (accepts : Counts p s (accept env conv))
    (rejects : (reason error : Text) → Counts p s (reject env conv reason error))
    (appends : (e : FeedbackEvent)
      → Counts p a (call (append_feedback e) (λ t. env.appended t e))) where
  Counts-after_update :
      (job : FeedbackJob) (c : Comment) (r : Result (Unit {0}))
      → Counts p s (after_update env conv job c r)
  unfolding after_update
  Counts-after_update job c (err e) = search rejects
  Counts-after_update job c (ok _) =
      Counts-rest _ _ (Counts-maybe_reply p quiet env conv job c) (λ _. accepts)

  Counts-after_append :
      (job : FeedbackJob) (c : Comment) (outcome : Outcome) (signal : OutcomeSignal)
      (r : Result (Unit {0}))
      → Counts p s (after_append env conv job c outcome signal r)
  unfolding after_append
  Counts-after_append job c outcome signal (err e) = search rejects
  Counts-after_append job c outcome signal (ok _) =
      Counts-rest _ _ (search (other p quiet env conv job c)) (λ r. Counts-after_update job c r)

  Counts-record_signal :
      (job : FeedbackJob) (outcome : Outcome) (signal : OutcomeSignal)
      (found : Result (Option Comment))
      → Counts p
          (if is_own found then a + s else s)
          (record_signal env conv job outcome signal found)
  Counts-record_signal job outcome signal (err e) = unfold record_signal in search rejects
  Counts-record_signal job outcome signal (ok none) = unfold record_signal in search accepts
  Counts-record_signal job outcome signal (ok (some c)) = elim (Bool-cases (is_bot c)) [
    | inl e ↦
        unfold record_signal in
        rw e (
          Counts-rest _ _ (search (other p quiet env conv job c)) λ at.
            Counts-bind a s _ _ (appends (feedback_event c signal at))
              λ r. Counts-after_append job c outcome signal r)
    | inr e ↦ unfold record_signal in rw e accepts
  ]

  Counts-consume :
      (payload : Result FeedbackJob) (t : Trace)
      → (is_returned (consume env conv payload t).0 ≡ true)
        × (tally p (consume env conv payload t).1
            ≡ (if is_recorded env payload t then a + s else s) + tally p t)
  Counts-consume (err e) t = unfold consume in (accepts.returns t, accepts.adds t)
  Counts-consume (ok job) t = unfold consume in go (classify job)
    where
      go :
          (k : Option (Outcome × OutcomeSignal))
          → (is_returned (look_up env conv job k t).0 ≡ true)
            × (tally p (look_up env conv job k t).1
                ≡ (if is_signal k && is_own (env.by_github_id t job.comment_external_id)
                    then a + s
                    else s)
                  + tally p t)
      go none = unfold look_up in (accepts.returns t, accepts.adds t)
      go (some (outcome, signal)) =
          let found = env.by_github_id t job.comment_external_id in
          let looked : Trace = get_by_github_id job.comment_external_id ∷ t in
          let run = Counts-record_signal job outcome signal found in
          let skipped = quiet (get_by_github_id job.comment_external_id) refl refl in
          unfold look_up ◌>>=◌ call in (run.returns looked, run.adds looked ∙ rw skipped refl)

is_settled_quiet : (e : Event) → is_append e ≡ false → is_settled e ≡ false → is_settled e ≡ false
is_settled_quiet e _ h = h

same : (b : Bool) → ◌≡◌ {A = ℕ} (if b then 0 + 1 else 1) 1
same true = refl
same false = refl

-- Every delivery of feedback is answered exactly once, by one ack or one nack, and its handling
-- returns, whatever the payload is and whatever the stores, the VCS and the LLM answer.
pub consume-answers_once :
    (env : Env) (conv : Conversation) (payload : Result FeedbackJob) (t : Trace)
    → (is_returned (consume env conv payload t).0 ≡ true)
      × (tally is_settled (consume env conv payload t).1 ≡ 1 + tally is_settled t)
consume-answers_once env conv payload t =
    let (returns, adds) =
      Counts-consume is_settled is_settled_quiet env conv 1 0
        (unfold accept in Counts-call_one ack _ refl)
        (λ reason error.
          unfold reject in
          Counts-bind 1 0 _ _ (Counts-call_one (nack reason) _ refl) (λ _. Counts-pure _))
        (λ e. Counts-call_other (append_feedback e) _ refl) payload t in
    (returns, adds ∙ rw (same (is_recorded env payload t)) refl)

-- A delivery appends exactly one feedback event when it is a signal on a comment that the store
-- finds and has as the bot's, and none otherwise: no thumbs on a human's comment, no other
-- reaction and no bad payload is recorded.
pub consume-records :
    (env : Env) (conv : Conversation) (payload : Result FeedbackJob) (t : Trace)
    → tally is_append (consume env conv payload t).1
      ≡ (if is_recorded env payload t then 1 else 0) + tally is_append t
consume-records env conv payload t =
    (Counts-consume is_append (λ e h _. h) env conv 0 1
      (unfold accept in Counts-call_other ack _ refl)
      (λ reason error.
        unfold reject in
        Counts-rest _ _ (Counts-call_other (nack reason) _ refl) (λ _. Counts-pure _))
      (λ e. Counts-call_one (append_feedback e) _ refl) payload t).1

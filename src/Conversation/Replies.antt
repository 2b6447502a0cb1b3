-- ===== src/Conversation/Replies.antt =====
-- When the bot answers in a thread.
use codereviewer.Prelude.{
  ℕ, ◌+◌, ◌≤◌, ◌≡◌, refl, ◌∙◌, subst, Bool, true, false, not, ◌&&◌, ◌||◌, ◌∷◌, arith, Text, tally,
  Bool-cases, inl, inr, if◌then◌else◌, either_zero, is_empty, trim_space,
}
use codereviewer.Prelude.Int.{ℤ, pos, eqb_ℤ}
use codereviewer.Ports.{Result, ok, err, ChatResponse, Comment, ConversationConfig}
use codereviewer.Schemas.{FeedbackJob}
use codereviewer.Exec.{Event, Env, Trace, Run, ◌>>=◌, call, chat, post_comment_reply}
use codereviewer.Exec.Counting.{
  Counts, Counts-pure, Counts-call_other, Counts-call_one, Counts-rest, Counts-first, Counts-if,
  is_returned,
}
use codereviewer.Conversation.{
  Conversation, parent_external_id, provider_of, keep_reply, post_reply, use_answer, ask_llm,
  maybe_reply,
}
use codereviewer.Conversation.Gates.{is_chat, is_reply, may_ask, Gate, maybe_reply_lem}

at_most_one : (b : Bool) → ◌≤◌ (if b then 1 else 0) 1
at_most_one true = omega arith
at_most_one false = omega arith

module _ (env : Env) (conv : Conversation) (parent : Comment) (job : FeedbackJob) where
  -- the answer is posted: it is not blank, the comment has an id, and the provider is registered
  abbrev pub is_postable : Result ChatResponse → Bool
  is_postable (err e) = false
  is_postable (ok resp) =
      not (is_empty (trim_space resp.content) || eqb_ℤ (parent_external_id parent) (pos 0))
      && env.registered (provider_of job)

  module _ (p : Event → Bool)
      (quiet : (e : Event) → is_chat e ≡ false → is_reply e ≡ false → p e ≡ false) (n : ℕ)
      (replies : (body : Text)
        → Counts p n (
            call
              (post_comment_reply parent.repo_id job.pr_number (parent_external_id parent) body)
              (λ t.
                env.replied t parent.repo_id job.pr_number (parent_external_id parent) body))) where
    other :
        {A : Type 0} (e : Event) (answer : Trace → A)
        → is_chat e ≡ false
        → is_reply e ≡ false
        → Counts p 0 (call e answer)
    other e answer f s = Counts-call_other e answer (quiet e f s)

    Counts-keep_reply :
        (resp : ChatResponse) (reply : Text) (r : Result ℤ)
        → Counts p 0 (keep_reply env conv parent job resp reply r)
    unfolding keep_reply
    Counts-keep_reply resp reply (err e) = search Counts-pure
    Counts-keep_reply resp reply (ok id) = search (Counts-pure, other, Counts-rest, Counts-if)

    Counts-use_answer :
        (r : Result ChatResponse)
        → Counts p (if is_postable r then n else 0) (use_answer env conv parent job r)
    Counts-use_answer (err e) = unfold use_answer in search Counts-pure
    Counts-use_answer (ok resp) =
        elim (Bool-cases
          (is_empty (trim_space resp.content) || eqb_ℤ (parent_external_id parent) (pos 0))) [
            | inl e ↦ unfold use_answer post_reply in rw e (Counts-pure tt)
            | inr e ↦ elim (Bool-cases (env.registered (provider_of job))) [
              | inl k ↦
                  unfold use_answer post_reply in
                  rw (e, k) (Counts-first _ _ (replies _) (λ r. Counts-keep_reply resp _ r))
              | inr k ↦ unfold use_answer post_reply in rw (e, k) (Counts-pure tt)
            ]
          ]

  chat_quiet : (e : Event) → is_chat e ≡ false → is_reply e ≡ false → is_chat e ≡ false
  chat_quiet e h _ = h

  reply_quiet : (e : Event) → is_chat e ≡ false → is_reply e ≡ false → is_reply e ≡ false
  reply_quiet e _ h = h

  use_answer-chats : (r : Result ChatResponse) → Counts is_chat 0 (use_answer env conv parent job r)
  use_answer-chats r =
      subst (λ k. Counts is_chat k (use_answer env conv parent job r)) (either_zero (is_postable r))
        (Counts-use_answer is_chat chat_quiet 0 (λ body. Counts-call_other _ _ refl) r)

  use_answer-replies :
      (r : Result ChatResponse) (t : Trace)
      → tally is_reply (use_answer env conv parent job r t).1 ≤ 1 + tally is_reply t
  use_answer-replies r t =
      let adds =
        (Counts-use_answer is_reply reply_quiet 1 (λ body. Counts-call_one _ _ refl) r).adds t in
      omega (arith, adds, at_most_one (is_postable r))

  ask_llm-chats : (cfg : ConversationConfig) → Counts is_chat 1 (ask_llm env conv parent job cfg)
  unfolding ask_llm
  ask_llm-chats cfg = Counts-first _ _ (search Counts-call_one) use_answer-chats

  ask_llm-replies :
      (cfg : ConversationConfig) (t : Trace)
      → tally is_reply (ask_llm env conv parent job cfg t).1 ≤ 1 + tally is_reply t
  unfolding ask_llm ◌>>=◌ call
  ask_llm-replies cfg t = use_answer-replies _ (chat _ ∷ t)

  from_chat :
      (b : Bool) (cfg : ConversationConfig) (r : Run (Unit {0}) × Trace) (t : Trace)
      → Gate env conv parent job is_chat chat_quiet b cfg r t
      → (is_returned r.0 ≡ true) × (tally is_chat r.1 ≡ (if b then 1 else 0) + tally is_chat t)
  from_chat true cfg r t (s, asked, hs) =
      let run = ask_llm-chats cfg in rw asked (run.returns s, run.adds s ∙ rw hs refl)
  from_chat false cfg r t (returns, hs) = (returns, omega (arith, hs))

  from_reply :
      (b : Bool) (cfg : ConversationConfig) (r : Run (Unit {0}) × Trace) (t : Trace)
      → Gate env conv parent job is_reply reply_quiet b cfg r t
      → tally is_reply r.1 ≤ (if b then 1 else 0) + tally is_reply t
  from_reply true cfg r t (s, asked, hs) =
      let most = ask_llm-replies cfg s in rw asked (omega (arith, most, hs))
  from_reply false cfg r t (returns, hs) = omega (arith, hs)

  -- The bot asks the LLM about a reply exactly when conversations are wired and switched on, the job
  -- is a reply that matches a trigger, the pull request has room for one more answer and the cap of
  -- the day is not reached; then it asks once and posts at most one answer. Otherwise it does
  -- neither. It always returns.
  pub maybe_reply-asks :
      (t : Trace)
      → (is_returned (maybe_reply env conv parent job t).0 ≡ true)
        × (tally is_chat (maybe_reply env conv parent job t).1
            ≡ (if may_ask env conv parent job t then 1 else 0) + tally is_chat t)
        × (tally is_reply (maybe_reply env conv parent job t).1
            ≤ (if may_ask env conv parent job t then 1 else 0) + tally is_reply t)
  maybe_reply-asks t =
      let cfg = env.conversation_config t in
      let (returns, chats) =
        from_chat (may_ask env conv parent job t) cfg _ t
          (maybe_reply_lem env conv parent job is_chat chat_quiet t) in
      (
        returns,
        chats,
        from_reply (may_ask env conv parent job t) cfg _ t
            (maybe_reply_lem env conv parent job is_reply reply_quiet t),
      )

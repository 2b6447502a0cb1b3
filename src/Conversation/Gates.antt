-- ===== src/Conversation/Gates.antt =====
-- The conditions under which the bot goes on to ask the LLM, and the events up to there.
use codereviewer.Prelude.{
  ◌≡◌, refl, ◌∙◌, Bool, true, false, not, ◌&&◌, List, ◌∷◌, tally, Bool-cases, inl, inr,
  if◌then◌else◌,
}
use codereviewer.Prelude.Int.{pos, ltb_ℤ, leb_ℤ}
use codereviewer.Ports.{Result, ok, err, CostCap, Comment, ConversationConfig}
use codereviewer.Schemas.{FeedbackJob}
use codereviewer.Exec.{
  Event, Env, Trace, Run, returned, panicked, continue, ◌>>=◌, pure, call, chat, post_comment_reply,
  list_by_pr, get_effective, today_spend, read_conversation_config,
}
use codereviewer.Exec.Counting.{is_returned}
use codereviewer.Conversation.{
  Conversation, is_bot_reply, is_asked, thread_of, ok_or_zero, ask_llm, over_cap, is_over_budget,
  within_reply_cap, answer_asked, maybe_reply,
}

abbrev pub is_chat : Event → Bool
is_chat (chat r) = true
is_chat _ = false

abbrev pub is_reply : Event → Bool
is_reply (post_comment_reply repo pr parent body) = true
is_reply _ = false

-- the pull request has fewer replies of the bot than the cap
abbrev pub has_room : ConversationConfig → Result (List Comment) → Bool
has_room cfg (err e) = false
has_room cfg (ok existing) = not (leb_ℤ cfg.max_replies_per_pr (pos (tally is_bot_reply existing)))

module _ (env : Env) (conv : Conversation) (parent : Comment) (job : FeedbackJob) where
  -- the cap can be read and is positive, and the spend of the day, 0 if it cannot be read, has
  -- reached it
  unfoldable pub reaches_cap : Result CostCap → Trace → Bool
  reaches_cap (err e) t = false
  reaches_cap (ok cap) t =
      ltb_ℤ (pos 0) cap.daily_usd_cap
      && leb_ℤ cap.daily_usd_cap (ok_or_zero (env.spend t parent.tenant_id parent.repo_id))

  unfoldable pub is_spent : Trace → Bool
  is_spent t =
      conv.cost_caps
      && reaches_cap (env.effective t parent.tenant_id parent.repo_id)
          (get_effective parent.tenant_id parent.repo_id ∷ t)

  unfoldable pub may_answer : ConversationConfig → Trace → Bool
  may_answer cfg t =
      is_asked cfg job
      && (has_room cfg (env.pr_comments t (thread_of parent job))
          && not (is_spent (list_by_pr (thread_of parent job) ∷ t)))

  -- Conversations are wired and switched on, the job is a reply that matches a trigger, the pull
  -- request has room for one more answer, and the cap of the day is not reached.
  abbrev pub may_ask : Trace → Bool
  may_ask t = conv.wired && may_answer (env.conversation_config t) (read_conversation_config ∷ t)

  module _ (p : Event → Bool)
      (quiet : (e : Event) → is_chat e ≡ false → is_reply e ≡ false → p e ≡ false) where
    -- the LLM is asked after events of another kind, or there are only such events
    abbrev pub Gate : Bool → ConversationConfig → Run (Unit {0}) × Trace → Trace → Type 0
    Gate true cfg r t =
        (s : Trace) × (r ≡ ask_llm env conv parent job cfg s) × (tally p s ≡ tally p t)
    Gate false cfg r t = (is_returned r.0 ≡ true) × (tally p r.1 ≡ tally p t)

    Gate-tally :
        (b : Bool) (cfg : ConversationConfig) (r : Run (Unit {0}) × Trace) (s t : Trace)
        → tally p s ≡ tally p t
        → Gate b cfg r s
        → Gate b cfg r t
    Gate-tally true cfg r s t h (u, asked, hu) = (u, asked, hu ∙ h)
    Gate-tally false cfg r s t h (returns, hu) = (returns, hu ∙ h)

    over_cap_lem :
        (r : Result CostCap) (t : Trace)
        → ((over_cap env conv parent job r t).0 ≡ returned (reaches_cap r t))
          × (tally p (over_cap env conv parent job r t).1 ≡ tally p t)
    unfolding over_cap reaches_cap pure
    over_cap_lem (err e) t = (refl, refl)
    over_cap_lem (ok cap) t =
        let skipped = quiet (today_spend parent.tenant_id parent.repo_id) refl refl in
        elim (Bool-cases (ltb_ℤ (pos 0) cap.daily_usd_cap)) [
          | inl e ↦ unfold ◌>>=◌ call in rw e (refl, rw skipped refl)
          | inr e ↦ rw e (refl, refl)
        ]

    over_budget_wired :
        (t : Trace)
        → conv.cost_caps ≡ true
        → is_over_budget env conv parent job t
          ≡ over_cap env conv parent job
              (env.effective t parent.tenant_id parent.repo_id)
              (get_effective parent.tenant_id parent.repo_id ∷ t)
    unfolding is_over_budget ◌>>=◌ call
    over_budget_wired t e = rw e refl

    is_spent_wired :
        (t : Trace)
        → conv.cost_caps ≡ true
        → is_spent t
          ≡ reaches_cap
              (env.effective t parent.tenant_id parent.repo_id)
              (get_effective parent.tenant_id parent.repo_id ∷ t)
    unfolding is_spent
    is_spent_wired t e = rw e refl

    is_over_budget_lem :
        (t : Trace)
        → ((is_over_budget env conv parent job t).0 ≡ returned (is_spent t))
          × (tally p (is_over_budget env conv parent job t).1 ≡ tally p t)
    is_over_budget_lem t =
        let skipped = quiet (get_effective parent.tenant_id parent.repo_id) refl refl in
        elim (Bool-cases conv.cost_caps) [
          | inl e ↦
              let (result, adds) =
                over_cap_lem (env.effective t parent.tenant_id parent.repo_id)
                  (get_effective parent.tenant_id parent.repo_id ∷ t) in
              rw (over_budget_wired t e, is_spent_wired t e) (result, adds ∙ rw skipped refl)
          | inr e ↦ unfold is_over_budget is_spent pure in rw e (refl, refl)
        ]

    continue_if :
        (r : Run Bool) (b : Bool) (cfg : ConversationConfig) (s t : Trace)
        → r ≡ returned b
        → tally p s ≡ tally p t
        → Gate
            (not b)
            cfg
            (continue r (λ over. if over then pure tt else ask_llm env conv parent job cfg) s)
            t
    unfolding pure
    continue_if (returned true) true cfg s t h hs = (refl, hs)
    continue_if (returned false) false cfg s t h hs = (s, refl, hs)
    continue_if (returned true) false cfg s t h hs = absurd (cc)
    continue_if (returned false) true cfg s t h hs = absurd (cc)
    continue_if panicked b cfg s t h hs = absurd (cc)

    within_reply_cap_lem :
        (cfg : ConversationConfig) (r : Result (List Comment)) (t : Trace)
        → Gate
            (has_room cfg r && not (is_spent t))
            cfg
            (within_reply_cap env conv parent job cfg r t)
            t
    within_reply_cap_lem cfg (err e) t = unfold within_reply_cap pure in (refl, refl)
    within_reply_cap_lem cfg (ok existing) t =
        elim (Bool-cases (leb_ℤ cfg.max_replies_per_pr (pos (tally is_bot_reply existing)))) [
          | inl e ↦ unfold within_reply_cap pure in rw e (refl, refl)
          | inr e ↦
              let (result, adds) = is_over_budget_lem t in
              unfold within_reply_cap ◌>>=◌ in rw e (continue_if _ (is_spent t) cfg _ t result adds)
        ]

    answer_asked_lem :
        (cfg : ConversationConfig) (t : Trace)
        → Gate (may_answer cfg t) cfg (answer_asked env conv parent job cfg t) t
    answer_asked_lem cfg t = elim (Bool-cases (is_asked cfg job)) [
      | inl e ↦
          let listed : Trace = list_by_pr (thread_of parent job) ∷ t in
          let skipped = quiet (list_by_pr (thread_of parent job)) refl refl in
          let gate = within_reply_cap_lem cfg (env.pr_comments t (thread_of parent job)) listed in
          unfold may_answer answer_asked ◌>>=◌ call in
          rw e (Gate-tally _ cfg _ listed t (rw skipped refl) gate)
      | inr e ↦ unfold may_answer answer_asked pure in rw e (refl, refl)
    ]

    maybe_reply_wired :
        (t : Trace)
        → conv.wired ≡ true
        → maybe_reply env conv parent job t
          ≡ answer_asked env conv parent job
              (env.conversation_config t)
              (read_conversation_config ∷ t)
    unfolding maybe_reply ◌>>=◌ call
    maybe_reply_wired t e = rw e refl

    may_ask_wired :
        (t : Trace)
        → conv.wired ≡ true
        → may_ask t ≡ may_answer (env.conversation_config t) (read_conversation_config ∷ t)
    may_ask_wired t e = rw e refl

    pub maybe_reply_lem :
        (t : Trace)
        → Gate (may_ask t) (env.conversation_config t) (maybe_reply env conv parent job t) t
    maybe_reply_lem t =
        let skipped = quiet read_conversation_config refl refl in
        elim (Bool-cases conv.wired) [
          | inl e ↦
              let cfg = env.conversation_config t in
              let asked : Trace = read_conversation_config ∷ t in
              rw (maybe_reply_wired t e, may_ask_wired t e)
                (Gate-tally _ cfg _ asked t (rw skipped refl) (answer_asked_lem cfg asked))
          | inr e ↦ unfold maybe_reply pure in rw e (refl, refl)
        ]

-- ===== src/Gateway/Routes.antt =====
-- Which webhooks put a job on the bus.
use codereviewer.Prelude.{
  ◌+◌, ◌≡◌, refl, Bool, true, false, not, ◌&&◌, ◌||◌, inl, inr, Option, none, some, ◌∷◌, ◌++◌,
  arith, Text, codes, text_eq, text_eq_iff, trim_space, tally, Bool-cases, if◌then◌else◌,
}
use codereviewer.Prelude.Int.{pos, eqb_ℤ}
use codereviewer.Ports.{
  Result, ok, err, RepoRef, WebhookEventKind, pr_opened, slash_command, pull_request, push,
  review_comment, reaction, check_run, ping, PullRequestPayload, PushPayload, ReviewCommentPayload,
  ReactionPayload, WebhookEvent,
}
use codereviewer.Exec.{
  Event, Env, Trace, M, ◌>>=◌, call, ensure_exists, publish_review, publish_index, publish_feedback,
}
use codereviewer.Exec.Counting.{
  Counts, Counts-pure, Counts-call_other, Counts-call_one, Counts-if, is_returned,
}
use codereviewer.Schemas.{review_key}
use codereviewer.Gateway.{
  Gateway, parse_slash_command, is_review_action, owned_ref, owned_repo, publish_review_job,
  publish_index_job, publish_feedback_job, once_ensured, ensure_repo, handle_context_command,
  route_pull_request, route_push, run_command, route_review_comment, route_reaction, route_as,
  route,
}

abbrev pub is_publish : Event → Bool
is_publish (publish_review key job) = true
is_publish (publish_index key job) = true
is_publish (publish_feedback key job) = true
is_publish _ = false

abbrev pub is_ok {ℓ} : {A : Type ℓ} → Result A → Bool
is_ok (ok a) = true
is_ok (err e) = false

-- a command that is not a feedback reply
abbrev pub is_command : Text → Bool
is_command cmd =
    text_eq cmd (codes "/context") || (text_eq cmd (codes "/improve") || text_eq cmd (codes "/ask"))

wired : (b c : Bool) → b ≡ true → (not b || c) ≡ c
wired b c e = ground (arith, e)

human : (b c : Bool) → b ≡ false → (not b && c) ≡ c
human b c e = ground (arith, e)

unwired : (b c : Bool) → b ≡ false → (not b || c) ≡ true
unwired b c e = ground (arith, e)

module _ (env : Env) (gw : Gateway) (provider : Text) where
  -- the repository is recorded, or there is no store for it
  abbrev pub is_ensured : RepoRef → Trace → Bool
  is_ensured repo t = not gw.repos || is_ok (env.ensured t (owned_repo gw provider repo))

  abbrev pub wants_review : Option PullRequestPayload → Trace → Bool
  wants_review none t = false
  wants_review (some p) t = (is_review_action p.action && not p.is_draft) && is_ensured p.repo t

  abbrev pub wants_index : Option PushPayload → Trace → Bool
  wants_index none t = false
  wants_index (some p) t =
      text_eq p.ref (codes "refs/heads/" ++ p.repo.default_branch) && is_ensured p.repo t

  abbrev pub wants_command : ReviewCommentPayload → Text → Bool
  wants_command p cmd =
      text_eq cmd (codes "/review")
      || (not (is_command cmd) && not (eqb_ℤ p.in_reply_to_id (pos 0)))

  abbrev pub wants_answer : Option ReviewCommentPayload → Bool
  wants_answer none = false
  wants_answer (some p) =
      not p.is_bot && wants_command p (parse_slash_command (trim_space p.body)).0

  abbrev pub wants_reaction : Option ReactionPayload → Bool
  wants_reaction none = false
  wants_reaction (some p) = not (eqb_ℤ p.comment_external_id (pos 0))

  -- The events that make a job: a pull request that is opened, reopened or gets commits and is no
  -- draft, a push to the default branch (both when the repository can be recorded), a human's
  -- /review, a human's reply to a comment that is no other command, a reaction to a comment.
  abbrev pub wants_job_as : WebhookEventKind → WebhookEvent → Trace → Bool
  wants_job_as pull_request event t = wants_review event.pull_request_payload t
  wants_job_as push event t = wants_index event.push_payload t
  wants_job_as review_comment event t = wants_answer event.comment_payload
  wants_job_as reaction event t = wants_reaction event.reaction_payload
  wants_job_as check_run event t = false
  wants_job_as ping event t = false

  abbrev pub wants_job : WebhookEvent → Trace → Bool
  wants_job event t = wants_job_as event.kind event t

  -- from `t` on the action returns and adds one job if `b` holds and none otherwise
  abbrev Publishes : Bool → M (Result (Unit {0})) → Trace → Type 0
  Publishes b m t =
      (is_returned (m t).0 ≡ true)
      × (tally is_publish (m t).1 ≡ (if b then 1 else 0) + tally is_publish t)

  Publishes-none :
      (m : M (Result (Unit {0}))) (t : Trace) → Counts is_publish 0 m → Publishes false m t
  Publishes-none m t c = (c.returns t, c.adds t)

  Publishes-one :
      (m : M (Result (Unit {0}))) (t : Trace) → Counts is_publish 1 m → Publishes true m t
  Publishes-one m t c = (c.returns t, c.adds t)

  Publishes-once_ensured :
      (r : Result (Unit {0})) (next : M (Result (Unit {0}))) (t : Trace)
      → Counts is_publish 1 next
      → Publishes (is_ok r) (once_ensured env r next) t
  Publishes-once_ensured (err e) next t c =
      unfold once_ensured in Publishes-none _ t (Counts-pure _)
  Publishes-once_ensured (ok _) next t c = unfold once_ensured in Publishes-one next t c

  ensure_wired :
      (repo : RepoRef) (next : M (Result (Unit {0}))) (t : Trace)
      → gw.repos ≡ true
      → ensure_repo env gw repo next t
        ≡ once_ensured env (env.ensured t repo) next (ensure_exists repo ∷ t)
  unfolding ensure_repo ◌>>=◌ call
  ensure_wired repo next t e = rw e refl

  ensure_unwired :
      (repo : RepoRef) (next : M (Result (Unit {0}))) (t : Trace)
      → gw.repos ≡ false
      → ensure_repo env gw repo next t ≡ next t
  unfolding ensure_repo
  ensure_unwired repo next t e = rw e refl

  Publishes-ensure_repo :
      (repo : RepoRef) (next : M (Result (Unit {0}))) (t : Trace)
      → Counts is_publish 1 next
      → Publishes (is_ensured repo t) (ensure_repo env gw (owned_repo gw provider repo) next) t
  Publishes-ensure_repo repo next t c =
      let owned = owned_repo gw provider repo in
      elim (Bool-cases gw.repos) [
        | inl e ↦
            rw (ensure_wired owned next t e, wired gw.repos (is_ok (env.ensured t owned)) e)
              (Publishes-once_ensured (env.ensured t owned) next (ensure_exists owned ∷ t) c)
        | inr e ↦
            rw (ensure_unwired owned next t e, unwired gw.repos (is_ok (env.ensured t owned)) e)
              (Publishes-one next t c)
      ]

  Publishes-route_pull_request :
      (p : Option PullRequestPayload) (t : Trace)
      → Publishes (wants_review p t) (route_pull_request env gw provider p) t
  Publishes-route_pull_request none t =
      unfold route_pull_request in Publishes-none _ t (Counts-pure _)
  Publishes-route_pull_request (some p) t =
      elim (Bool-cases (is_review_action p.action && not p.is_draft)) [
        | inl e ↦
            unfold route_pull_request publish_review_job in
            rw e (Publishes-ensure_repo p.repo _ t (Counts-call_one _ _ refl))
        | inr e ↦ unfold route_pull_request in rw e (Publishes-none _ t (Counts-pure _))
      ]

  Publishes-route_push :
      (p : Option PushPayload) (t : Trace)
      → Publishes (wants_index p t) (route_push env gw provider p) t
  Publishes-route_push none t = unfold route_push in Publishes-none _ t (Counts-pure _)
  Publishes-route_push (some p) t =
      elim (Bool-cases (text_eq p.ref (codes "refs/heads/" ++ p.repo.default_branch))) [
        | inl e ↦
            unfold route_push publish_index_job in
            rw e (Publishes-ensure_repo p.repo _ t (Counts-call_one _ _ refl))
        | inr e ↦ unfold route_push in rw e (Publishes-none _ t (Counts-pure _))
      ]

  Counts-context :
      (p : ReviewCommentPayload) (body rest : Text)
      → Counts is_publish 0 (handle_context_command env gw p body rest)
  unfolding handle_context_command
  Counts-context p body rest = Counts-if _ _ _ (Counts-call_other _ _ refl) (Counts-pure _)

  Counts-run_command :
      (p : ReviewCommentPayload) (cmd rest : Text)
      → Counts is_publish
          (if wants_command p cmd then 1 else 0)
          (run_command env gw provider p (cmd, rest))
  Counts-run_command p cmd rest = elim (Bool-cases (text_eq cmd (codes "/review"))) [
    | inl r ↦ unfold run_command publish_review_job in rw r (Counts-call_one _ _ refl)
    | inr r ↦ elim (Bool-cases (text_eq cmd (codes "/context"))) [
      | inl c ↦ unfold run_command in rw (r, c) (Counts-context p (trim_space p.body) rest)
      | inr c ↦ elim (Bool-cases (text_eq cmd (codes "/improve") || text_eq cmd (codes "/ask"))) [
        | inl a ↦ unfold run_command in rw (r, c, a) (Counts-pure _)
        | inr a ↦ elim (Bool-cases (eqb_ℤ p.in_reply_to_id (pos 0))) [
          | inl z ↦ unfold run_command in rw (r, c, a, z) (Counts-pure _)
          | inr z ↦
              unfold run_command publish_feedback_job in rw (r, c, a, z) (Counts-call_one _ _ refl)
        ]
      ]
    ]
  ]

  of_human :
      (p : ReviewCommentPayload)
      → p.is_bot ≡ false
      → route_review_comment env gw provider (some p)
        ≡ run_command env gw provider p (parse_slash_command (trim_space p.body))
  unfolding route_review_comment
  of_human p e = rw e refl

  Publishes-route_review_comment :
      (p : Option ReviewCommentPayload) (t : Trace)
      → Publishes (wants_answer p) (route_review_comment env gw provider p) t
  Publishes-route_review_comment none t =
      unfold route_review_comment in Publishes-none _ t (Counts-pure _)
  Publishes-route_review_comment (some p) t = elim (Bool-cases p.is_bot) [
    | inl e ↦ unfold route_review_comment in rw e (Publishes-none _ t (Counts-pure _))
    | inr e ↦
        let command = parse_slash_command (trim_space p.body) in
        let counts = Counts-run_command p command.0 command.1 in
        rw (of_human p e, human p.is_bot (wants_command p command.0) e)
          (counts.returns t, counts.adds t)
  ]

  Publishes-route_reaction :
      (p : Option ReactionPayload) (t : Trace)
      → Publishes (wants_reaction p) (route_reaction env gw provider p) t
  Publishes-route_reaction none t = unfold route_reaction in Publishes-none _ t (Counts-pure _)
  Publishes-route_reaction (some p) t = elim (Bool-cases (eqb_ℤ p.comment_external_id (pos 0))) [
    | inl e ↦ unfold route_reaction in rw e (Publishes-none _ t (Counts-pure _))
    | inr e ↦
        unfold route_reaction publish_feedback_job in
        rw e (Publishes-one _ t (Counts-call_one _ _ refl))
  ]

  Publishes-route_as :
      (kind : WebhookEventKind) (event : WebhookEvent) (t : Trace)
      → Publishes (wants_job_as kind event t) (route_as env gw provider kind event) t
  unfolding route_as
  Publishes-route_as pull_request event t =
      Publishes-route_pull_request event.pull_request_payload t
  Publishes-route_as push event t = Publishes-route_push event.push_payload t
  Publishes-route_as review_comment event t = Publishes-route_review_comment event.comment_payload t
  Publishes-route_as reaction event t = Publishes-route_reaction event.reaction_payload t
  Publishes-route_as check_run event t = Publishes-none _ t (Counts-pure _)
  Publishes-route_as ping event t = Publishes-none _ t (Counts-pure _)

  -- A verified event puts exactly one job on the bus when it is one that makes a job, and none
  -- otherwise: none for drafts, for pushes to other branches, for comments of bots, for the other
  -- commands, and for a pull request or push whose repository cannot be recorded. The routing
  -- returns.
  pub route-publishes :
      (event : WebhookEvent) (t : Trace)
      → (is_returned (route env gw provider event t).0 ≡ true)
        × (tally is_publish (route env gw provider event t).1
            ≡ (if wants_job event t then 1 else 0) + tally is_publish t)
  unfolding route
  route-publishes event t = Publishes-route_as event.kind event t

  run_review :
      (p : ReviewCommentPayload) (cmd rest : Text) (t : Trace)
      → text_eq cmd (codes "/review") ≡ true
      → (run_command env gw provider p (cmd, rest) t).1
        ≡ publish_review
            (review_key (record { pr_ref = owned_ref gw provider p.ref; trigger = pr_opened }))
            (record { pr_ref = owned_ref gw provider p.ref; trigger = slash_command })
          ∷ t
  unfolding run_command publish_review_job call review_key
  run_review p cmd rest t h = rw h refl

  -- A human's /review publishes its job under the key that the job of the same head had when the
  -- pull request was opened.
  pub slash_review-same_key :
      (p : ReviewCommentPayload) (t : Trace)
      → p.is_bot ≡ false
      → (parse_slash_command (trim_space p.body)).0 ≡ codes "/review"
      → (route_review_comment env gw provider (some p) t).1
        ≡ publish_review
            (review_key (record { pr_ref = owned_ref gw provider p.ref; trigger = pr_opened }))
            (record { pr_ref = owned_ref gw provider p.ref; trigger = slash_command })
          ∷ t
  slash_review-same_key p t e h =
      let command = parse_slash_command (trim_space p.body) in
      rw (of_human p e)
        (run_review p command.0 command.1 t ((text_eq_iff command.0 (codes "/review")).1 h))

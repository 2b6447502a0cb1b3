-- ===== src/Core/Retry/Attempts.antt =====
-- How often the LLM is called, and what the result of the retries rests on.
use codereviewer.Prelude.{
  ℕ, zero, suc, ◌+◌, ◌≤◌, ◌<◌, ◌≡◌, refl, ap, subst, Bool, true, false, inl, inr, List, [], ◌∷◌,
  ◌++◌, arith, Text, codes, tally, Bool-cases, ◌==◌,
}
use codereviewer.Ports.{
  LlmTier, primary, fallback, ChatRequest, ChatResponse, Result, ok, err, Result-cases, wrap,
}
use codereviewer.Exec.{Event, Env, Trace, Run, returned, M, continue, ◌>>=◌, pure, call, chat, wait}
use codereviewer.Core.Retry.{
  RetryPolicy, backoff_for, exhausted, pause, after_attempt, try_from, try_tier, try_fallback,
  after_primary, chat_with_retry,
}

abbrev pub is_chat : Event → Bool
is_chat (chat r) = true
is_chat _ = false

-- Why a chain of at most `n` attempts ended as it did: the last event is the attempt whose answer
-- it returns; or it failed, after `n` attempts unless the context was cancelled during a wait.
pub data Verdict (env : Env) (n attempts : ℕ) : Run (Result ChatResponse) × Trace → Type 0 where
  answered :
      (req : ChatRequest) (resp : ChatResponse) (t : Trace)
      → env.answer t req ≡ ok resp
      → 0 < attempts
      → Verdict env n attempts (returned (ok resp), chat req ∷ t)
  failed :
      (e : Text) (t : Trace)
      → (((u : Trace) → env.cancelled u ≡ false) → attempts ≡ n)
      → Verdict env n attempts (returned (err e), t)

pub record Tries (env : Env) (n : ℕ) (t : Trace) (o : Run (Result ChatResponse) × Trace)
    : Type 0 where
  pub attempts : ℕ
  pub counted : tally is_chat o.1 ≡ attempts + tally is_chat t
  pub bounded : attempts ≤ n
  pub verdict : Verdict env n attempts o

module _ (env : Env) where
  more_attempts :
      {n a : ℕ} {o : Run (Result ChatResponse) × Trace}
      → Verdict env n a o
      → Verdict env (suc n) (suc a) o
  more_attempts (answered req resp t e h) = answered req resp t e (omega arith)
  more_attempts (failed e t h) = failed e t (λ calm. ap suc (h calm))

  -- one more attempt before, and perhaps a wait
  Tries-suc :
      {n : ℕ} {t t' : Trace} {o : Run (Result ChatResponse) × Trace}
      → tally is_chat t' ≡ suc (tally is_chat t)
      → Tries env n t' o
      → Tries env (suc n) t o
  Tries-suc more r = record {
    attempts = suc r.attempts;
    counted = omega (arith, r.counted);
    bounded = omega (arith, r.bounded);
    verdict = more_attempts r.verdict;
  }

  module _ (w : ℕ) (next : M (Result ChatResponse)) (t : Trace) where
    pause_none : (w == 0) ≡ true → pause env w next t ≡ next t
    unfolding pause
    pause_none z = rw z

    pause_over : (w == 0) ≡ false → env.cancelled t ≡ false → pause env w next t ≡ next (wait w ∷ t)
    unfolding pause ◌>>=◌ call
    pause_over p c = rw (p, c)

    pause_stopped :
        (w == 0) ≡ false
        → env.cancelled t ≡ true
        → pause env w next t ≡ (returned (err (codes "context canceled")), wait w ∷ t)
    unfolding pause ◌>>=◌ call pure
    pause_stopped p c = rw (p, c)

  Tries-pause :
      (w n : ℕ) (req : ChatRequest) (next : M (Result ChatResponse)) (t : Trace)
      → ((u : Trace) → Tries env n u (next u))
      → Tries env (suc n) t (pause env w next (chat req ∷ t))
  Tries-pause w n req next t h = elim (Bool-cases (w == 0)) [
    | inl z ↦ rw (pause_none w next (chat req ∷ t) z) (Tries-suc refl (h (chat req ∷ t)))
    | inr p ↦ elim (Bool-cases (env.cancelled (chat req ∷ t))) [
      | inl c ↦ rw (pause_stopped w next (chat req ∷ t) p c) (record {
        attempts = 1;
        counted = omega arith;
        bounded = omega arith;
        verdict =
            failed (codes "context canceled") (wait w ∷ chat req ∷ t)
              (λ calm. absurd (ground (arith, calm (chat req ∷ t))));
      })
      | inr c ↦
          rw (pause_over w next (chat req ∷ t) p c) (Tries-suc refl (h (wait w ∷ chat req ∷ t)))
    ]
  ]

  after_attempt_more :
      (k w max : ℕ) (tier : LlmTier) (next : M (Result ChatResponse)) (msg : Text)
      → after_attempt env (suc k) w tier max next (err msg) ≡ pause env w next
  unfolding after_attempt
  after_attempt_more k w max tier next msg =
      let more : (suc k == 0) ≡ false = ground arith in rw more

  Tries-after_attempt :
      (n w max : ℕ) (req : ChatRequest) (tier : LlmTier) (next : M (Result ChatResponse))
      (t : Trace)
      → ((u : Trace) → Tries env n u (next u))
      → Tries env (suc n) t (after_attempt env n w tier max next (env.answer t req) (chat req ∷ t))
  Tries-after_attempt n w max req tier next t h = elim (Result-cases (env.answer t req)) [
    | inl (resp, e) ↦ rw e (
        unfold after_attempt pure in
        record {
          attempts = 1;
          counted = omega arith;
          bounded = omega arith;
          verdict = answered req resp t e (omega arith);
        })
    | inr (msg, e) ↦ rw e (no_answer n msg h)
  ]
    where
      no_answer :
          (k : ℕ) (msg : Text)
          → ((u : Trace) → Tries env k u (next u))
          → Tries env (suc k) t (after_attempt env k w tier max next (err msg) (chat req ∷ t))
      no_answer zero msg g =
          unfold after_attempt pure in
          record {
            attempts = 1;
            counted = omega arith;
            bounded = omega arith;
            verdict = failed (exhausted tier max msg) (chat req ∷ t) (λ _. refl);
          }
      no_answer (suc k) msg g = rw after_attempt_more (Tries-pause w (suc k) req next t g)

  try_from-suc :
      (left attempt : ℕ) (req : ChatRequest) (tier : LlmTier) (max : ℕ) (backoff : List ℕ)
      (t : Trace)
      → try_from env (suc left) attempt req tier max backoff t
        ≡ after_attempt env left
            (backoff_for backoff attempt)
            tier
            max
            (try_from env left (attempt + 1) req tier max backoff)
            (env.answer t req)
            (chat req ∷ t)
  unfolding try_from ◌>>=◌ call
  try_from-suc left attempt req tier max backoff t = refl

  Tries-try_from :
      (left attempt : ℕ) (req : ChatRequest) (tier : LlmTier) (max : ℕ) (backoff : List ℕ)
      (t : Trace)
      → Tries env left t (try_from env left attempt req tier max backoff t)
  Tries-try_from zero attempt req tier max backoff t =
      unfold try_from pure in
      record {
        attempts = 0;
        counted = omega arith;
        bounded = omega arith;
        verdict = failed (exhausted tier max []) t (λ _. refl);
      }
  Tries-try_from (suc left) attempt req tier max backoff t =
      let rest = Tries-try_from left (attempt + 1) req tier max backoff in
      rw try_from-suc (
        Tries-after_attempt left (backoff_for backoff attempt) max req tier
          (try_from env left (attempt + 1) req tier max backoff) t rest)

  Tries-try_tier :
      (req : ChatRequest) (tier : LlmTier) (max : ℕ) (backoff : List ℕ) (t : Trace)
      → Tries env max t (try_tier env req tier max backoff t)
  unfolding try_tier
  Tries-try_tier req tier max backoff t =
      Tries-try_from max 0 (record req { tier = tier }) tier max backoff t

  abbrev unavailable : Text → Result ChatResponse → Result ChatResponse
  unavailable pe (ok resp) = ok resp
  unavailable pe (err e) = err (wrap (codes "LLM unavailable") (pe ++ b'\n' ∷ e))

  relabelled :
      {n a : ℕ} {o : Run (Result ChatResponse) × Trace} (pe : Text) (t : Trace)
      → Verdict env n a o
      → tally is_chat o.1 ≡ a + tally is_chat t
      → a ≤ n
      → Tries env n t (continue o.0 (λ r. pure (unavailable pe r)) o.1)
  relabelled {a = a} pe t (answered req resp u e h) c b =
      unfold pure in
      record { attempts = a; counted = c; bounded = b; verdict = answered req resp u e h }
  relabelled {a = a} pe t (failed e u h) c b =
      unfold pure in
      record {
        attempts = a;
        counted = c;
        bounded = b;
        verdict = failed (wrap (codes "LLM unavailable") (pe ++ b'\n' ∷ e)) u h;
      }

  Tries-try_fallback :
      (req : ChatRequest) (policy : RetryPolicy) (pe : Text) (t : Trace)
      → Tries env policy.max_attempts_fallback t (try_fallback env req policy pe t)
  Tries-try_fallback req policy pe t = elim (Bool-cases (policy.max_attempts_fallback == 0)) [
    | inl z ↦ rw (no_fallback z) (record {
      attempts = 0;
      counted = omega arith;
      bounded = omega arith;
      verdict = failed (wrap (codes "LLM call failed") pe) t (λ _. ground arith);
    })
    | inr p ↦
        let r = Tries-try_tier req fallback policy.max_attempts_fallback policy.backoff t in
        rw (some_fallback p) (relabelled pe t r.verdict r.counted r.bounded)
  ]
    where
      no_fallback :
          (policy.max_attempts_fallback == 0) ≡ true
          → try_fallback env req policy pe t
            ≡ (returned (err (wrap (codes "LLM call failed") pe)), t)
      no_fallback z = unfold try_fallback pure in rw z

      some_fallback :
          (policy.max_attempts_fallback == 0) ≡ false
          → try_fallback env req policy pe t
            ≡ continue
                (try_tier env req fallback policy.max_attempts_fallback policy.backoff t).0
                (λ r. pure (unavailable pe r))
                (try_tier env req fallback policy.max_attempts_fallback policy.backoff t).1
      some_fallback p = unfold try_fallback ◌>>=◌ in rw p refl

  escalated :
      {a : ℕ} {o : Run (Result ChatResponse) × Trace} (req : ChatRequest) (policy : RetryPolicy)
      (t : Trace)
      → Verdict env policy.max_attempts_primary a o
      → tally is_chat o.1 ≡ a + tally is_chat t
      → a ≤ policy.max_attempts_primary
      → Tries env
          (policy.max_attempts_primary + policy.max_attempts_fallback)
          t
          (continue o.0 (after_primary env req policy) o.1)
  escalated {a} req policy t (answered r resp u e h) c b =
      unfold after_primary pure in
      record { attempts = a; counted = c; bounded = omega arith; verdict = answered r resp u e h }
  escalated {a} req policy t (failed e u h) c b =
      unfold after_primary in
      (let r = Tries-try_fallback req policy e u in
        record {
          attempts = a + r.attempts;
          counted = omega (arith, r.counted);
          bounded = omega (arith, r.bounded);
          verdict = both r.verdict;
        })
    where
      both :
          {b : ℕ} {o : Run (Result ChatResponse) × Trace}
          → Verdict env policy.max_attempts_fallback b o
          → Verdict env (policy.max_attempts_primary + policy.max_attempts_fallback) (a + b) o
      both (answered r resp v e' h') = answered r resp v e' (omega arith)
      both (failed e' v h') = failed e' v (λ calm. omega (arith, h calm, h' calm))

module _ (env : Env) (req : ChatRequest) (policy : RetryPolicy) (t : Trace) where
  abbrev run_primary : Run (Result ChatResponse) × Trace
  run_primary = try_tier env req primary policy.max_attempts_primary policy.backoff t

  no_primary :
      (policy.max_attempts_primary == 0) ≡ true
      → chat_with_retry env req policy t
        ≡ try_fallback env req policy (codes "primary not attempted") t
  unfolding chat_with_retry
  no_primary z = rw z refl

  with_primary :
      (policy.max_attempts_primary == 0) ≡ false
      → chat_with_retry env req policy t
        ≡ continue run_primary.0 (after_primary env req policy) run_primary.1
  unfolding chat_with_retry ◌>>=◌
  with_primary p = rw p refl

-- However the LLM answers and the context is cancelled, the call with retries returns. It makes at
-- most as many attempts as the policy gives the two tiers together. A response is the answer to the
-- last attempt, after which nothing happened. An error comes, unless the context is cancelled
-- during some wait, after exactly that many attempts.
pub chat_with_retry-Tries :
    (env : Env) (req : ChatRequest) (policy : RetryPolicy) (t : Trace)
    → Tries env
        (policy.max_attempts_primary + policy.max_attempts_fallback)
        t
        (chat_with_retry env req policy t)
chat_with_retry-Tries env req policy t = elim (Bool-cases (policy.max_attempts_primary == 0)) [
  | inl z ↦
      let none_left : policy.max_attempts_fallback
          ≡ policy.max_attempts_primary + policy.max_attempts_fallback =
        ground arith in
      rw (no_primary env req policy t z) (
        subst (λ n. Tries env n t (try_fallback env req policy (codes "primary not attempted") t))
          none_left (Tries-try_fallback env req policy (codes "primary not attempted") t))
  | inr p ↦
      let r = Tries-try_tier env req primary policy.max_attempts_primary policy.backoff t in
      rw (with_primary env req policy t p)
        (escalated env req policy t r.verdict r.counted r.bounded)
]

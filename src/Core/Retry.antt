-- ===== src/Core/Retry.antt =====
-- The LLM call with retries, first on the primary tier and then on the fallback
-- (internal/core/llm/retry.go).
pub mod Attempts
pub mod Answers
use codereviewer.Prelude.{
  ℕ, zero, suc, ◌+◌, Bool, List, [], ◌∷◌, ◌++◌, Text, codes, itoa, ltb, ◌==◌, if◌then◌else◌,
}
use codereviewer.Ports.{
  LlmTier, primary, fallback, ChatRequest, ChatResponse, Result, ok, err, wrap,
}
use codereviewer.Exec.{Env, M, ◌>>=◌, ◌>>◌, pure, call, chat, wait}

pub record RetryPolicy : Type 0 where
  pub max_attempts_primary : ℕ
  pub max_attempts_fallback : ℕ
  pub backoff : List ℕ

-- seconds
unfoldable pub default_retry_policy : RetryPolicy
default_retry_policy = record {
  max_attempts_primary = 3;
  max_attempts_fallback = 3;
  backoff = 1 ∷ 2 ∷ 4 ∷ [];
}

-- the entry at `attempt`, the last one past the end, 0 if there is none
unfoldable pub backoff_for : List ℕ → ℕ → ℕ
backoff_for [] attempt = 0
backoff_for (w ∷ []) attempt = w
backoff_for (w ∷ v ∷ ws) zero = w
backoff_for (w ∷ v ∷ ws) (suc attempt) = backoff_for (v ∷ ws) attempt

abbrev pub tier_name : LlmTier → Text
tier_name primary = codes "primary"
tier_name fallback = codes "fallback"

unfoldable pub exhausted : LlmTier → ℕ → Text → Text
exhausted tier max e =
    wrap (tier_name tier ++ (codes " tier exhausted after " ++ (itoa max ++ codes " attempts"))) e

module _ (env : Env) where
  -- what follows a failed attempt that is not the last one: the wait, which ends early if the
  -- context is cancelled, and then the next attempt
  unfoldable pub pause : ℕ → M (Result ChatResponse) → M (Result ChatResponse)
  pause w next = if w == 0 then next else do
    stopped ← call (wait w) env.cancelled
    if stopped then pure (err (codes "context canceled")) else next

  unfoldable pub after_attempt :
      ℕ → ℕ → LlmTier → ℕ → M (Result ChatResponse) → Result ChatResponse → M (Result ChatResponse)
  unfolding pause
  after_attempt left w tier max next (ok resp) = pure (ok resp)
  after_attempt left w tier max next (err e) =
      if left == 0 then pure (err (exhausted tier max e)) else pause w next

  -- the loop of `tryTier`, with the number of attempts left and the index of the next one
  unfoldable pub try_from : ℕ → ℕ → ChatRequest → LlmTier → ℕ → List ℕ → M (Result ChatResponse)
  unfolding after_attempt
  try_from zero attempt req tier max backoff = pure (err (exhausted tier max []))
  try_from (suc left) attempt req tier max backoff = do
    r ← call (chat req) (λ t. env.answer t req)
    after_attempt left (backoff_for backoff attempt) tier max
        (try_from left (attempt + 1) req tier max backoff) r

  unfoldable pub try_tier : ChatRequest → LlmTier → ℕ → List ℕ → M (Result ChatResponse)
  unfolding try_from
  try_tier req tier max backoff = try_from max 0 (record req { tier = tier }) tier max backoff

  unfoldable pub try_fallback : ChatRequest → RetryPolicy → Text → M (Result ChatResponse)
  try_fallback req policy primary_err =
      if policy.max_attempts_fallback == 0
      then pure (err (wrap (codes "LLM call failed") primary_err))
      else do
        r ← try_tier req fallback policy.max_attempts_fallback policy.backoff
        pure (elim r [
          | ok resp ↦ ok resp
          | err e ↦ err (wrap (codes "LLM unavailable") (primary_err ++ b'\n' ∷ e))
        ])

  unfoldable pub after_primary :
      ChatRequest → RetryPolicy → Result ChatResponse → M (Result ChatResponse)
  after_primary req policy (ok resp) = pure (ok resp)
  after_primary req policy (err e) = try_fallback req policy e

  unfoldable pub chat_with_retry : ChatRequest → RetryPolicy → M (Result ChatResponse)
  chat_with_retry req policy =
      if policy.max_attempts_primary == 0
      then try_fallback req policy (codes "primary not attempted")
      else do
        r ← try_tier req primary policy.max_attempts_primary policy.backoff
        after_primary req policy r

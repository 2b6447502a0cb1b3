-- ===== src/Core/Retry/Answers.antt =====
-- What the call with retries returns is an answer of the LLM.
use codereviewer.Prelude.{◌≡◌, subst, ℕ}
use codereviewer.Ports.{ChatRequest, ChatResponse, Result, ok, err}
use codereviewer.Exec.{Env, Trace, Run, returned, panicked}
use codereviewer.Core.Retry.{RetryPolicy, chat_with_retry}
use codereviewer.Core.Retry.Attempts.{Verdict, answered, failed, chat_with_retry-Tries}

-- the response is an answer of the LLM
abbrev pub IsAnswer : Env → ChatResponse → Type 0
IsAnswer env resp = (asked : Trace) × (req : ChatRequest) × (env.answer asked req ≡ ok resp)

abbrev pub IsAnswered : Env → Result ChatResponse → Type 0
IsAnswered env (ok resp) = IsAnswer env resp
IsAnswered env (err e) = Unit

abbrev IsAnsweredRun : Env → Run (Result ChatResponse) → Type 0
IsAnsweredRun env (returned r) = IsAnswered env r
IsAnsweredRun env panicked = Unit

Verdict-IsAnsweredRun :
    (env : Env) (n k : ℕ) (o : Run (Result ChatResponse) × Trace)
    → Verdict env n k o
    → IsAnsweredRun env o.0
Verdict-IsAnsweredRun env n k _ (answered req resp t e h) = (t, req, e)
Verdict-IsAnsweredRun env n k _ (failed e t h) = tt

-- a response that the retries return is an answer of the LLM
pub chat_with_retry-IsAnswered :
    (env : Env) (req : ChatRequest) (policy : RetryPolicy) (t : Trace) (r : Result ChatResponse)
    → (chat_with_retry env req policy t).0 ≡ returned r
    → IsAnswered env r
chat_with_retry-IsAnswered env req policy t r e =
    let tries = chat_with_retry-Tries env req policy t in
    subst (IsAnsweredRun env) e (Verdict-IsAnsweredRun env _ _ _ tries.verdict)

-- ===== src/Ports/Values.antt =====
-- Values of the ports of the VCS, the LLM and the context providers (internal/ports/types.go, vcs.go,
-- llm.go, context_provider.go, internal/schemas/llm_output.go).
use codereviewer.Prelude.{
  ℕ, ◌≡◌, refl, ◌⊎◌, inl, inr, Bool, List, ◌++◌, Text, codes, is_empty, if◌then◌else◌,
}
use codereviewer.Prelude.Int.{ℤ}

-- an amount of US dollars, in a fixed small unit
abbrev pub Usd : Type 0
Usd = ℤ

-- a point in time, in nanoseconds
abbrev pub Time : Type 0
Time = ℕ

-- an embedding: the bit patterns of its float32 entries
abbrev pub Vector : Type 0
Vector = List ℕ

pub data Result {ℓ} (A : Type ℓ) : Type ℓ where
  ok : A → Result A
  err : Text → Result A

pub Result-cases {ℓ} :
    {A : Type ℓ} (r : Result A) → ((a : A) × (r ≡ ok a)) ⊎ ((e : Text) × (r ≡ err e))
Result-cases (ok a) = inl (a, refl)
Result-cases (err e) = inr (e, refl)

-- fmt.Errorf("<what>: %w", e)
abbrev pub wrap : Text → Text → Text
wrap what e = what ++ (codes ": " ++ e)

abbrev pub github : Text
github = codes "github"

pub record PrRef : Type 0 where
  pub tenant_id : Text
  pub repo_id : Text
  pub pr_number : ℤ
  pub head_sha : Text
  pub provider : Text

unfoldable pub provider_or_default : PrRef → Text
provider_or_default r = if is_empty r.provider then github else r.provider

pub record RepoRef : Type 0 where
  pub tenant_id : Text
  pub repo_id : Text
  pub owner : Text
  pub name : Text
  pub default_branch : Text
  pub enabled : Bool
  pub provider : Text

pub data Trigger : Type 0 where
  pr_opened pr_updated slash_command manual : Trigger

-- what the LLM emits for one comment
pub record RawComment : Type 0 where
  pub file : Text
  pub start_line : ℤ
  pub end_line : ℤ
  pub comment : Text
  pub category : Text
  pub severity : Text

pub record BotComment : Type 0 where
  pub file : Text
  pub start_line : ℤ
  pub end_line : ℤ
  pub body : Text
  pub category : Text
  pub severity : Text

pub record ReviewPayload : Type 0 where
  pub body : Text
  pub comments : List BotComment

pub record PostedReview : Type 0 where
  pub review_id : ℤ
  pub comment_ids : List ℤ

pub record CheckResult : Type 0 where
  pub name : Text
  pub conclusion : Text
  pub summary : Text

pub data LlmTier : Type 0 where
  primary fallback : LlmTier

pub record ChatRequest : Type 0 where
  pub tier : LlmTier
  pub system_prompt : Text
  pub user_prompt : Text
  pub max_output_tokens : ℤ
  pub response_format : Text

pub record ChatResponse : Type 0 where
  pub content : Text
  pub tokens_in : ℤ
  pub tokens_out : ℤ
  pub cost_usd : Usd
  pub model_used : Text

pub record ContextItem : Type 0 where
  pub source : Text
  pub title : Text
  pub body : Text
  pub priority : ℤ

pub data RunStatus : Type 0 where
  pending posted failed_open budget_exceeded : RunStatus

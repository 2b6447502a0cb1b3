-- ===== src/Schemas.antt =====
-- The jobs on the bus and their idempotency keys (internal/schemas/jobs.go).
pub mod Keys
pub mod Config
pub mod Choices
pub mod Defaults
use codereviewer.Prelude.{ℕ, Text, codes, ◌++◌, ◌∷◌, print_int, List}
use codereviewer.Prelude.Int.{ℤ}
use codereviewer.Ports.{PrRef, Trigger}

pub record ReviewJob : Type 0 where
  pub pr_ref : PrRef
  pub trigger : Trigger

pub record IndexJob : Type 0 where
  pub tenant_id : Text
  pub repo_id : Text
  pub provider : Text
  pub ref : Text
  pub before_sha : Text
  pub head_sha : Text

pub record FeedbackJob : Type 0 where
  pub tenant_id : Text
  pub repo_id : Text
  pub provider : Text
  pub kind : Text
  pub comment_external_id : ℤ
  pub reaction : Text
  pub author_id : Text
  pub body : Text
  pub pr_number : ℤ

unfoldable pub review_key : ReviewJob → Text
review_key j =
    codes "review:"
    ++ (j.pr_ref.tenant_id
        ++ b':'
          ∷ (j.pr_ref.repo_id ++ b':' ∷ (print_int j.pr_ref.pr_number ++ b':' ∷ j.pr_ref.head_sha)))

unfoldable pub index_key : IndexJob → Text
index_key j = codes "index:" ++ (j.tenant_id ++ b':' ∷ (j.repo_id ++ b':' ∷ j.head_sha))

unfoldable pub feedback_key : FeedbackJob → Text
feedback_key j =
    codes "feedback:"
    ++ (j.kind
        ++ b':' ∷ (print_int j.comment_external_id ++ b':' ∷ (j.reaction ++ b':' ∷ j.author_id)))

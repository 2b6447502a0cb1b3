-- ===== src/Examples/Core.antt =====
-- The decisions of the core on concrete inputs.
use codereviewer.Prelude.{
  ◌+◌, ◌≡◌, ◌↔◌, refl, false, some, List, [], ◌∷◌, ◌++◌, Text, codes, length, All, Lacks-any_of,
  has_prefix, trim_space,
}
use codereviewer.Prelude.Int.{pos}
use codereviewer.Ports.{Result, ok, RawComment, primary, ChatRequest}
use codereviewer.Core.LlmOutput.{parse_output, strip_fences}
use codereviewer.Core.LlmOutput.Valid.{IsValidComment, parse_output_iff}
use codereviewer.Core.LlmOutput.Fences.{fence}
use codereviewer.Core.Prompt.{Inputs, Assembled, assemble}
use codereviewer.Core.Prompt.Drops.{IsAssemblyOf, assemble-IsAssemblyOf}
use codereviewer.Core.Retry.{default_retry_policy, chat_with_retry}
use codereviewer.Core.Retry.Attempts.{Tries, chat_with_retry-Tries}
use codereviewer.Schemas.{FeedbackJob, feedback_key}
use codereviewer.Schemas.Keys.{feedback_key_iff}
use codereviewer.Examples.World.{world, finding, question}

abbrev decode : Text → Result (List RawComment)
decode s = ok (finding ∷ [])

parse_output_iff_example : (parse_output decode (codes "[{}]") ≡ ok (finding ∷ [])) ↔ (
    (decode (strip_fences (trim_space (codes "[{}]"))) ≡ ok (finding ∷ []))
    × All IsValidComment (finding ∷ []))
parse_output_iff_example = parse_output_iff decode (codes "[{}]") (finding ∷ [])

not_fenced : has_prefix (codes "[{}]" ++ fence) fence ≡ false
unfolding has_prefix
not_fenced = refl

not_fenced_trimmed : has_prefix (trim_space (codes "[{}]")) fence ≡ false
unfolding has_prefix trim_space
not_fenced_trimmed = refl

abbrev inputs : Inputs
inputs = record {
  system_prompt = codes "review";
  diff = codes "+x";
  related_code = codes "f()" ∷ [];
  past_reviews = [];
  context = [];
  rules = codes "no globals" ∷ [];
  closing_instruction = codes "answer";
}

assemble-IsAssemblyOf_example :
    (a : Assembled) × (assemble inputs (pos 60) length ≡ some a)
    × IsAssemblyOf inputs (pos 60) length a
assemble-IsAssemblyOf_example = assemble-IsAssemblyOf inputs (pos 60) length

abbrev request : ChatRequest
request = record {
  tier = primary;
  system_prompt = codes "review";
  user_prompt = codes "+x";
  max_output_tokens = pos 400;
  response_format = codes "json";
}

chat_with_retry-Tries_example :
    Tries world
      (default_retry_policy.max_attempts_primary + default_retry_policy.max_attempts_fallback)
      []
      (chat_with_retry world request default_retry_policy [])
chat_with_retry-Tries_example = chat_with_retry-Tries world request default_retry_policy []

-- another reply of the same author
abbrev second_question : FeedbackJob
second_question = record question { body = codes "and how?" }

feedback_key_iff_example : (feedback_key question ≡ feedback_key second_question) ↔ (
    (question.kind ≡ question.kind)
    × (question.comment_external_id ≡ question.comment_external_id)
    × (question.reaction ≡ question.reaction)
    × (question.author_id ≡ question.author_id))
feedback_key_iff_example =
    feedback_key_iff question second_question (Lacks-any_of b':' (codes "reply") refl)
      (Lacks-any_of b':' (codes "reply") refl) tt tt

-- the key leaves out the body
feedback_key_test : feedback_key question ≡ feedback_key second_question
unfolding feedback_key
feedback_key_test = refl

-- ===== src/Core/LlmOutput/Valid.antt =====
-- What `ParseOutput` accepts.
use codereviewer.Prelude.{
  ℕ, ◌+◌, ◌≡◌, refl, ◌↔◌, true, false, none, List, [], ◌∷◌, arith, Text, is_empty, trim_space, All,
}
use codereviewer.Prelude.Int.{pos, ◌≤ℤ◌}
use codereviewer.Ports.{RawComment, Result, ok}
use codereviewer.Core.LlmOutput.{
  valid_categories, valid_severities, is_one_of, validate_comment, validate_all, strip_fences,
  parse_output,
}

-- A comment as the output schema asks for it.
pub record IsValidComment (c : RawComment) : Type 0 where
  pub file : is_empty (trim_space c.file) ≡ false
  pub start : pos 1 ≤ℤ c.start_line
  pub ordered : c.start_line ≤ℤ c.end_line
  pub comment : is_empty (trim_space c.comment) ≡ false
  pub category : is_one_of valid_categories c.category ≡ true
  pub severity : is_one_of valid_severities c.severity ≡ true

validate_comment-IsValidComment : (c : RawComment) → validate_comment c ≡ none → IsValidComment c
unfolding validate_comment
validate_comment-IsValidComment c h = record {
  file = ground arith;
  start = ground arith;
  ordered = ground arith;
  comment = ground arith;
  category = ground arith;
  severity = ground arith;
}

IsValidComment-validate_comment : (c : RawComment) → IsValidComment c → validate_comment c ≡ none
unfolding validate_comment
IsValidComment-validate_comment c v = ground arith

validate_all-IsValidComment :
    (i : ℕ) (cs : List RawComment) → validate_all i cs ≡ none → All IsValidComment cs
unfolding validate_all
validate_all-IsValidComment i [] h = tt
validate_all-IsValidComment i (c ∷ cs) h = (
  validate_comment-IsValidComment c (ground arith),
  validate_all-IsValidComment (i + 1) cs (ground arith),
)

IsValidComment-validate_all :
    (i : ℕ) (cs : List RawComment) → All IsValidComment cs → validate_all i cs ≡ none
unfolding validate_all
IsValidComment-validate_all i [] _ = refl
IsValidComment-validate_all i (c ∷ cs) (v, vs) =
    ground (arith, IsValidComment-validate_comment c v, IsValidComment-validate_all (i + 1) cs vs)

-- An answer is accepted with the comments `cs` exactly when, trimmed and freed of code fences, it
-- decodes to them and each of them has a file, a text, a line range that starts at 1 or later and
-- does not run backwards, and a category and a severity of the schema.
pub parse_output_iff :
    (decode : Text → Result (List RawComment)) (raw : Text) (cs : List RawComment)
    → (parse_output decode raw ≡ ok cs)
      ↔ ((decode (strip_fences (trim_space raw)) ≡ ok cs) × All IsValidComment cs)
unfolding parse_output
parse_output_iff decode raw cs = (
  λ h. (ground arith, validate_all-IsValidComment 0 cs (ground arith)),
  λ h. let (decoded, vs) = h in ground (arith, decoded, IsValidComment-validate_all 0 cs vs),
)

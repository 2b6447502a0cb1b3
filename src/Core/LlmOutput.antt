-- ===== src/Core/LlmOutput.antt =====
-- Parsing and validation of the LLM's answer (internal/core/llm/parse_output.go). The JSON decoder
-- of encoding/json is a parameter.
pub mod Valid
pub mod Fences
use codereviewer.Prelude.{
  ℕ, ◌+◌, ◌≡◌, refl, Bool, true, false, ◌&&◌, ◌||◌, Option, none, some, List, [], ◌∷◌, ◌++◌, arith,
  Text, codes, text_eq, is_empty, has_prefix, trim_prefix, trim_suffix, trim_space, print_int, itoa,
  All, any_of, Bool-cases, inl, inr, if◌then◌else◌,
}
use codereviewer.Prelude.Int.{ℤ, pos, ◌≤ℤ◌, ltb_ℤ}
use codereviewer.Ports.{RawComment, Result, ok, err, wrap}

abbrev pub valid_categories : List Text
valid_categories =
    codes "bug" ∷ codes "security" ∷ codes "style" ∷ codes "suggestion" ∷ codes "question" ∷ []

abbrev pub valid_severities : List Text
valid_severities = codes "high" ∷ codes "medium" ∷ codes "low" ∷ []

unfoldable pub is_one_of : List Text → Text → Bool
is_one_of names s = any_of (text_eq s) names

-- `%q` of a text that needs no escapes
abbrev quoted : Text → Text
quoted s = b'"' ∷ (s ++ b'"' ∷ [])

-- `none` if the comment is valid, else the message
unfoldable pub validate_comment : RawComment → Option Text
validate_comment c =
    if is_empty (trim_space c.file)
    then some (codes "missing file")
    else if ltb_ℤ c.start_line (pos 1)
    then some (codes "invalid start_line " ++ print_int c.start_line)
    else if ltb_ℤ c.end_line c.start_line
    then some (
        codes "end_line "
        ++ (print_int c.end_line ++ (codes " < start_line " ++ print_int c.start_line)))
    else if is_empty (trim_space c.comment)
    then some (codes "missing comment text")
    else if is_one_of valid_categories c.category
    then (if is_one_of valid_severities c.severity
        then none
        else some (codes "invalid severity " ++ quoted c.severity))
    else some (codes "invalid category " ++ quoted c.category)

unfoldable pub strip_fences : Text → Text
strip_fences s =
    if has_prefix s (codes "```")
    then trim_space
        (trim_suffix (trim_prefix (trim_prefix s (codes "```json")) (codes "```")) (codes "```"))
    else s

-- the loop over the comments from index `i` on: the first error, if any
unfoldable pub validate_all : ℕ → List RawComment → Option Text
validate_all i [] = none
validate_all i (c ∷ cs) =
    let rest = validate_all (i + 1) cs in
    elim (validate_comment c) [ some e ↦ some (wrap (codes "comment " ++ itoa i) e) | none ↦ rest ]

abbrev check_valid : List RawComment → Option Text → Result (List RawComment)
check_valid cs none = ok cs
check_valid cs (some e) = err e

module _ (decode : Text → Result (List RawComment)) where
  unfoldable pub parse_output : Text → Result (List RawComment)
  parse_output raw = elim (decode (strip_fences (trim_space raw))) [
    | err e ↦ err (wrap (codes "unmarshal") e)
    | ok comments ↦ check_valid comments (validate_all 0 comments)
  ]

-- ===== src/Core/LlmOutput/Fences.antt =====
-- Code fences around the LLM's answer.
use codereviewer.Prelude.{
  ℕ, ◌≡◌, refl, ap, sym, subst, ◌∙◌, append_assoc, true, false, some, List, [], ◌∷◌, ◌++◌, arith,
  Text, codes, has_prefix, strip_prefix, trim_prefix, trim_suffix, trim_left, trim_space, is_space,
  reverse,
}
use mathlib.Core.List.{reverse-append, reverse-reverse}
use codereviewer.Ports.{RawComment, Result}
use codereviewer.Core.LlmOutput.{strip_fences, parse_output}

strip_prefix-append : (p s : Text) → strip_prefix (p ++ s) p ≡ some s
unfolding strip_prefix
strip_prefix-append [] [] = refl
strip_prefix-append [] (c ∷ s) = refl
strip_prefix-append (c ∷ p) s = ground (arith, strip_prefix-append p s)

pub trim_prefix-append : (p s : Text) → trim_prefix (p ++ s) p ≡ s
unfolding trim_prefix
trim_prefix-append p s = rw (strip_prefix-append p s)

pub trim_suffix-append : (s p : Text) → trim_suffix (s ++ p) p ≡ s
unfolding trim_suffix
trim_suffix-append s p =
    rw (reverse-append s p, trim_prefix-append (reverse p) (reverse s), reverse-reverse)

trim_left_solid : (c : ℕ) (s : Text) → is_space c ≡ false → trim_left (c ∷ s) ≡ c ∷ s
unfolding trim_left
trim_left_solid c s h = rw h

trim_space_eq : (s : Text) → trim_space s ≡ reverse (trim_left (reverse (trim_left s)))
unfolding trim_space
trim_space_eq s = refl

reverse_ends : (c d : ℕ) (s : Text) → reverse (c ∷ (s ++ d ∷ [])) ≡ d ∷ reverse (c ∷ s)
reverse_ends c d s = reverse-append (c ∷ s) (d ∷ [])

-- a text whose first and last characters are no spaces
trim_space_solid :
    (c d : ℕ) (s : Text)
    → is_space c ≡ false
    → is_space d ≡ false
    → trim_space (c ∷ (s ++ d ∷ [])) ≡ c ∷ (s ++ d ∷ [])
trim_space_solid c d s hc hd =
    rw
      (
        trim_space_eq,
        trim_left_solid c (s ++ d ∷ []) hc,
        reverse_ends,
        trim_left_solid d (reverse (c ∷ s)) hd,
      )
      (ap reverse (sym (reverse_ends c d s)) ∙ reverse-reverse (c ∷ (s ++ d ∷ [])))

abbrev pub fence : Text
fence = codes "```"

trim_prefix_none : (s p : Text) → has_prefix s p ≡ false → trim_prefix s p ≡ s
unfolding trim_prefix has_prefix
trim_prefix_none s p h = ground arith

strip_unfenced : (s : Text) → has_prefix s fence ≡ false → strip_fences s ≡ s
unfolding strip_fences
strip_unfenced s h = rw h

strip_fence_marks :
    (s : Text)
    → has_prefix s fence ≡ true
    → strip_fences s
      ≡ trim_space (trim_suffix (trim_prefix (trim_prefix s (codes "```json")) fence) fence)
unfolding strip_fences
strip_fence_marks s h = rw h

json_has_fence : (s : Text) → has_prefix (codes "```json" ++ s) fence ≡ true
unfolding has_prefix
json_has_fence s = refl

strip_fenced :
    (body : Text)
    → has_prefix (body ++ fence) fence ≡ false
    → strip_fences (codes "```json" ++ (body ++ fence)) ≡ trim_space body
strip_fenced body h =
    strip_fence_marks (codes "```json" ++ (body ++ fence)) (json_has_fence (body ++ fence))
    ∙ ap (λ t. trim_space (trim_suffix t fence))
        (ap (λ t. trim_prefix t fence) (trim_prefix-append (codes "```json") (body ++ fence))
          ∙ trim_prefix_none (body ++ fence) fence h)
    ∙ ap trim_space (trim_suffix-append body fence)

solid : is_space b'`' ≡ false
unfolding is_space
solid = refl

trim_fenced :
    (body : Text)
    → trim_space (codes "```json" ++ (body ++ fence)) ≡ codes "```json" ++ (body ++ fence)
trim_fenced body =
    subst (λ s. trim_space s ≡ s)
      (ap (λ t. codes "```json" ++ t) (append_assoc body (codes "``") (codes "`")))
      (trim_space_solid b'`' b'`' (codes "``json" ++ (body ++ codes "``")) solid solid)

parse_same :
    (decode : Text → Result (List RawComment)) (a b : Text)
    → strip_fences (trim_space a) ≡ strip_fences (trim_space b)
    → parse_output decode a ≡ parse_output decode b
unfolding parse_output
parse_same decode a b h = ground arith

-- An answer between "```json" and "```" parses as the text between them, if that text, also when
-- trimmed, does not begin with a fence itself.
pub parse_output-fenced :
    (decode : Text → Result (List RawComment)) (body : Text)
    → has_prefix (body ++ fence) fence ≡ false
    → has_prefix (trim_space body) fence ≡ false
    → parse_output decode (codes "```json" ++ (body ++ fence)) ≡ parse_output decode body
parse_output-fenced decode body h k = parse_same decode (codes "```json" ++ (body ++ fence)) body (
    ap strip_fences (trim_fenced body)
    ∙ strip_fenced body h
    ∙ sym (strip_unfenced (trim_space body) k))

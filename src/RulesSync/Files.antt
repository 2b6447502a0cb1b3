-- ===== src/RulesSync/Files.antt =====
-- How a rule file is taken apart.
use codereviewer.Prelude.{
  ℕ, ◌≡◌, ◌≢◌, refl, ap, ◌∙◌, false, Option, none, some, List, [], ◌∷◌, ◌++◌, arith, Text, codes,
  All, Lacks, strip_prefix, has_prefix, trim_prefix, append_assoc,
}
use codereviewer.Ports.{Result, FrontMatter}
use codereviewer.RulesSync.{
  strip_bom, extend, at_separator, cut_text, trim_newlines, titled, split_front, parse_rule,
}

abbrev pub fence : Text
fence = codes "\n---"

-- a line of the front matter: it does not begin with "---"
abbrev pub IsFrontLine : Text → Type 0
IsFrontLine l = Lacks b'\n' l × (has_prefix l (codes "---") ≡ false)

-- the lines, each behind a newline
abbrev pub print_lines : List Text → Text
print_lines [] = []
print_lines (l ∷ ls) = b'\n' ∷ l ++ print_lines ls

abbrev prepend : Text → Option (Text × Text) → Option (Text × Text)
prepend l none = none
prepend l (some (a, b)) = some (l ++ a, b)

extend-prepend :
    (c : ℕ) (l : Text) (r : Option (Text × Text)) → extend c (prepend l r) ≡ prepend (c ∷ l) r
unfolding extend
extend-prepend c l none = refl
extend-prepend c l (some (a, b)) = refl

prepend_nil : (r : Option (Text × Text)) → r ≡ prepend [] r
prepend_nil none = refl
prepend_nil (some (a, b)) = refl

cut_step :
    (c : ℕ) (s : Text)
    → strip_prefix (c ∷ s) fence ≡ none
    → cut_text (c ∷ s) fence ≡ extend c (cut_text s fence)
unfolding cut_text at_separator
cut_step c s h = rw h refl

no_newline : (c : ℕ) (s : Text) → c ≢ b'\n' → strip_prefix (c ∷ s) fence ≡ none
unfolding strip_prefix
no_newline c s h = ground arith

newline : (s : Text) → strip_prefix s (codes "---") ≡ none → strip_prefix (b'\n' ∷ s) fence ≡ none
unfolding strip_prefix
newline s h = h

-- the scan passes over text without a newline
cut_text-line :
    (l s : Text) → Lacks b'\n' l → cut_text (l ++ s) fence ≡ prepend l (cut_text s fence)
cut_text-line [] s _ = prepend_nil (cut_text s fence)
cut_text-line (c ∷ l) s (hc, hl) =
    cut_step c (l ++ s) (no_newline c (l ++ s) hc)
    ∙ ap (extend c) (cut_text-line l s hl)
    ∙ extend-prepend c l (cut_text s fence)

not_fence :
    (l more : Text)
    → has_prefix l (codes "---") ≡ false
    → strip_prefix (l ++ b'\n' ∷ more) (codes "---") ≡ none
unfolding has_prefix strip_prefix
not_fence [] more h = refl
not_fence (a ∷ []) more h = ground arith
not_fence (a ∷ b ∷ []) more h = ground arith
not_fence (a ∷ b ∷ c ∷ l) more h = ground arith

-- what follows a line begins with a newline
abbrev behind_first : Text → List Text → Text → Text
behind_first l ls behind = (l ++ print_lines ls) ++ (fence ++ behind)

starts :
    (ls : List Text) (behind : Text)
    → (m : Text) × (print_lines ls ++ (fence ++ behind) ≡ b'\n' ∷ m)
starts [] behind = (codes "---" ++ behind, refl)
starts (l ∷ ls) behind = ((l ++ print_lines ls) ++ (fence ++ behind), refl)

no_fence :
    (l : Text) (ls : List Text) (behind : Text)
    → has_prefix l (codes "---") ≡ false
    → strip_prefix (behind_first l ls behind) (codes "---") ≡ none
no_fence l ls behind plain =
    let (more, e) = starts ls behind in
    rw (append_assoc l (print_lines ls) (fence ++ behind), e) (not_fence l more plain)

join_front :
    (l : Text) (ls : List Text) (behind : Text)
    → Lacks b'\n' l
    → cut_text (print_lines ls ++ (fence ++ behind)) fence ≡ some (print_lines ls, behind)
    → cut_text (behind_first l ls behind) fence ≡ some (l ++ print_lines ls, behind)
join_front l ls behind lacks h =
    ap (λ s. cut_text s fence) (append_assoc l (print_lines ls) (fence ++ behind))
    ∙ cut_text-line l (print_lines ls ++ (fence ++ behind)) lacks
    ∙ ap (prepend l) h

extend-some : (c : ℕ) (a b : Text) → extend c (some (a, b)) ≡ some (c ∷ a, b)
unfolding extend
extend-some c a b = refl

cut_text-lines :
    (ls : List Text) (behind : Text)
    → All IsFrontLine ls
    → cut_text (print_lines ls ++ (fence ++ behind)) fence ≡ some (print_lines ls, behind)
cut_text-lines [] behind _ = unfold cut_text at_separator strip_prefix in refl
cut_text-lines (l ∷ ls) behind ((lacks, plain), rest) =
    cut_step b'\n' (behind_first l ls behind) (newline _ (no_fence l ls behind plain))
    ∙ ap (extend b'\n') (join_front l ls behind lacks (cut_text-lines ls behind rest))
    ∙ extend-some b'\n' (l ++ print_lines ls) behind

keeps_crlf : (s : Text) → strip_prefix s (codes "---") ≡ none → trim_prefix s (codes "---\r\n") ≡ s
unfolding trim_prefix strip_prefix
keeps_crlf [] h = refl
keeps_crlf (a ∷ []) h = ground arith
keeps_crlf (a ∷ b ∷ []) h = ground arith
keeps_crlf (a ∷ b ∷ c ∷ s) h = ground arith

open_rule :
    (decode : Text → Result FrontMatter) (s : Text)
    → trim_prefix s (codes "---\r\n") ≡ s
    → parse_rule decode (codes "---\n" ++ s) ≡ split_front decode (cut_text s fence)
unfolding parse_rule strip_bom has_prefix trim_prefix strip_prefix
open_rule decode s h = rw h refl

-- A file that is a line "---", lines of front matter of which none begins with "---", a line
-- "---" and more text parses to what the front matter, decoded, gives for the text without the
-- newlines at its start.
pub parse_rule_lem :
    (decode : Text → Result FrontMatter) (first : Text) (ls : List Text) (behind : Text)
    → All IsFrontLine (first ∷ ls)
    → parse_rule decode (codes "---\n" ++ ((first ++ print_lines ls) ++ (fence ++ behind)))
      ≡ titled (trim_newlines behind) (decode (first ++ print_lines ls))
unfolding split_front
parse_rule_lem decode first ls behind ((lacks, plain), rest) =
    open_rule decode (behind_first first ls behind) (keeps_crlf _ (no_fence first ls behind plain))
    ∙ ap (split_front decode) (join_front first ls behind lacks (cut_text-lines ls behind rest))

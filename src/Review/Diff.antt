-- ===== src/Review/Diff.antt =====
-- The unified diff as the review reads it (internal/core/pipelines/review/pipeline.go): which
-- files it touches, and which lines of the new version an inline comment may name.
pub mod Files
pub mod Render
pub mod Scanning
pub mod RoundTrip
pub mod Misread
use codereviewer.Prelude.{
  Bool, true, false, not, ◌&&◌, ◌||◌, Option, none, some, List, [], ◌∷◌, ◌++◌, Text, codes, text_eq,
  is_empty, has_prefix, trim_prefix, trim_space, split, cut, cut_where, atoi, ◌==◌, any_of,
  if◌then◌else◌, ◌≡◌, refl,
}
use codereviewer.Prelude.Int.{ℤ, pos, ltb_ℤ, leb_ℤ, eqb_ℤ, inc64}
use codereviewer.Dict
use codereviewer.Dict.{Dict}

-- map[int]bool: the lines that were set
abbrev pub Lines : Type 0
Lines = List ℤ

abbrev pub has_line : Lines → ℤ → Bool
has_line lines n = any_of (eqb_ℤ n) lines

-- the file that a line "+++ <path>" names, without the prefix "b/"; empty for a deleted file
unfoldable pub header_path : Text → Text
header_path l =
    let p = trim_space (trim_prefix l (codes "+++ ")) in
    if text_eq p (codes "/dev/null") then [] else trim_prefix p (codes "b/")

unfoldable pub parse_hunk_right_start : Text → Option ℤ
parse_hunk_right_start hdr = elim (cut hdr b'+') [
  | none ↦ none
  | some (_, rest) ↦ elim (cut_where rest (λ c. c == b',' || c == b' ')) [
    | none ↦ none
    | some (num, _) ↦ atoi num
  ]
]

-- the variables of the loop of `validRightLines`
pub record Scan : Type 0 where
  pub out : Dict Lines
  pub path : Text
  pub line : ℤ

-- `out[path][line] = true` if there is a path; `line++`
unfoldable pub mark : Scan → Scan
mark st =
    let next = inc64 st.line in
    if is_empty st.path then record st { line = next } else elim (Dict.get st.out st.path) [
      | none ↦ record st { line = next }
      | some lines ↦ record st { out = Dict.put st.out st.path (st.line ∷ lines); line = next }
    ]

unfoldable pub enter_file : Scan → Text → Scan
enter_file st p =
    if is_empty p
    then record st { path = p }
    else record st { out = Dict.put st.out p []; path = p }

unfoldable pub enter_hunk : Scan → Option ℤ → Scan
enter_hunk st none = st
enter_hunk st (some start) = record st { line = start }

-- one round of the loop
unfoldable pub scan_line : Scan → Text → Scan
scan_line st l =
    if has_prefix l (codes "+++ ")
    then enter_file st (header_path l)
    else if has_prefix l (codes "@@")
    then enter_hunk st (parse_hunk_right_start l)
    else if has_prefix l (codes "+") && not (has_prefix l (codes "+++"))
    then mark st
    else if has_prefix l (codes "-") && not (has_prefix l (codes "---"))
    then st
    else if has_prefix l (codes " ")
    then mark st
    else st

unfoldable pub scan_lines : Scan → List Text → Scan
scan_lines st [] = st
scan_lines st (l ∷ ls) = scan_lines (scan_line st l) ls

unfoldable pub start_scan : Scan
start_scan = record { out = Dict.empty; path = []; line = pos 0 }

unfoldable pub valid_right_lines : Text → Dict Lines
valid_right_lines diff = (scan_lines start_scan (split diff b'\n')).out

unfoldable pub comment_lines_valid : Dict Lines → Text → ℤ → ℤ → Bool
comment_lines_valid valid file start end = elim (Dict.get valid file) [
  | none ↦ false
  | some lines ↦
      if leb_ℤ end (pos 0) || not (has_line lines end)
      then false
      else not (ltb_ℤ (pos 0) start && (not (eqb_ℤ start end) && not (has_line lines start)))
]

-- `seen` holds the paths found so far
unfoldable pub collect_files : List Text → List Text → List Text → List Text
collect_files [] seen paths = paths
collect_files (l ∷ ls) seen paths =
    let p = header_path l in
    let skip = collect_files ls seen paths in
    let take = collect_files ls (p ∷ seen) (paths ++ p ∷ []) in
    if not (has_prefix l (codes "+++ "))
    then skip
    else if is_empty p
    then skip
    else if any_of (text_eq p) seen
    then skip
    else take

unfoldable pub extract_changed_files : Text → List Text
extract_changed_files diff = collect_files (split diff b'\n') [] []

hunk_test : parse_hunk_right_start (codes "@@ -10,5 +20,7 @@ context") ≡ some (pos 20)
unfolding parse_hunk_right_start cut cut_where atoi
hunk_test = refl

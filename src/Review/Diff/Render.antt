-- ===== src/Review/Diff/Render.antt =====
-- Diffs as structured data, with the unified-diff text that they print to and the lines of the new
-- version that they show. This is the specification for the scan of `validRightLines`.
use codereviewer.Prelude.{
  ℕ, ◌+◌, ◌≤◌, ◌≡◌, Bool, false, ◌&&◌, ◌||◌, List, [], ◌∷◌, ◌++◌, Text, codes, text_eq, is_empty,
  has_prefix, trim_space, itoa, length, Lacks, All, ◌==◌, if◌then◌else◌,
}
use codereviewer.Prelude.Int.{max_int64}

-- A line of a hunk: in both versions, in the new one only, in the old one only.
pub data DiffLine : Type 0 where
  context added removed : Text → DiffLine

-- A hunk: the range in the old version, the first line in the new one, what follows that number in
-- the header, and the lines. A range of one line has no count, and a space follows the number.
pub record Hunk : Type 0 where
  pub old_range : Text
  pub start : ℕ
  pub one_line : Bool
  pub tail : Text
  pub body : List DiffLine

pub record FilePatch : Type 0 where
  pub old_path : Text
  pub path : Text
  pub hunks : List Hunk

abbrev pub print_line : DiffLine → Text
print_line (context t) = b' ' ∷ t
print_line (added t) = b'+' ∷ t
print_line (removed t) = b'-' ∷ t

abbrev pub print_lines : List DiffLine → List Text
print_lines [] = []
print_lines (l ∷ ls) = print_line l ∷ print_lines ls

abbrev pub separator : Bool → ℕ
separator one = if one then b' ' else b','

-- "@@ -1,3 +1,4 @@"
abbrev pub hunk_header : Hunk → Text
hunk_header h =
    (codes "@@ -" ++ (h.old_range ++ codes " "))
    ++ b'+' ∷ (itoa h.start ++ separator h.one_line ∷ h.tail)

abbrev pub print_hunks : List Hunk → List Text
print_hunks [] = []
print_hunks (h ∷ hs) = hunk_header h ∷ (print_lines h.body ++ print_hunks hs)

abbrev pub print_patches : List FilePatch → List Text
print_patches [] = []
print_patches (d ∷ ds) =
    (codes "--- a/" ++ d.old_path)
    ∷ (codes "+++ b/" ++ d.path)
    ∷ (print_hunks d.hunks ++ print_patches ds)

-- Whether `n` is the number, in the new version, of one of these lines, the first having number `m`.
abbrev pub shows_line : ℕ → List DiffLine → ℕ → Bool
shows_line m [] n = false
shows_line m (context t ∷ ls) n = n == m || shows_line (m + 1) ls n
shows_line m (added t ∷ ls) n = n == m || shows_line (m + 1) ls n
shows_line m (removed t ∷ ls) n = shows_line m ls n

abbrev pub hunks_show : List Hunk → ℕ → Bool
hunks_show [] n = false
hunks_show (h ∷ hs) n = shows_line h.start h.body n || hunks_show hs n

-- Whether the diff shows line `n` of the new version of file `f`.
abbrev pub patches_show : List FilePatch → Text → ℕ → Bool
patches_show [] f n = false
patches_show (d ∷ ds) f n = (text_eq f d.path && hunks_show d.hunks n) || patches_show ds f n

-- An added line that the scan cannot take for a file header: its text does not begin with "++".
abbrev pub IsPlainLine : DiffLine → Type 0
IsPlainLine (context t) = Lacks b'\n' t
IsPlainLine (added t) = Lacks b'\n' t × (has_prefix t (codes "++") ≡ false)
IsPlainLine (removed t) = Lacks b'\n' t

pub record IsPlainHunk (h : Hunk) : Type 0 where
  pub old_range : Lacks b'+' h.old_range × Lacks b'\n' h.old_range
  pub tail : Lacks b'\n' h.tail
  pub fits : h.start + length h.body ≤ max_int64
  pub body : All IsPlainLine h.body

pub record IsPlainPatch (d : FilePatch) : Type 0 where
  pub old_path : Lacks b'\n' d.old_path
  pub path : Lacks b'\n' d.path
  pub named : is_empty d.path ≡ false
  -- the path has no space at its end
  pub trimmed : trim_space (codes "b/" ++ d.path) ≡ codes "b/" ++ d.path
  pub hunks : All IsPlainHunk d.hunks

abbrev pub patch_paths : List FilePatch → List Text
patch_paths [] = []
patch_paths (d ∷ ds) = d.path ∷ patch_paths ds

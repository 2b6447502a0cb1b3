-- ===== src/Review/Diff/RoundTrip.antt =====
-- The scan of a printed diff finds the lines that the diff shows, and an inline comment passes
-- exactly when it names such lines.
use codereviewer.Prelude.{
  ℕ, ◌≡◌, ◌≢◌, refl, ap, Bool, true, false, not, ◌&&◌, ◌||◌, inl, inr, List, [], ◌∷◌, ◌++◌, arith,
  Text, codes, text_eq, text_eq_iff, text_eq_refl, has_prefix, trim_prefix, split, split-unlines,
  unlines, Lacks, All, All-append, ◌==◌, itoa, itoa-All, is_digit, Option-cases, if◌then◌else◌,
}
use codereviewer.Prelude.Int.{pos}
use codereviewer.Dict
use codereviewer.Dict.{Dict, get-put, get-empty}
use codereviewer.Review.Diff.{
  Lines, Scan, header_path, enter_file, scan_line, scan_lines, start_scan, valid_right_lines,
  comment_lines_valid,
}
use codereviewer.Review.Diff.Files.{has_file, AreDistinct}
use codereviewer.Review.Diff.Render.{
  DiffLine, context, added, removed, Hunk, FilePatch, print_lines, separator, hunk_header,
  print_hunks, print_patches, hunks_show, patches_show, IsPlainLine, IsPlainHunk, IsPlainPatch,
  patch_paths,
}
use codereviewer.Review.Diff.Scanning.{
  is_marked, is_marked-put, scan_lines-append, scan_lines-cons, scan_lines-nil, scan_hunks,
}

scan_old_path : (st : Scan) (d : FilePatch) → scan_line st (codes "--- a/" ++ d.old_path) ≡ st
unfolding scan_line has_prefix
scan_old_path st d = refl

header_path_lem : (d : FilePatch) → IsPlainPatch d → header_path (codes "+++ b/" ++ d.path) ≡ d.path
unfolding header_path trim_prefix text_eq
header_path_lem d ok = rw ok.trimmed

scan_new_path :
    (st : Scan) (d : FilePatch)
    → IsPlainPatch d
    → scan_line st (codes "+++ b/" ++ d.path)
      ≡ record { out = Dict.put st.out d.path []; path = d.path; line = st.line }
unfolding scan_line has_prefix enter_file
scan_new_path st d ok = rw (header_path_lem d ok, ok.named)

-- after a file's part of the diff, its lines are those that the part shows, and those of the
-- other files are as before
scan_patch :
    (st : Scan) (d : FilePatch) (ls : List Text) (f : Text) (n : ℕ)
    → IsPlainPatch d
    → (st' : Scan) × (scan_lines st (
          (codes "--- a/" ++ d.old_path) ∷ (codes "+++ b/" ++ d.path) ∷ (print_hunks d.hunks ++ ls))
        ≡ scan_lines st' ls)
      × (is_marked st'.out f n
          ≡ (if text_eq f d.path then hunks_show d.hunks n else is_marked st.out f n))
scan_patch st d ls f n ok =
    let entered : Scan = record {
      out = Dict.put st.out d.path [];
      path = d.path;
      line = st.line;
    } in
    let body = scan_hunks d.hunks entered ok.named ok.hunks refl (rw (get-put, text_eq_refl)) in
    (
      scan_lines entered (print_hunks d.hunks),
      rw (
        scan_lines-cons,
        scan_old_path,
        scan_lines-cons,
        scan_new_path st d ok,
        scan_lines-append,
      ),
      ground (arith, body.marks f n, is_marked-put st.out d.path f [] n),
    )

scan_patches :
    (ds : List FilePatch) (st : Scan) (f : Text) (n : ℕ)
    → AreDistinct (patch_paths ds)
    → All IsPlainPatch ds
    → is_marked (scan_lines st (print_patches ds)).out f n
      ≡ (if has_file (patch_paths ds) f then patches_show ds f n else is_marked st.out f n)
scan_patches [] st f n _ _ = rw scan_lines-nil
scan_patches (d ∷ ds) st f n (fresh, distinct) (ok, oks) =
    let (st', goes, marks) = scan_patch st d (print_patches ds) f n ok in
    rw goes (
      ground
        (arith, marks, scan_patches ds st' f n distinct oks, text_eq_iff f d.path, show_none ds))
  where
    show_none :
        (es : List FilePatch) → has_file (patch_paths es) f ≡ false → patches_show es f n ≡ false
    show_none [] h = refl
    show_none (e ∷ es) h = ground (arith, show_none es)

digits-Lacks : (s : Text) → All (λ c. is_digit c ≡ true) s → Lacks b'\n' s
digits-Lacks [] _ = tt
digits-Lacks (c ∷ s) (hc, hs) = (ground arith, digits-Lacks s hs)

joined : (s t : Text) → Lacks b'\n' s → Lacks b'\n' t → Lacks b'\n' (s ++ t)
joined = All-append (λ c. c ≢ b'\n')

separator-ne : (one : Bool) → separator one ≢ b'\n'
separator-ne true = omega arith
separator-ne false = omega arith

header-Lacks : (h : Hunk) → IsPlainHunk h → Lacks b'\n' (hunk_header h)
header-Lacks h ok =
    joined (codes "@@ -" ++ (h.old_range ++ codes " "))
      (b'+' ∷ (itoa h.start ++ separator h.one_line ∷ h.tail))
      (joined (codes "@@ -") (h.old_range ++ codes " ") (omega arith)
        (joined h.old_range (codes " ") ok.old_range.1 (omega arith)))
      (
        omega arith,
        joined (itoa h.start) (separator h.one_line ∷ h.tail)
            (digits-Lacks (itoa h.start) (itoa-All h.start)) (separator-ne h.one_line, ok.tail),
      )

body-Lacks : (ls : List DiffLine) → All IsPlainLine ls → All (Lacks b'\n') (print_lines ls)
body-Lacks [] _ = tt
body-Lacks (context t ∷ ls) (h, hs) = ((omega arith, h), body-Lacks ls hs)
body-Lacks (added t ∷ ls) ((h, _), hs) = ((omega arith, h), body-Lacks ls hs)
body-Lacks (removed t ∷ ls) (h, hs) = ((omega arith, h), body-Lacks ls hs)

hunks-Lacks : (hs : List Hunk) → All IsPlainHunk hs → All (Lacks b'\n') (print_hunks hs)
hunks-Lacks [] _ = tt
hunks-Lacks (h ∷ hs) (ok, oks) = (
  header-Lacks h ok,
  All-append (Lacks b'\n') (print_lines h.body) (print_hunks hs) (body-Lacks h.body ok.body)
      (hunks-Lacks hs oks),
)

patches-Lacks : (ds : List FilePatch) → All IsPlainPatch ds → All (Lacks b'\n') (print_patches ds)
patches-Lacks [] _ = tt
patches-Lacks (d ∷ ds) (ok, oks) = (
  joined (codes "--- a/") d.old_path (omega arith) ok.old_path,
  (
    joined (codes "+++ b/") d.path (omega arith) ok.path,
    All-append (Lacks b'\n') (print_hunks d.hunks) (print_patches ds) (hunks-Lacks d.hunks ok.hunks)
        (patches-Lacks ds oks),
  ),
)

-- the text behind the last newline is empty, and changes nothing
scan_end : (st : Scan) → scan_line st [] ≡ st
unfolding scan_line has_prefix
scan_end st = refl

-- the text of a diff
pub print_diff : List FilePatch → Text
print_diff ds = unlines (print_patches ds)

patches_show-none :
    (ds : List FilePatch) (f : Text) (n : ℕ)
    → has_file (patch_paths ds) f ≡ false
    → patches_show ds f n ≡ false
patches_show-none [] f n h = refl
patches_show-none (d ∷ ds) f n h = ground (arith, patches_show-none ds f n)

scan_of_lines :
    (diff : Text) {ls : List Text}
    → split diff b'\n' ≡ ls
    → valid_right_lines diff ≡ (scan_lines start_scan ls).out
unfolding valid_right_lines
scan_of_lines diff h = ap (λ ls. (scan_lines start_scan ls).out) h

lines_of_print_diff :
    (ds : List FilePatch)
    → All IsPlainPatch ds
    → split (print_diff ds) b'\n' ≡ print_patches ds ++ [] ∷ []
unfolding print_diff
lines_of_print_diff ds oks = split-unlines (print_patches ds) (patches-Lacks ds oks)

-- For a diff that is printed from structured data, with distinct paths and no added line whose text
-- begins with "++", line `n` of file `f` is in the map of `validRightLines` exactly when the diff
-- shows it in the new version.
pub valid_right_lines-print_diff :
    (ds : List FilePatch) (f : Text) (n : ℕ)
    → AreDistinct (patch_paths ds)
    → All IsPlainPatch ds
    → is_marked (valid_right_lines (print_diff ds)) f n ≡ patches_show ds f n
valid_right_lines-print_diff ds f n distinct oks =
    rw
      (
        scan_of_lines (print_diff ds) (lines_of_print_diff ds oks),
        scan_lines-append,
        scan_lines-cons,
        scan_end,
        scan_lines-nil,
        scan_patches ds start_scan f n distinct oks,
      )
      (unfold start_scan in rw get-empty (ground (arith, patches_show-none ds f n)))

comment_lines_valid-marked :
    (valid : Dict Lines) (f : Text) (s e : ℕ)
    → comment_lines_valid valid f (pos s) (pos e)
      ≡ ((not (e == 0) && is_marked valid f e) && (s == 0 || (s == e || is_marked valid f s)))
unfolding comment_lines_valid
comment_lines_valid-marked valid f s e = elim (Option-cases (Dict.get valid f)) [
  | inl h ↦ rw h (ground arith)
  | inr (lines, h) ↦ rw h (ground arith)
]

-- For a diff that is printed from structured data, with distinct paths and no added line whose text
-- begins with "++", a comment on the lines from `s` to `e` of file `f` passes exactly when the diff
-- shows line `e` there in the new version, and line `s` too unless `s` is zero or `e`; a comment at
-- line zero never passes.
pub comment_lines_valid-print_diff :
    (ds : List FilePatch) (f : Text) (s e : ℕ)
    → AreDistinct (patch_paths ds)
    → All IsPlainPatch ds
    → comment_lines_valid (valid_right_lines (print_diff ds)) f (pos s) (pos e)
      ≡ ((not (e == 0) && patches_show ds f e) && (s == 0 || (s == e || patches_show ds f s)))
comment_lines_valid-print_diff ds f s e distinct oks = rw (
  comment_lines_valid-marked (valid_right_lines (print_diff ds)) f s e,
  valid_right_lines-print_diff ds f e distinct oks,
  valid_right_lines-print_diff ds f s distinct oks,
)

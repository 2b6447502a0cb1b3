-- ===== src/Review/Diff/Misread.antt =====
-- Added lines that the scan of `validRightLines` does not count: the printed line begins with "+++".
use codereviewer.Prelude.{
  ℕ, ◌+◌, ◌≡◌, ◌≢◌, false, true, [], ◌∷◌, ◌++◌, arith, Text, codes, is_empty, has_prefix,
}
use codereviewer.Review.Diff.{Scan, scan_line, scan_lines}
use codereviewer.Review.Diff.Render.{context, added, print_line, print_lines, shows_line}
use codereviewer.Review.Diff.Scanning.{
  is_marked, IsAt, Marks-mark, scan_context, scan_lines-cons, scan_lines-nil,
}

skip_plus_plus :
    (st : Scan) (c : ℕ) (t : Text)
    → c ≢ b' '
    → scan_line st (print_line (added (codes "++" ++ c ∷ t))) ≡ st
unfolding scan_line has_prefix
skip_plus_plus st c t h = ground arith

-- In file `p` before its line `m`, an added line whose text begins with "++" and then something
-- other than a space is skipped by the scan without counting it: of that line and a context line
-- behind it the diff shows lines `m` and `m + 1`, and the scan leaves line `m + 1` as it was.
pub misnumbered :
    (p : Text) (m : ℕ) (st : Scan) (c : ℕ) (t u : Text)
    → is_empty p ≡ false
    → IsAt p m st
    → c ≢ b' '
    → (shows_line m (added (codes "++" ++ c ∷ t) ∷ context u ∷ []) (m + 1) ≡ true)
      × (is_marked
            (scan_lines st (print_lines (added (codes "++" ++ c ∷ t) ∷ context u ∷ []))).out
            p
            (m + 1)
          ≡ is_marked st.out p (m + 1))
misnumbered p m st c t u named at h = (
  ground arith,
  rw (scan_lines-cons, skip_plus_plus st c t h, scan_lines-cons, scan_context, scan_lines-nil)
      (ground (arith, (Marks-mark named at).marks p (m + 1))),
)

-- ===== src/Review/Diff/Files.antt =====
-- The files that `extractChangedFiles` finds, and the keys of the map of `validRightLines`.
use codereviewer.Prelude.{
  ◌≡◌, refl, ap, Bool, true, false, not, ◌&&◌, ◌||◌, inl, inr, List, [], ◌∷◌, ◌++◌, arith, Text,
  codes, text_eq, text_eq_iff, is_empty, has_prefix, split, any_of, any_of-append, is_some, some,
  Bool-cases, Option-cases, if◌then◌else◌, All, All-append,
}
use codereviewer.Dict
use codereviewer.Dict.{Dict, get-put, get-empty}
use codereviewer.Review.Diff.{
  Lines, Scan, header_path, mark, enter_file, enter_hunk, scan_line, scan_lines, start_scan,
  parse_hunk_right_start, valid_right_lines, collect_files, extract_changed_files,
}

abbrev pub has_file : List Text → Text → Bool
has_file paths f = any_of (text_eq f) paths

abbrev pub has_key : Dict Lines → Text → Bool
has_key d f = is_some (Dict.get d f)

text_eq_sym : (s t : Text) → text_eq s t ≡ text_eq t s
text_eq_sym s t = ground (arith, text_eq_iff s t, text_eq_iff t s)

has_key-put :
    (d : Dict Lines) (k f : Text) (v : Lines)
    → has_key (Dict.put d k v) f ≡ (text_eq f k || has_key d f)
has_key-put d k f v = rw (get-put, text_eq_sym f k) (split_test (text_eq k f))
  where
    split_test : (b : Bool) → is_some (if b then some v else Dict.get d f) ≡ (b || has_key d f)
    split_test true = refl
    split_test false = refl

has_key-mark : (st : Scan) (f : Text) → has_key (mark st).out f ≡ has_key st.out f
unfolding mark
has_key-mark st f = elim (Bool-cases (is_empty st.path)) [
  | inl e ↦ rw e
  | inr e ↦ elim (Option-cases (Dict.get st.out st.path)) [
    | inl n ↦ rw (e, n)
    | inr (v, h) ↦
        rw (e, h)
          (ground (arith, has_key-put st.out st.path f (st.line ∷ v), text_eq_iff f st.path))
  ]
]

has_key-enter_file :
    (st : Scan) (p f : Text)
    → has_key (enter_file st p).out f ≡ ((not (is_empty p) && text_eq f p) || has_key st.out f)
unfolding enter_file
has_key-enter_file st p f = elim (Bool-cases (is_empty p)) [
  | inl e ↦ rw e
  | inr e ↦ rw e (has_key-put st.out p f [])
]

has_key-enter_hunk :
    (st : Scan) (l f : Text)
    → has_key (enter_hunk st (parse_hunk_right_start l)).out f ≡ has_key st.out f
unfolding enter_hunk
has_key-enter_hunk st l f = elim (Option-cases (parse_hunk_right_start l)) [
  | inl e ↦ rw e
  | inr (n, e) ↦ rw e
]

has_key-scan_line :
    (st : Scan) (l f : Text)
    → has_key (scan_line st l).out f ≡ (
        (has_prefix l (codes "+++ ")
          && (not (is_empty (header_path l)) && text_eq f (header_path l)))
        || has_key st.out f)
unfolding scan_line
has_key-scan_line st l f =
    ground
      (arith, has_key-mark st f, has_key-enter_hunk st l f, has_key-enter_file st (header_path l) f)

module _ (l : Text) (ls seen paths : List Text) where
  collect_skip :
      (has_prefix l (codes "+++ ")
          && (not (is_empty (header_path l)) && not (has_file seen (header_path l))))
        ≡ false
      → collect_files (l ∷ ls) seen paths ≡ collect_files ls seen paths
  unfolding collect_files
  collect_skip h = ground arith

  collect_take :
      (has_prefix l (codes "+++ ")
          && (not (is_empty (header_path l)) && not (has_file seen (header_path l))))
        ≡ true
      → collect_files (l ∷ ls) seen paths
        ≡ collect_files ls (header_path l ∷ seen) (paths ++ header_path l ∷ [])
  unfolding collect_files
  collect_take h = ground arith

has_file_of_eq :
    (seen : List Text) (p g : Text) → text_eq g p ≡ true → has_file seen g ≡ has_file seen p
has_file_of_eq seen p g h = ap (has_file seen) ((text_eq_iff g p).0 h)

agree :
    (ls : List Text) (st : Scan) (seen paths : List Text)
    → ((g : Text) → has_key st.out g ≡ has_file seen g)
    → ((g : Text) → has_file paths g ≡ has_file seen g)
    → (f : Text) → has_key (scan_lines st ls).out f ≡ has_file (collect_files ls seen paths) f
unfolding scan_lines
agree [] st seen paths hk hp f = unfold collect_files in ground (arith, hk f, hp f)
agree (l ∷ ls) st seen paths hk hp f =
    elim (Bool-cases (
      has_prefix l (codes "+++ ")
      && (not (is_empty (header_path l)) && not (has_file seen (header_path l))))) [
        | inl e ↦ rw (collect_take l ls seen paths e) (
            agree ls (scan_line st l) (header_path l ∷ seen) (paths ++ header_path l ∷ [])
              (λ g. ground (arith, hk g, has_key-scan_line st l g))
              (λ g. ground (arith, hp g, any_of-append (text_eq g) paths (header_path l ∷ []))) f)
        | inr e ↦ rw (collect_skip l ls seen paths e) (
            agree ls (scan_line st l) seen paths
              (λ g.
                ground
                  (arith, hk g, has_key-scan_line st l g, has_file_of_eq seen (header_path l) g))
              hp f)
      ]

-- A file has an entry in the map of valid lines exactly when it is among the changed files that
-- the same diff yields.
pub has_key-valid_right_lines :
    (diff f : Text) → has_key (valid_right_lines diff) f ≡ has_file (extract_changed_files diff) f
unfolding valid_right_lines extract_changed_files start_scan
has_key-valid_right_lines diff f =
    agree (split diff b'\n') start_scan [] [] (λ g. rw get-empty) (λ g. refl) f

abbrev pub AreDistinct : List Text → Type 0
AreDistinct [] = Unit
AreDistinct (p ∷ ps) = (has_file ps p ≡ false) × AreDistinct ps

AreDistinct-append :
    (ps : List Text) (p : Text)
    → AreDistinct ps
    → has_file ps p ≡ false
    → AreDistinct (ps ++ p ∷ [])
AreDistinct-append [] p d h = (refl, tt)
AreDistinct-append (q ∷ ps) p (fresh, d) h = (
  ground (arith, any_of-append (text_eq q) ps (p ∷ []), text_eq_sym p q),
  AreDistinct-append ps p d (ground arith),
)

abbrev pub IsNamed : Text → Type 0
IsNamed p = is_empty p ≡ false

collect_distinct :
    (ls seen paths : List Text)
    → ((g : Text) → has_file paths g ≡ has_file seen g)
    → AreDistinct paths
    → All IsNamed paths
    → AreDistinct (collect_files ls seen paths) × All IsNamed (collect_files ls seen paths)
collect_distinct [] seen paths hp d e = unfold collect_files in (d, e)
collect_distinct (l ∷ ls) seen paths hp d e =
    elim (Bool-cases (
      has_prefix l (codes "+++ ")
      && (not (is_empty (header_path l)) && not (has_file seen (header_path l))))) [
        | inl t ↦ rw (collect_take l ls seen paths t) (
            collect_distinct ls (header_path l ∷ seen) (paths ++ header_path l ∷ [])
              (λ g. ground (arith, hp g, any_of-append (text_eq g) paths (header_path l ∷ [])))
              (AreDistinct-append paths (header_path l) d (ground (arith, hp (header_path l))))
              (All-append IsNamed paths (header_path l ∷ []) e (ground arith, tt)))
        | inr t ↦ rw (collect_skip l ls seen paths t) (collect_distinct ls seen paths hp d e)
      ]

-- The changed files of a diff are distinct, and none of them is the empty path.
pub extract_changed_files-AreDistinct :
    (diff : Text)
    → AreDistinct (extract_changed_files diff) × All IsNamed (extract_changed_files diff)
unfolding extract_changed_files
extract_changed_files-AreDistinct diff = collect_distinct (split diff b'\n') [] [] (λ g. refl) tt tt

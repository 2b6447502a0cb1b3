-- ===== src/Review/Diff/Scanning.antt =====
-- What the scan of `validRightLines` does on the lines of a printed diff.
use codereviewer.Prelude.{
  ℕ, ◌+◌, ◌≤◌, ◌<◌, ◌≡◌, ◌≢◌, refl, ap, ◌∙◌, Bool, true, false, ◌&&◌, ◌||◌, inl, inr, Option, none,
  some, List, [], ◌∷◌, ◌++◌, arith, Text, codes, text_eq, text_eq_iff, text_eq_refl, is_empty,
  has_prefix, itoa, atoi, atoi-itoa, itoa-All, is_digit, cut, cut_where, cut-append,
  cut_where-append, length, Lacks, All, All-append, ◌==◌, Bool-cases, Option-cases, if◌then◌else◌,
}
use codereviewer.Prelude.Int.{pos, max_int64, inc64}
use codereviewer.Dict
use codereviewer.Dict.{Dict, get-put}
use codereviewer.Review.Diff.{
  Lines, has_line, Scan, parse_hunk_right_start, mark, enter_hunk, scan_line, scan_lines,
}
use codereviewer.Review.Diff.Files.{has_key}
use codereviewer.Review.Diff.Render.{
  DiffLine, context, added, removed, Hunk, print_line, print_lines, separator, hunk_header,
  print_hunks, shows_line, hunks_show, IsPlainLine, IsPlainHunk,
}

abbrev pub marked_in : Option Lines → ℕ → Bool
marked_in none n = false
marked_in (some lines) n = has_line lines (pos n)

-- valid[f][n]
abbrev pub is_marked : Dict Lines → Text → ℕ → Bool
is_marked d f n = marked_in (Dict.get d f) n

pub scan_lines-append :
    (st : Scan) (xs ys : List Text) → scan_lines st (xs ++ ys) ≡ scan_lines (scan_lines st xs) ys
unfolding scan_lines
scan_lines-append st [] ys = refl
scan_lines-append st (x ∷ xs) ys = scan_lines-append (scan_line st x) xs ys

pub scan_lines-cons :
    (st : Scan) (l : Text) (ls : List Text)
    → scan_lines st (l ∷ ls) ≡ scan_lines (scan_line st l) ls
unfolding scan_lines
scan_lines-cons st l ls = refl

pub scan_lines-nil : (st : Scan) → scan_lines st [] ≡ st
unfolding scan_lines
scan_lines-nil st = refl

-- inside the part of the diff about file `p`, before line `m` of its new version
pub record IsAt (p : Text) (m : ℕ) (st : Scan) : Type 0 where
  pub path : st.path ≡ p
  pub line : st.line ≡ pos m
  pub known : has_key st.out p ≡ true

-- the scan moved on inside file `p`, and marked there the lines that `shown` tells
pub record Marks (p : Text) (shown : ℕ → Bool) (st st' : Scan) : Type 0 where
  pub path : st'.path ≡ p
  pub known : has_key st'.out p ≡ true
  pub marks :
      (f : Text) (n : ℕ)
      → is_marked st'.out f n ≡ ((text_eq f p && shown n) || is_marked st.out f n)

inc64-pos : (m : ℕ) → m < max_int64 → inc64 (pos m) ≡ pos (m + 1)
unfolding inc64
inc64-pos m h = ground arith

pub is_marked-put :
    (d : Dict Lines) (k f : Text) (v : Lines) (n : ℕ)
    → is_marked (Dict.put d k v) f n ≡ (if text_eq f k then has_line v (pos n) else is_marked d f n)
is_marked-put d k f v n = elim (Bool-cases (text_eq k f)) [
  | inl e ↦ rw (get-put, e) (ground (arith, text_eq_iff k f, text_eq_iff f k))
  | inr e ↦ rw (get-put, e) (ground (arith, text_eq_iff k f, text_eq_iff f k))
]

mark_eq :
    (d : Dict Lines) (p : Text) (m : ℕ) (v : Lines)
    → is_empty p ≡ false
    → Dict.get d p ≡ some v
    → mark (record { out = d; path = p; line = pos m })
      ≡ record { out = Dict.put d p (pos m ∷ v); path = p; line = inc64 (pos m) }
unfolding mark
mark_eq d p m v named h = rw (named, h)

module _ {p : Text} {m : ℕ} {st : Scan} (named : is_empty p ≡ false) (at : IsAt p m st) where
  as_record : st ≡ record { out = st.out; path = p; line = pos m }
  as_record = λ i. record { out = st.out; path = at.path i; line = at.line i }

  known_lines : (v : Lines) × (Dict.get st.out p ≡ some v)
  known_lines = elim (Option-cases (Dict.get st.out p)) [
    | inl e ↦ absurd (ground (arith, at.known, e))
    | inr h ↦ h
  ]

  mark_st :
      mark st
      ≡ record { out = Dict.put st.out p (pos m ∷ known_lines.0); path = p; line = inc64 (pos m) }
  mark_st = ap mark as_record ∙ mark_eq st.out p m known_lines.0 named known_lines.1

  pub IsAt-mark : m < max_int64 → IsAt p (m + 1) (mark st)
  IsAt-mark fits =
      rw mark_st
        (record { path = refl; line = inc64-pos m fits; known = rw (get-put, text_eq_refl) })

  pub Marks-mark : Marks p (λ n. n == m) st (mark st)
  Marks-mark = rw mark_st (record {
    path = refl;
    known = rw (get-put, text_eq_refl);
    marks = λ f n.
        ground (
          arith,
          is_marked-put st.out p f (pos m ∷ known_lines.0) n,
          known_lines.1,
          text_eq_iff f p,
        );
  })

Marks-refl :
    {p : Text} {st : Scan} → st.path ≡ p → has_key st.out p ≡ true → Marks p (λ n. false) st st
Marks-refl e k = record { path = e; known = k; marks = λ f n. ground arith }

Marks-trans :
    {p : Text} {a b : ℕ → Bool} {s t u : Scan}
    → Marks p a s t
    → Marks p b t u
    → Marks p (λ n. a n || b n) s u
Marks-trans x y = record {
  path = y.path;
  known = y.known;
  marks = λ f n. ground (arith, x.marks f n, y.marks f n);
}

pub scan_context : (st : Scan) (t : Text) → scan_line st (print_line (context t)) ≡ mark st
unfolding scan_line has_prefix
scan_context st t = refl

not_header : (t : Text) → has_prefix t (codes "++") ≡ false → has_prefix t (codes "++ ") ≡ false
unfolding has_prefix
not_header [] h = refl
not_header (c ∷ []) h = ground arith
not_header (c ∷ d ∷ t) h = ground arith

nil_prefix : (t : Text) → has_prefix t [] ≡ true
unfolding has_prefix
nil_prefix [] = refl
nil_prefix (c ∷ t) = refl

scan_added :
    (st : Scan) (t : Text)
    → has_prefix t (codes "++") ≡ false
    → scan_line st (print_line (added t)) ≡ mark st
unfolding scan_line
scan_added st t h = ground (
  arith,
  skip_plus (codes "++ "),
  skip_plus (codes "++"),
  skip_plus [],
  no_at,
  not_header t h,
  nil_prefix t,
)
  where
    skip_plus : (p : Text) → has_prefix (b'+' ∷ t) (b'+' ∷ p) ≡ has_prefix t p
    skip_plus p = unfold has_prefix in refl

    no_at : has_prefix (b'+' ∷ t) (codes "@@") ≡ false
    no_at = unfold has_prefix in refl

scan_removed : (st : Scan) (t : Text) → scan_line st (print_line (removed t)) ≡ st
unfolding scan_line has_prefix
scan_removed st t = ground arith

-- The lines of a hunk are marked by their numbers in the new version.
scan_body :
    {p : Text} (ls : List DiffLine) (m : ℕ) (st : Scan)
    → is_empty p ≡ false
    → m + length ls ≤ max_int64
    → All IsPlainLine ls
    → IsAt p m st
    → Marks p (shows_line m ls) st (scan_lines st (print_lines ls))
scan_body [] m st named fits plain at = rw scan_lines-nil (Marks-refl at.path at.known)
scan_body (context t ∷ ls) m st named fits (_, plain) at =
    rw (scan_lines-cons, scan_context)
      (Marks-trans (Marks-mark named at) (
        scan_body ls (m + 1) (mark st) named (omega arith) plain
          (IsAt-mark named at (omega arith))))
scan_body (added t ∷ ls) m st named fits ((_, h), plain) at =
    rw (scan_lines-cons, scan_added st t h)
      (Marks-trans (Marks-mark named at) (
        scan_body ls (m + 1) (mark st) named (omega arith) plain
          (IsAt-mark named at (omega arith))))
scan_body (removed t ∷ ls) m st named fits (_, plain) at =
    rw (scan_lines-cons, scan_removed) (scan_body ls m st named (omega arith) plain at)

digit_ends : (c : ℕ) → is_digit c ≡ true → (c == b',' || c == b' ') ≡ false
digit_ends c h = ground arith

All-imp :
    (p q : ℕ → Bool) (s : Text)
    → ((c : ℕ) → p c ≡ true → q c ≡ false)
    → All (λ c. p c ≡ true) s
    → All (λ c. q c ≡ false) s
All-imp p q [] h _ = tt
All-imp p q (c ∷ s) h (hc, hs) = (h c hc, All-imp p q s h hs)

separates : (one : Bool) → (separator one == b',' || separator one == b' ') ≡ true
separates true = refl
separates false = refl

parse_of_cuts :
    (hdr rest : Text) {a num b : Text}
    → cut hdr b'+' ≡ some (a, rest)
    → cut_where rest (λ c. c == b',' || c == b' ') ≡ some (num, b)
    → parse_hunk_right_start hdr ≡ atoi num
unfolding parse_hunk_right_start
parse_of_cuts hdr rest h k = rw (h, parse_hunk_right_start) (rw (k, parse_hunk_right_start))

no_plus : (h : Hunk) → IsPlainHunk h → Lacks b'+' (codes "@@ -" ++ (h.old_range ++ codes " "))
no_plus h ok =
    All-append (λ c. c ≢ b'+') (codes "@@ -") (h.old_range ++ codes " ") (omega arith)
      (All-append (λ c. c ≢ b'+') h.old_range (codes " ") ok.old_range.0 (omega arith))

parse_header :
    (h : Hunk) → IsPlainHunk h → parse_hunk_right_start (hunk_header h) ≡ some (pos h.start)
parse_header h ok =
    let number = itoa h.start ++ separator h.one_line ∷ h.tail in
    parse_of_cuts (hunk_header h) number
      (cut-append (codes "@@ -" ++ (h.old_range ++ codes " ")) b'+' number (no_plus h ok))
      (cut_where-append (λ c. c == b',' || c == b' ') (itoa h.start) (separator h.one_line) h.tail
        (All-imp is_digit (λ c. c == b',' || c == b' ') (itoa h.start) digit_ends
          (itoa-All h.start))
        (separates h.one_line))
    ∙ atoi-itoa h.start (omega (arith, ok.fits))

scan_hunk_header :
    (st : Scan) (h : Hunk)
    → scan_line st (hunk_header h) ≡ enter_hunk st (parse_hunk_right_start (hunk_header h))
unfolding scan_line has_prefix
scan_hunk_header st h = refl

IsAt-enter_hunk :
    {p : Text} (m : ℕ) (st : Scan)
    → st.path ≡ p
    → has_key st.out p ≡ true
    → IsAt p m (enter_hunk st (some (pos m)))
unfolding enter_hunk
IsAt-enter_hunk m st e k = record { path = e; line = refl; known = k }

Marks-enter_hunk :
    {p : Text} {a : ℕ → Bool} (m : ℕ) (st : Scan) {st' : Scan}
    → Marks p a (enter_hunk st (some (pos m))) st'
    → Marks p a st st'
unfolding enter_hunk
Marks-enter_hunk m st r = record { path = r.path; known = r.known; marks = r.marks }

pub scan_hunks :
    {p : Text} (hs : List Hunk) (st : Scan)
    → is_empty p ≡ false
    → All IsPlainHunk hs
    → st.path ≡ p
    → has_key st.out p ≡ true
    → Marks p (hunks_show hs) st (scan_lines st (print_hunks hs))
scan_hunks [] st named _ e k = rw scan_lines-nil (Marks-refl e k)
scan_hunks (h ∷ hs) st named (ok, oks) e k =
    let next = enter_hunk st (some (pos h.start)) in
    let body =
      scan_body h.body h.start next named ok.fits ok.body (IsAt-enter_hunk h.start st e k) in
    rw (scan_lines-cons, scan_hunk_header, parse_header h ok, scan_lines-append)
      (Marks-trans (Marks-enter_hunk h.start st body)
        (scan_hunks hs (scan_lines next (print_lines h.body)) named oks body.path body.known))

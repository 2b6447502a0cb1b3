-- ===== src/Review/Context/Sorting.antt =====
-- The order of the context sections: by falling priority, and those of one priority as they came.
use codereviewer.Prelude.{
  ◌≡◌, refl, ap, ◌∙◌, Bool, ◌&&◌, append-nil, true, false, List, [], ◌∷◌, ◌++◌, arith, keep, All,
  reverse_aux, Bool-cases, inl, inr,
}
use codereviewer.Prelude.Int.{ℤ, ◌≤ℤ◌, ltb_ℤ, eqb_ℤ}
use codereviewer.Review.Context.{Scored, sift, insertion_sort, by_priority}

abbrev pub AtMost : ℤ → List Scored → Type 0
AtMost k = All (λ s. s.priority ≤ℤ k)

abbrev pub AtLeast : ℤ → List Scored → Type 0
AtLeast k = All (λ s. k ≤ℤ s.priority)

-- each entry has at most the priority of those before it
abbrev pub IsFalling : List Scored → Type 0
IsFalling [] = Unit
IsFalling (s ∷ rest) = AtMost s.priority rest × IsFalling rest

unfoldable IsRising : List Scored → Type 0
IsRising [] = Unit
IsRising (s ∷ rest) = AtLeast s.priority rest × IsRising rest

AtLeast-weaken : (a b : ℤ) (xs : List Scored) → a ≤ℤ b → AtLeast b xs → AtLeast a xs
AtLeast-weaken a b [] h _ = tt
AtLeast-weaken a b (x ∷ xs) h (hx, hs) = (omega (arith, h, hx), AtLeast-weaken a b xs h hs)

AtLeast-sift :
    (k : ℤ) (x : Scored) (xs : List Scored) → k ≤ℤ x.priority → AtLeast k xs → AtLeast k (sift x xs)
unfolding sift
AtLeast-sift k x [] h _ = (h, tt)
AtLeast-sift k x (p ∷ xs) h (hp, hs) =
    let rest = AtLeast-sift k x xs h hs in
    elim (Bool-cases (ltb_ℤ p.priority x.priority)) [
      | inl e ↦ rw e (hp, rest)
      | inr e ↦ rw e (h, (hp, hs))
    ]

sift-IsRising : (x : Scored) (xs : List Scored) → IsRising xs → IsRising (sift x xs)
unfolding sift IsRising
sift-IsRising x [] _ = (tt, tt)
sift-IsRising x (p ∷ xs) (hp, hs) =
    let rest = sift-IsRising x xs hs in
    elim (Bool-cases (ltb_ℤ p.priority x.priority)) [
      | inl e ↦ rw e (AtLeast-sift p.priority x xs (ground arith) hp, rest)
      | inr e ↦
          let low : x.priority ≤ℤ p.priority = ground arith in
          rw e ((low, AtLeast-weaken x.priority p.priority xs low hp), (hp, hs))
    ]

insertion_sort-IsRising :
    (sorted xs : List Scored) → IsRising sorted → IsRising (insertion_sort sorted xs)
unfolding insertion_sort
insertion_sort-IsRising sorted [] h = h
insertion_sort-IsRising sorted (x ∷ xs) h =
    insertion_sort-IsRising (sift x sorted) xs (sift-IsRising x sorted h)

-- every entry of the first list has at least the priorities of the second
abbrev AllAbove : List Scored → List Scored → Type 0
AllAbove xs ys = All (λ x. AtMost x.priority ys) xs

AllAbove-cons :
    (x : Scored) (xs ys : List Scored)
    → AtLeast x.priority xs
    → AllAbove xs ys
    → AllAbove xs (x ∷ ys)
AllAbove-cons x [] ys _ _ = tt
AllAbove-cons x (z ∷ xs) ys (hz, hs) (kz, ks) = ((hz, kz), AllAbove-cons x xs ys hs ks)

AllAbove-nil : (xs : List Scored) → AllAbove xs []
AllAbove-nil [] = tt
AllAbove-nil (x ∷ xs) = (tt, AllAbove-nil xs)

reverse_aux-IsFalling :
    (xs ys : List Scored)
    → IsRising xs
    → IsFalling ys
    → AllAbove xs ys
    → IsFalling (reverse_aux xs ys)
unfolding IsRising
reverse_aux-IsFalling [] ys _ hy _ = hy
reverse_aux-IsFalling (x ∷ xs) ys (hx, hs) hy (ax, ax_s) =
    reverse_aux-IsFalling xs (x ∷ ys) hs (ax, hy) (AllAbove-cons x xs ys hx ax_s)

by_priority-IsFalling : (xs : List Scored) → IsFalling (by_priority xs)
unfolding by_priority IsRising
by_priority-IsFalling xs =
    let sorted = insertion_sort [] xs in
    reverse_aux-IsFalling sorted [] (insertion_sort-IsRising [] xs tt) tt (AllAbove-nil sorted)

keep-reverse_aux :
    (q : Scored → Bool) (xs ys : List Scored)
    → keep q (reverse_aux xs ys) ≡ reverse_aux (keep q xs) (keep q ys)
keep-reverse_aux q [] ys = refl
keep-reverse_aux q (x ∷ xs) ys = elim (Bool-cases (q x)) [
  | inl e ↦ rw (e, keep-reverse_aux q xs (x ∷ ys), e) refl
  | inr e ↦ rw (e, keep-reverse_aux q xs (x ∷ ys), e) refl
]

reverse_aux_twice :
    (xs ys zs : List Scored) → reverse_aux (reverse_aux xs ys) zs ≡ reverse_aux ys (xs ++ zs)
reverse_aux_twice [] ys zs = refl
reverse_aux_twice (x ∷ xs) ys zs = reverse_aux_twice xs (x ∷ ys) zs

-- the entries of one priority
abbrev pub has_priority : ℤ → Scored → Bool
has_priority k s = eqb_ℤ s.priority k

keep_swap :
    (q : Scored → Bool) (x p : Scored) (xs : List Scored)
    → (q p && q x) ≡ false
    → keep q (p ∷ x ∷ xs) ≡ keep q (x ∷ p ∷ xs)
keep_swap q x p xs h = elim (Bool-cases (q p)) [
  | inl e ↦ let other : q x ≡ false = ground arith in rw (e, other) refl
  | inr e ↦ rw e refl
]

sift_past :
    (x p : Scored) (xs : List Scored)
    → ltb_ℤ p.priority x.priority ≡ true
    → sift x (p ∷ xs) ≡ p ∷ sift x xs
unfolding sift
sift_past x p xs h = rw h refl

sift_stop :
    (x p : Scored) (xs : List Scored)
    → ltb_ℤ p.priority x.priority ≡ false
    → sift x (p ∷ xs) ≡ x ∷ p ∷ xs
unfolding sift
sift_stop x p xs h = rw h refl

apart : (k a b : ℤ) → ltb_ℤ a b ≡ true → (eqb_ℤ a k && eqb_ℤ b k) ≡ false
apart k a b h = ground arith

push :
    (q : Scored → Bool) (x : Scored) (xs sorted : List Scored)
    → reverse_aux (keep q xs) (keep q (x ∷ sorted)) ≡ reverse_aux (keep q (x ∷ xs)) (keep q sorted)
push q x xs sorted = elim (Bool-cases (q x)) [ inl e ↦ rw e refl | inr e ↦ rw e refl ]

keep_cons :
    (q : Scored → Bool) (x : Scored) (xs ys : List Scored)
    → keep q xs ≡ keep q ys
    → keep q (x ∷ xs) ≡ keep q (x ∷ ys)
keep_cons q x xs ys h = rw h refl

keep-sift :
    (k : ℤ) (x : Scored) (xs : List Scored)
    → keep (has_priority k) (sift x xs) ≡ keep (has_priority k) (x ∷ xs)
keep-sift k x [] = unfold sift in refl
keep-sift k x (p ∷ xs) = elim (Bool-cases (ltb_ℤ p.priority x.priority)) [
  | inl e ↦ rw (sift_past x p xs e) (
      keep_cons (has_priority k) p (sift x xs) (x ∷ xs) (keep-sift k x xs)
      ∙ keep_swap (has_priority k) x p xs (apart k p.priority x.priority e))
  | inr e ↦ rw (sift_stop x p xs e) refl
]

keep-insertion_sort :
    (k : ℤ) (sorted xs : List Scored)
    → keep (has_priority k) (insertion_sort sorted xs)
      ≡ reverse_aux (keep (has_priority k) xs) (keep (has_priority k) sorted)
unfolding insertion_sort
keep-insertion_sort k sorted [] = refl
keep-insertion_sort k sorted (x ∷ xs) =
    keep-insertion_sort k (sift x sorted) xs
    ∙ ap (reverse_aux (keep (has_priority k) xs)) (keep-sift k x sorted)
    ∙ push (has_priority k) x xs sorted

keep-by_priority :
    (k : ℤ) (xs : List Scored) → keep (has_priority k) (by_priority xs) ≡ keep (has_priority k) xs
unfolding by_priority
keep-by_priority k xs =
    keep-reverse_aux (has_priority k) (insertion_sort [] xs) []
    ∙ ap (λ l. reverse_aux l []) (keep-insertion_sort k [] xs)
    ∙ reverse_aux_twice (keep (has_priority k) xs) [] []
    ∙ append-nil (keep (has_priority k) xs)

-- The context sections are sorted by falling priority, and the sort is stable: for every priority
-- the sections that have it are those collected with it, in the same order.
pub by_priority-IsStableSort :
    (xs : List Scored)
    → IsFalling (by_priority xs)
      × ((k : ℤ) → keep (has_priority k) (by_priority xs) ≡ keep (has_priority k) xs)
by_priority-IsStableSort xs = (by_priority-IsFalling xs, λ k. keep-by_priority k xs)

-- ===== src/Prelude/StringLaws.antt =====
-- Laws of the text functions: cutting, splitting, decimal print and parse.
use codereviewer.Prelude.Tests.{ltb, ◌==◌, Bool-cases}
use codereviewer.Prelude.Lists.{All, any_of}
use codereviewer.Prelude.Int.{ℤ, pos, negsuc, max_int64}
use codereviewer.Prelude.Strings.{
  Text, Lacks, cut_where, cut, split, is_digit, read_digits, atoi, write_digits, itoa, print_int,
  unlines,
}
use Prim.Native.Nat.{ℕ, zero, suc, ◌+◌, ◌/◌, ◌%◌, ◌≤◌, ◌<◌}
use mathlib.Core.Path.{◌≡◌, refl, ap, sym, subst}
use mathlib.Core.Logic.{inl, inr, ◌≢◌}
use mathlib.Core.Bool.{Bool, true, false, false≢true}
use mathlib.Core.Option.{none, some}
use mathlib.Core.List.{List, [], ◌∷◌, ◌++◌}
use native.Mathlib.Omega.{arith}

-- A cut finds the first character of its kind.
pub cut_where-append :
    (p : ℕ → Bool) (s : Text) (c : ℕ) (rest : Text)
    → All (λ d. p d ≡ false) s
    → p c ≡ true
    → cut_where (s ++ c ∷ rest) p ≡ some (s, rest)
unfolding cut_where
cut_where-append p [] c rest _ h = rw h
cut_where-append p (d ∷ s) c rest (hd, hs) h = rw (hd, cut_where-append p s c rest hs h)

Lacks-All : (c : ℕ) (s : Text) → Lacks c s → All (λ d. (d == c) ≡ false) s
Lacks-All c [] _ = tt
Lacks-All c (d ∷ s) (hd, hs) = (ground arith, Lacks-All c s hs)

pub cut-append :
    (s : Text) (c : ℕ) (rest : Text) → Lacks c s → cut (s ++ c ∷ rest) c ≡ some (s, rest)
unfolding cut
cut-append s c rest h = cut_where-append (λ d. d == c) s c rest (Lacks-All c s h) (ground arith)

cut_where-none : (p : ℕ → Bool) (s : Text) → All (λ d. p d ≡ false) s → cut_where s p ≡ none
unfolding cut_where
cut_where-none p [] _ = refl
cut_where-none p (c ∷ s) (hc, hs) = rw (hc, cut_where-none p s hs) refl

pub cut-none : (s : Text) (c : ℕ) → Lacks c s → cut s c ≡ none
unfolding cut
cut-none s c h = cut_where-none (λ d. d == c) s (Lacks-All c s h)

pub split-append :
    (l : Text) (sep : ℕ) (rest : Text)
    → Lacks sep l
    → split (l ++ sep ∷ rest) sep ≡ l ∷ split rest sep
unfolding split
split-append [] sep rest _ = ground arith
split-append (c ∷ l) sep rest (hc, hl) = ground (arith, split-append l sep rest hl)

-- Lines that hold no newline come back from their text, with the empty text behind the last
-- newline.
pub split-unlines :
    (ls : List Text) → All (Lacks b'\n') ls → split (unlines ls) b'\n' ≡ ls ++ [] ∷ []
unfolding unlines
split-unlines [] _ = unfold split in refl
split-unlines (l ∷ ls) (hl, hls) = rw (split-append l b'\n' (unlines ls) hl, split-unlines ls hls)

pub read-write :
    (f n : ℕ) (out : Text) → n < f → read_digits (write_digits f n out) 0 ≡ read_digits out n
unfolding write_digits
read-write zero n out h = elim h [ ]
read-write (suc f) n out h = elim (Bool-cases (ltb n 10)) [
  | inl small ↦ rw small (unfold read_digits in ground arith)
  | inr big ↦
      rw (big, read-write f (n / 10) ((b'0' + n % 10) ∷ out) (ground arith))
        (unfold read_digits in ground arith)
]

abbrev starts_with_digit : Text → Bool
starts_with_digit [] = false
starts_with_digit (c ∷ s) = is_digit c

write_starts : (f n : ℕ) (out : Text) → n < f → starts_with_digit (write_digits f n out) ≡ true
unfolding write_digits
write_starts zero n out h = elim h [ ]
write_starts (suc f) n out h = ground (arith, write_starts f (n / 10) ((b'0' + n % 10) ∷ out))

write_digits-All :
    (f n : ℕ) (out : Text)
    → All (λ c. is_digit c ≡ true) out
    → All (λ c. is_digit c ≡ true) (write_digits f n out)
unfolding write_digits
write_digits-All zero n out h = h
write_digits-All (suc f) n out h = elim (Bool-cases (ltb n 10)) [
  | inl small ↦ rw small (ground arith, h)
  | inr big ↦ rw big (write_digits-All f (n / 10) ((b'0' + n % 10) ∷ out) (ground arith, h))
]

-- A printed number is made of digits.
pub itoa-All : (n : ℕ) → All (λ c. is_digit c ≡ true) (itoa n)
unfolding itoa
itoa-All n = write_digits-All (suc n) n [] tt

atoi_digits :
    (s : Text) (n : ℕ)
    → starts_with_digit s ≡ true
    → read_digits s 0 ≡ some n
    → n ≤ max_int64
    → atoi s ≡ some (pos n)
unfolding atoi
atoi_digits [] n h r fits = absurd (ground arith)
atoi_digits (c ∷ s) n h r fits = ground (arith, r)

-- A number that fits an int64 is read back from its print.
pub atoi-itoa : (n : ℕ) → n ≤ max_int64 → atoi (itoa n) ≡ some (pos n)
unfolding itoa
atoi-itoa n fits =
    atoi_digits (write_digits (suc n) n []) n (write_starts (suc n) n [] (omega arith))
      (unfold read_digits in read-write (suc n) n [] (omega arith)) fits

-- Different numbers have different prints.
pub itoa-injective : (m n : ℕ) → itoa m ≡ itoa n → m ≡ n
unfolding itoa
itoa-injective m n h = ground (arith, read_back m, read_back n)
  where
    read_back : (k : ℕ) → read_digits (write_digits (suc k) k []) 0 ≡ some k
    read_back k = unfold read_digits in read-write (suc k) k [] (omega arith)

itoa_minus : (n : ℕ) (s : Text) → itoa n ≢ b'-' ∷ s
itoa_minus n s h = clash (subst (All (λ c. is_digit c ≡ true)) h (itoa-All n))
  where
    clash : All (λ c. is_digit c ≡ true) (b'-' ∷ s) → ⊥
    clash (e, _) = false≢true e

-- Different integers have different prints.
pub print_int-injective : (m n : ℤ) → print_int m ≡ print_int n → m ≡ n
unfolding print_int
print_int-injective (pos m) (pos n) h = ap pos (itoa-injective m n h)
print_int-injective (pos m) (negsuc n) h = absurd (itoa_minus m (itoa (n + 1)) h)
print_int-injective (negsuc m) (pos n) h = absurd (itoa_minus n (itoa (m + 1)) (sym h))
print_int-injective (negsuc m) (negsuc n) h =
    ap negsuc (omega (arith, itoa-injective (m + 1) (n + 1) (cc)))

digits_lack : (c : ℕ) (s : Text) → is_digit c ≡ false → All (λ d. is_digit d ≡ true) s → Lacks c s
digits_lack c [] h _ = tt
digits_lack c (d ∷ s) h (hd, hs) = (ground arith, digits_lack c s h hs)

-- A printed integer holds no colon.
pub print_int-Lacks : (n : ℤ) → Lacks b':' (print_int n)
unfolding print_int
print_int-Lacks (pos n) = digits_lack b':' (itoa n) refl (itoa-All n)
print_int-Lacks (negsuc n) = (omega arith, digits_lack b':' (itoa (n + 1)) refl (itoa-All (n + 1)))

pub Lacks-any_of : (b : ℕ) (t : Text) → any_of (λ c. c == b) t ≡ false → Lacks b t
Lacks-any_of b [] h = tt
Lacks-any_of b (c ∷ t) h = ((λ e. ground (arith, e)), Lacks-any_of b t (ground arith))

-- ===== src/Walks.antt =====
-- The walk over a Go map, whose order the language leaves open: any order of the entries is one for
-- some choices.
use mathlib.Core.List.{Perm}
use mathlib.Core.List.Perm
use codereviewer.Prelude.{
  ℕ, zero, suc, ◌≡◌, refl, ap, ◌∙◌, Bool, ◌||◌, List, [], ◌∷◌, map, arith, All, any_of,
}

unfoldable pub insert_at {ℓ} : {A : Type ℓ} → ℕ → A → List A → List A
insert_at n x [] = x ∷ []
insert_at zero x (y ∷ ys) = x ∷ y ∷ ys
insert_at (suc n) x (y ∷ ys) = y ∷ insert_at n x ys

-- the entries of a map in the order of one walk
unfoldable pub walk {ℓ} : {A : Type ℓ} → List ℕ → List A → List A
walk choices [] = []
walk [] (x ∷ xs) = x ∷ walk [] xs
walk (n ∷ choices) (x ∷ xs) = insert_at n x (walk choices xs)

module _ {ℓ} {A : Type ℓ} where
  insert_at-Perm : (n : ℕ) (x : A) (ys : List A) → Perm (insert_at n x ys) (x ∷ ys)
  unfolding insert_at
  insert_at-Perm n x [] = Perm.refl (x ∷ [])
  insert_at-Perm zero x (y ∷ ys) = Perm.refl (x ∷ y ∷ ys)
  insert_at-Perm (suc n) x (y ∷ ys) =
      Perm.trans (Perm.cons y (insert_at-Perm n x ys)) (Perm.swap x y ys)

  pub walk-Perm : (choices : List ℕ) (xs : List A) → Perm (walk choices xs) xs
  unfolding walk
  walk-Perm choices [] = Perm.refl []
  walk-Perm [] (x ∷ xs) = Perm.cons x (walk-Perm [] xs)
  walk-Perm (n ∷ choices) (x ∷ xs) =
      Perm.trans (insert_at-Perm n x (walk choices xs)) (Perm.cons x (walk-Perm choices xs))

pub insert_at-All :
    {A : Type 0} (P : A → Type 0) (n : ℕ) (x : A) (ys : List A)
    → P x
    → All P ys
    → All P (insert_at n x ys)
unfolding insert_at
insert_at-All P n x [] px _ = (px, tt)
insert_at-All P zero x (y ∷ ys) px (py, pys) = (px, (py, pys))
insert_at-All P (suc n) x (y ∷ ys) px (py, pys) = (py, insert_at-All P n x ys px pys)

pub walk-All :
    {A : Type 0} (P : A → Type 0) (choices : List ℕ) (xs : List A)
    → All P xs
    → All P (walk choices xs)
unfolding walk
walk-All P choices [] _ = tt
walk-All P [] (x ∷ xs) (px, pxs) = (px, walk-All P [] xs pxs)
walk-All P (n ∷ choices) (x ∷ xs) (px, pxs) =
    insert_at-All P n x (walk choices xs) px (walk-All P choices xs pxs)

insert_at-All_inv :
    {A : Type 0} (P : A → Type 0) (n : ℕ) (x : A) (ys : List A)
    → All P (insert_at n x ys)
    → P x × All P ys
unfolding insert_at
insert_at-All_inv P n x [] (px, _) = (px, tt)
insert_at-All_inv P zero x (y ∷ ys) a = a
insert_at-All_inv P (suc n) x (y ∷ ys) (py, a) =
    let (px, pys) = insert_at-All_inv P n x ys a in (px, (py, pys))

pub walk-All_inv :
    {A : Type 0} (P : A → Type 0) (choices : List ℕ) (xs : List A)
    → All P (walk choices xs)
    → All P xs
unfolding walk
walk-All_inv P choices [] _ = tt
walk-All_inv P [] (x ∷ xs) (px, a) = (px, walk-All_inv P [] xs a)
walk-All_inv P (n ∷ choices) (x ∷ xs) a =
    let (px, pxs) = insert_at-All_inv P n x (walk choices xs) a in
    (px, walk-All_inv P choices xs pxs)

module _ {ℓ κ} {A : Type ℓ} {B : Type κ} (f : A → B) where
  map-insert_at :
      (n : ℕ) (x : A) (ys : List A) → insert_at n (f x) (map f ys) ≡ map f (insert_at n x ys)
  unfolding insert_at
  map-insert_at n x [] = refl
  map-insert_at zero x (y ∷ ys) = refl
  map-insert_at (suc n) x (y ∷ ys) = ap (λ l. f y ∷ l) (map-insert_at n x ys)

  pub map-walk :
      (choices : List ℕ) (xs : List A) → walk choices (map f xs) ≡ map f (walk choices xs)
  unfolding walk
  map-walk choices [] = refl
  map-walk [] (x ∷ xs) = ap (λ l. f x ∷ l) (map-walk [] xs)
  map-walk (n ∷ choices) (x ∷ xs) =
      ap (insert_at n (f x)) (map-walk choices xs) ∙ map-insert_at n x (walk choices xs)

any_of-insert_at {ℓ} :
    {A : Type ℓ} (p : A → Bool) (n : ℕ) (x : A) (ys : List A)
    → any_of p (insert_at n x ys) ≡ (p x || any_of p ys)
unfolding insert_at
any_of-insert_at p n x [] = refl
any_of-insert_at p zero x (y ∷ ys) = refl
any_of-insert_at p (suc n) x (y ∷ ys) = ground (arith, any_of-insert_at p n x ys)

pub any_of-walk {ℓ} :
    {A : Type ℓ} (p : A → Bool) (choices : List ℕ) (xs : List A)
    → any_of p (walk choices xs) ≡ any_of p xs
unfolding walk
any_of-walk p choices [] = refl
any_of-walk p [] (x ∷ xs) = ap (λ b. p x || b) (any_of-walk p [] xs)
any_of-walk p (n ∷ choices) (x ∷ xs) =
    any_of-insert_at p n x (walk choices xs) ∙ ap (λ b. p x || b) (any_of-walk p choices xs)

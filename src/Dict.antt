-- ===== src/Dict.antt =====
-- Go maps with string keys. The program walks a map's entries nowhere in what is modelled over
-- it, so their order is not modelled.
use codereviewer.Prelude.{
  ◌≡◌, refl, Option, none, some, List, [], ◌∷◌, Text, text_eq, text_eq_refl, if◌then◌else◌,
}

pub record Dict {ℓ} (V : Type ℓ) : Type ℓ where
  entries : List (Text × V)

module _ {ℓ} {V : Type ℓ} where
  lookup : List (Text × V) → Text → Option V
  lookup [] k = none
  lookup ((j, v) ∷ l) k = if text_eq j k then some v else lookup l k

  unfoldable pub empty : Dict V
  empty = record { entries = [] }

  -- m[k], with whether it is there
  unfoldable pub get : Dict V → Text → Option V
  unfolding lookup
  get d k = lookup d.entries k

  -- m[k] = v; an older entry is covered by the newer one
  unfoldable pub put : Dict V → Text → V → Dict V
  put d k v = record { entries = (k, v) ∷ d.entries }

  pub get-put :
      (d : Dict V) (k j : Text) (v : V)
      → get (put d k v) j ≡ (if text_eq k j then some v else get d j)
  unfolding get put
  get-put d k j v = refl

  pub get-put_self : (d : Dict V) (k : Text) (v : V) → get (put d k v) k ≡ some v
  get-put_self d k v = rw (get-put, text_eq_refl)

pub get-empty {ℓ} : {V : Type ℓ} (k : Text) → get (empty {V = V}) k ≡ none
unfolding get empty
get-empty k = refl

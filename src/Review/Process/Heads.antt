-- ===== src/Review/Process/Heads.antt =====
-- Which earlier head a review continues from.
use codereviewer.Prelude.{
  ◌≡◌, refl, ap, Bool, true, false, not, ◌&&◌, ◌||◌, inl, inr, Option, none, some, List, [], ◌∷◌,
  ◌++◌, arith, Text, text_eq, is_empty, All, Bool-cases,
}
use codereviewer.Ports.{RunStatus, posted, PrRun}
use codereviewer.Review.Process.{previous_head}

abbrev pub is_posted : RunStatus → Bool
is_posted posted = true
is_posted _ = false

-- the run was posted, for a head that is known and is not `head`
abbrev pub is_reviewed : Text → PrRun → Bool
is_reviewed head r =
    is_posted r.status && not (is_empty r.ref.head_sha || text_eq r.ref.head_sha head)

previous_head-hit :
    (head : Text) (r : PrRun) (rs : List PrRun)
    → is_reviewed head r ≡ true
    → previous_head head (r ∷ rs) ≡ some r.ref.head_sha
unfolding previous_head
previous_head-hit head r rs h = ground (arith, h)

previous_head-skip :
    (head : Text) (r : PrRun) (rs : List PrRun)
    → is_reviewed head r ≡ false
    → previous_head head (r ∷ rs) ≡ previous_head head rs
unfolding previous_head
previous_head-skip head r rs h = ground (arith, h)

-- the head `found` is that of a run in the list before which no run was posted for another head
pub record IsLatest (head : Text) (runs : List PrRun) (found : Text) : Type 0 where
  pub newer : List PrRun
  pub run : PrRun
  pub older : List PrRun
  pub split : runs ≡ newer ++ run ∷ older
  pub skipped : All (λ r. is_reviewed head r ≡ false) newer
  pub reviewed : is_reviewed head run ≡ true
  pub same : found ≡ run.ref.head_sha

abbrev pub IsPrevious : Text → List PrRun → Option Text → Type 0
IsPrevious head runs none = All (λ r. is_reviewed head r ≡ false) runs
IsPrevious head runs (some found) = IsLatest head runs found

IsPrevious-cons :
    (head : Text) (r : PrRun) (rs : List PrRun) (o : Option Text)
    → is_reviewed head r ≡ false
    → IsPrevious head rs o
    → IsPrevious head (r ∷ rs) o
IsPrevious-cons head r rs none h rest = (h, rest)
IsPrevious-cons head r rs (some found) h rest = record {
  newer = r ∷ rest.newer;
  run = rest.run;
  older = rest.older;
  split = ap (λ l. r ∷ l) rest.split;
  skipped = (h, rest.skipped);
  reviewed = rest.reviewed;
  same = rest.same;
}

-- The head from which a review continues is that of the first run in the list that was posted for a
-- head that is known and differs from the current one; there is none exactly when no run is such.
pub previous_head-IsPrevious :
    (head : Text) (runs : List PrRun) → IsPrevious head runs (previous_head head runs)
previous_head-IsPrevious head [] = unfold previous_head in tt
previous_head-IsPrevious head (r ∷ rs) =
    let rest = previous_head-IsPrevious head rs in
    elim (Bool-cases (is_reviewed head r)) [
      | inl e ↦ rw (previous_head-hit head r rs e) (record {
        newer = [];
        run = r;
        older = rs;
        split = refl;
        skipped = tt;
        reviewed = e;
        same = refl;
      })
      | inr e ↦
          rw (previous_head-skip head r rs e)
            (IsPrevious-cons head r rs (previous_head head rs) e rest)
    ]

-- ===== src/Core/Prompt/Drops.antt =====
-- Which sections the assembly drops, and when.
use codereviewer.Prelude.{
  ℕ, zero, suc, ◌<◌, ◌≡◌, refl, ap, ◌∙◌, Bool, true, false, inl, inr, Option, none, some, List, [],
  ◌∷◌, ◌++◌, append_assoc, append-nil, arith, Text, length, Bool-cases, Option-cases,
}
use codereviewer.Prelude.Int.{ℤ, pos, leb_ℤ}
use codereviewer.Core.Prompt.{
  Section, past_reviews, related_code, context, rules, Inputs, Assembled, user_prompt, total_tokens,
  drop_next, result, assemble_loop, assemble,
}

abbrev pub if_any {ℓ} : {A : Type ℓ} → List A → Section → List Section → List Section
if_any [] s rest = rest
if_any (x ∷ xs) s rest = s ∷ rest

-- the sections that can be dropped, in the documented order
abbrev pub sections_of : Inputs → List Section
sections_of i =
    if_any i.past_reviews past_reviews
      (if_any i.related_code related_code (if_any i.context context (if_any i.rules rules [])))

-- what the drops leave alone
pub record SameCore (i j : Inputs) : Type 0 where
  pub system_prompt : j.system_prompt ≡ i.system_prompt
  pub diff : j.diff ≡ i.diff
  pub closing_instruction : j.closing_instruction ≡ i.closing_instruction

drop_next-sections :
    (i left : Inputs) (s : Section)
    → drop_next i ≡ some (s, left)
    → (sections_of i ≡ s ∷ sections_of left) × SameCore i left
unfolding drop_next
drop_next-sections i left s h = (
  ground arith,
  record { system_prompt = ground arith; diff = ground arith; closing_instruction = ground arith },
)

drop_next-none : (i : Inputs) → drop_next i ≡ none → sections_of i ≡ []
unfolding drop_next
drop_next-none i h = ground arith

-- From inputs `i` the sections `ss` are dropped one by one, each at a prompt over the cap, and `j`
-- is left.
pub data Drops (token_cap : ℤ) (est : Text → ℕ) : Inputs → List Section → Inputs → Type 0 where
  keep_all : {i : Inputs} → Drops token_cap est i [] i
  drop_one :
      {i left j : Inputs} {s : Section} {ss : List Section}
      → leb_ℤ (pos (total_tokens est i)) token_cap ≡ false
      → drop_next i ≡ some (s, left)
      → Drops token_cap est left ss j
      → Drops token_cap est i (s ∷ ss) j

-- The prompt left by the drops fits, or it does not and there is nothing to drop.
pub data Ends (token_cap : ℤ) (est : Text → ℕ) (j : Inputs) : Bool → Type 0 where
  fits : leb_ℤ (pos (total_tokens est j)) token_cap ≡ true → Ends token_cap est j false
  overflows :
      leb_ℤ (pos (total_tokens est j)) token_cap ≡ false
      → sections_of j ≡ []
      → Ends token_cap est j true

-- What an assembled prompt is: that of the inputs left when sections are dropped.
pub record IsAssemblyOf (i : Inputs) (token_cap : ℤ) (est : Text → ℕ) (a : Assembled) : Type 0 where
  pub left : Inputs
  pub drops : Drops token_cap est i a.dropped left
  pub ends : Ends token_cap est left a.diff_overflow
  pub user_prompt_of : a.user_prompt ≡ user_prompt left
  pub order : sections_of i ≡ a.dropped ++ sections_of left
  pub same : SameCore i left
  pub tokens_of : a.tokens_estimated ≡ total_tokens est left

Drops-sections :
    {token_cap : ℤ} {est : Text → ℕ} {i j : Inputs} {ss : List Section}
    → Drops token_cap est i ss j
    → (sections_of i ≡ ss ++ sections_of j) × SameCore i j
Drops-sections keep_all =
    (refl, record { system_prompt = refl; diff = refl; closing_instruction = refl })
Drops-sections (drop_one {i} {left} {s = s} {ss = ss} over next rest) =
    let (order, same) = drop_next-sections i left s next in
    let (order', same') = Drops-sections rest in
    (
      order ∙ ap (λ t. s ∷ t) order',
      record {
        system_prompt = same'.system_prompt ∙ same.system_prompt;
        diff = same'.diff ∙ same.diff;
        closing_instruction = same'.closing_instruction ∙ same.closing_instruction;
      },
    )

-- the result of a loop that has dropped `drops` before
record LoopResult (i : Inputs) (token_cap : ℤ) (est : Text → ℕ) (drops : List Section)
    (o : Option Assembled) : Type 0 where
  later : List Section
  left : Inputs
  overflow : Bool
  returns : o ≡ some (result est left (drops ++ later) overflow)
  dropping : Drops token_cap est i later left
  ends : Ends token_cap est left overflow

module _ (fuel : ℕ) (i : Inputs) (token_cap : ℤ) (est : Text → ℕ) (drops : List Section) where
  loop_fits :
      leb_ℤ (pos (total_tokens est i)) token_cap ≡ true
      → assemble_loop (suc fuel) i token_cap est drops ≡ some (result est i drops false)
  unfolding assemble_loop
  loop_fits h = ground arith

  loop_stops :
      leb_ℤ (pos (total_tokens est i)) token_cap ≡ false
      → drop_next i ≡ none
      → assemble_loop (suc fuel) i token_cap est drops ≡ some (result est i drops true)
  unfolding assemble_loop
  loop_stops h e = ground arith

  loop_drops :
      (s : Section) (left : Inputs)
      → leb_ℤ (pos (total_tokens est i)) token_cap ≡ false
      → drop_next i ≡ some (s, left)
      → assemble_loop (suc fuel) i token_cap est drops
        ≡ assemble_loop fuel left token_cap est (drops ++ s ∷ [])
  unfolding assemble_loop
  loop_drops s left h e = ground arith

loop_result :
    (fuel : ℕ) (i : Inputs) (token_cap : ℤ) (est : Text → ℕ) (drops : List Section)
    → length (sections_of i) < fuel
    → LoopResult i token_cap est drops (assemble_loop fuel i token_cap est drops)
loop_result zero i token_cap est drops h = elim h [ ]
loop_result (suc fuel) i token_cap est drops h =
    elim (Bool-cases (leb_ℤ (pos (total_tokens est i)) token_cap)) [
      | inl fit ↦ record {
        later = [];
        left = i;
        overflow = false;
        returns = rw append-nil (loop_fits fuel i token_cap est drops fit);
        dropping = keep_all;
        ends = fits fit;
      }
      | inr over ↦ elim (Option-cases (drop_next i)) [
        | inl stop ↦ record {
          later = [];
          left = i;
          overflow = true;
          returns = rw append-nil (loop_stops fuel i token_cap est drops over stop);
          dropping = keep_all;
          ends = overflows over (drop_next-none i stop);
        }
        | inr ((s, left), next) ↦
            let order = (drop_next-sections i left s next).0 in
            let rest =
              loop_result fuel left token_cap est (drops ++ s ∷ [])
                (omega (arith, ap length order)) in
            record {
              later = s ∷ rest.later;
              left = rest.left;
              overflow = rest.overflow;
              returns =
                  loop_drops fuel i token_cap est drops s left over next
                  ∙ (rest.returns
                      ∙ ap (λ ss. some (result est rest.left ss rest.overflow))
                          (append_assoc drops (s ∷ []) rest.later));
              dropping = drop_one over next rest.dropping;
              ends = rest.ends;
            }
      ]
    ]

sections_of_few : (i : Inputs) → length (sections_of i) < 5
sections_of_few i = ground arith

-- The assembly always returns a prompt. It is the prompt of the inputs that are left when sections
-- are dropped one by one, each at a prompt over the cap, until the prompt fits or, with the
-- overflow flag, nothing is left to drop. The dropped sections and those left are the sections of
-- the inputs in the documented order, and the diff, the system prompt and the closing instruction
-- stay.
pub assemble-IsAssemblyOf :
    (i : Inputs) (token_cap : ℤ) (est : Text → ℕ)
    → (a : Assembled) × (assemble i token_cap est ≡ some a) × IsAssemblyOf i token_cap est a
unfolding assemble result
assemble-IsAssemblyOf i token_cap est =
    let r = loop_result 5 i token_cap est [] (sections_of_few i) in
    (
      result est r.left r.later r.overflow,
      r.returns,
      record {
        left = r.left;
        drops = r.dropping;
        ends = r.ends;
        user_prompt_of = refl;
        order = (Drops-sections r.dropping).0;
        same = (Drops-sections r.dropping).1;
        tokens_of = refl;
      },
    )

-- ===== src/Core/Prompt.antt =====
-- Prompt assembly under a token cap (internal/core/prompt/assemble.go, budget.go).
pub mod Drops
use codereviewer.Prelude.{
  ℕ, zero, suc, ◌+◌, Bool, true, false, Option, none, some, List, [], ◌∷◌, ◌++◌, Text, codes,
  nonempty, if◌then◌else◌,
}
use codereviewer.Prelude.Int.{ℤ, pos, leb_ℤ}

pub data Section : Type 0 where
  past_reviews related_code context rules : Section

unfoldable pub section_name : Section → Text
section_name past_reviews = codes "past_reviews"
section_name related_code = codes "related_code"
section_name context = codes "context"
section_name rules = codes "rules"

pub record ContextSection : Type 0 where
  pub source : Text
  pub title : Text
  pub body : Text

pub record Inputs : Type 0 where
  pub system_prompt : Text
  pub diff : Text
  pub related_code : List Text
  pub past_reviews : List Text
  pub context : List ContextSection
  pub rules : List Text
  pub closing_instruction : Text

pub record Assembled : Type 0 where
  pub system_prompt : Text
  pub user_prompt : Text
  pub tokens_estimated : ℕ
  pub dropped : List Section
  pub diff_overflow : Bool

write_each : List Text → Text
write_each [] = []
write_each (c ∷ cs) = c ++ b'\n' ∷ write_each cs

write_context : List ContextSection → Text
write_context [] = []
write_context (c ∷ cs) =
    codes "--- "
    ++ (c.source
        ++ (codes ": " ++ (c.title ++ (codes " ---\n" ++ (c.body ++ b'\n' ∷ write_context cs)))))

-- a heading and its entries, or nothing if there are none
headed : Text → List Text → Text
unfolding write_each
headed title xs = if nonempty xs then title ++ write_each xs else []

unfoldable pub build_user_prompt :
    Text → List Text → List Text → List ContextSection → List Text → Text → Text
unfolding headed write_context
build_user_prompt diff related reviews ctx rule_texts closing =
    codes "[DIFF]\n"
    ++ (diff
        ++ (codes "\n"
            ++ (headed (codes "\n[RELATED CODE]\n") related
                ++ (headed (codes "\n[PAST REVIEWS — with outcomes]\n") reviews
                    ++ ((if nonempty ctx then codes "\n[CONTEXT]\n" ++ write_context ctx else [])
                        ++ (headed (codes "\n[APPLICABLE RULES]\n") rule_texts
                            ++ (codes "\n" ++ closing)))))))

-- the prompt of the sections that are left
unfoldable pub user_prompt : Inputs → Text
user_prompt i =
    build_user_prompt i.diff i.related_code i.past_reviews i.context i.rules i.closing_instruction

unfoldable pub total_tokens : (Text → ℕ) → Inputs → ℕ
total_tokens est i = est i.system_prompt + est (user_prompt i)

-- the switch: the next section to drop, and what is left without it
unfoldable pub drop_next : Inputs → Option (Section × Inputs)
drop_next i =
    if nonempty i.past_reviews
    then some (past_reviews, record i { past_reviews = [] })
    else if nonempty i.related_code
    then some (related_code, record i { related_code = [] })
    else if nonempty i.context
    then some (context, record i { context = [] })
    else if nonempty i.rules
    then some (rules, record i { rules = [] })
    else none

unfoldable pub result : (Text → ℕ) → Inputs → List Section → Bool → Assembled
result est i drops overflow = record {
  system_prompt = i.system_prompt;
  user_prompt = user_prompt i;
  tokens_estimated = total_tokens est i;
  dropped = drops;
  diff_overflow = overflow;
}

-- one round per unit of fuel; `none` if it runs out
unfoldable pub assemble_loop : ℕ → Inputs → ℤ → (Text → ℕ) → List Section → Option Assembled
assemble_loop zero i token_cap est drops = none
assemble_loop (suc fuel) i token_cap est drops = elim (leb_ℤ (pos (total_tokens est i)) token_cap) [
  | true ↦ some (result est i drops false)
  | false ↦ elim (drop_next i) [
    | none ↦ some (result est i drops true)
    | some (s, left) ↦ assemble_loop fuel left token_cap est (drops ++ s ∷ [])
  ]
]

-- there are four sections, so five rounds are enough
unfoldable pub assemble : Inputs → ℤ → (Text → ℕ) → Option Assembled
assemble i token_cap est = assemble_loop 5 i token_cap est []

-- ===== src/Schemas/Choices.antt =====
-- The choices that a configuration which validates makes.
use codereviewer.Prelude.{
  ◌≡◌, refl, true, none, some, Bool-cases, Option, List, [], ◌∷◌, arith, Text, codes, text_eq,
  text_eq_iff, nonempty, inl, inr, ◌⊎◌, All, any_of,
}
use codereviewer.Schemas.Config.{
  Config, validate_one_of, or_else, known_providers, validate_providers, check_providers, check_bus,
  check_store, check_llm, check_secrets, check_sink, check_choices, active_providers,
}

-- one of the texts
abbrev pub IsOneOf : Text → List Text → Type 0
IsOneOf v [] = ⊥
IsOneOf v (a ∷ vs) = (v ≡ a) ⊎ IsOneOf v vs

-- The choices that the program knows. Some VCS provider is chosen.
pub record HasChoices (c : Config) : Type 0 where
  pub some_provider : nonempty (active_providers c.vcs) ≡ true
  pub providers :
      All
        (λ p. IsOneOf p (codes "github" ∷ codes "bitbucket" ∷ codes "memory" ∷ []))
        (active_providers c.vcs)
  pub bus : IsOneOf c.message_bus.type (codes "sqs" ∷ codes "nats" ∷ codes "memory" ∷ [])
  pub store : IsOneOf c.store.type (codes "postgres" ∷ codes "memory" ∷ [])
  pub llm : IsOneOf c.llm.provider (codes "litellm" ∷ codes "fake" ∷ [])
  pub secrets : IsOneOf c.secrets.provider (codes "env" ∷ codes "aws" ∷ codes "vault" ∷ [])
  pub sink : IsOneOf c.observability.sink (codes "stdout" ∷ codes "otel" ∷ [])

any_of-IsOneOf : (v : Text) (vs : List Text) → any_of (text_eq v) vs ≡ true → IsOneOf v vs
any_of-IsOneOf v [] h = absurd (ground arith)
any_of-IsOneOf v (a ∷ vs) h = elim (Bool-cases (text_eq v a)) [
  | inl e ↦ inl ((text_eq_iff v a).0 e)
  | inr e ↦ inr (any_of-IsOneOf v vs (ground arith))
]

allowed : (field v : Text) (vs : List Text) → validate_one_of field v vs ≡ none → IsOneOf v vs
unfolding validate_one_of
allowed field v vs h = elim (Bool-cases (any_of (text_eq v) vs)) [
  | inl e ↦ any_of-IsOneOf v vs e
  | inr e ↦ absurd (ground (arith, rw e at h))
]

both_pass : (a b : Option Text) → or_else a b ≡ none → (a ≡ none) × (b ≡ none)
both_pass none b h = (refl, h)
both_pass (some e) b h = absurd (ground arith)

allowed_providers :
    (ps : List Text) → validate_providers ps ≡ none → All (λ p. IsOneOf p known_providers) ps
unfolding validate_providers
allowed_providers [] h = tt
allowed_providers (p ∷ ps) h =
    let (one, rest) = both_pass _ _ h in
    (allowed _ p known_providers one, allowed_providers ps rest)

nonempty_providers :
    (ps : List Text)
    → check_providers ps ≡ none
    → (nonempty ps ≡ true) × (validate_providers ps ≡ none)
unfolding check_providers
nonempty_providers [] h = absurd (ground arith)
nonempty_providers (p ∷ ps) h = (refl, h)

pub check_choices-HasChoices : (c : Config) → check_choices c ≡ none → HasChoices c
unfolding check_choices check_bus check_store check_llm check_secrets check_sink
check_choices-HasChoices c h =
    let (providers, h1) = both_pass _ _ h in
    let (bus, h2) = both_pass _ _ h1 in
    let (store, h3) = both_pass _ _ h2 in
    let (llm, h4) = both_pass _ _ h3 in
    let (secrets, sink) = both_pass _ _ h4 in
    let (some_one, known) = nonempty_providers _ providers in
    record {
      some_provider = some_one;
      providers = allowed_providers _ known;
      bus = allowed _ _ _ bus;
      store = allowed _ _ _ store;
      llm = allowed _ _ _ llm;
      secrets = allowed _ _ _ secrets;
      sink = allowed _ _ _ sink;
    }

-- ===== src/Overlay/Untouched.antt =====
-- What the overlay leaves as it is in the configuration.
use codereviewer.Prelude.{
  ◌≡◌, refl, ap, subst, codes, arith, ◌∙◌, Option, none, some, List, [], ◌∷◌, Text, Bool-cases, inl,
  inr, atoi,
}
use codereviewer.Prelude.Int.{ℤ}
use codereviewer.Ports.{Usd, Result, ok, err, ConversationConfig}
use codereviewer.Schemas.Config.{
  Config, VcsConfig, MessageBusConfig, StoreConfig, SecretsConfig, GatewayConfig, AdminConfig,
  ContextConfig, RateLimitConfig, fill_llm, fill_conversation, fill_admin, fill_context,
  fill_rate_limit, fill_defaults, validate, filled_or, text_or, check_choices,
}
use codereviewer.Overlay.{
  Case, rules_git_url, rules_branch, tenant_id, tenant_name, cost_daily_usd_cap_default,
  llm_primary_model_url, llm_fallback_model_url, llm_embeddings_url, llm_per_pr_token_cap,
  observability_sink, observability_otlp_endpoint, observability_service_name,
  retention_pr_runs_days, retention_feedback_events_days, retention_pr_context_items_days,
  retention_embedding_cache_max_rows, retention_auto_export_max_files, Setting, Surroundings,
  set_int, set_usd, case_of, is_overlay_key, apply_case, apply_one, apply_setting, and_then,
  apply_all, then_validate, apply_overlay,
}

-- the blocks and fields that no setting is about
pub record Base : Type 0 where
  pub vcs : VcsConfig
  pub message_bus : MessageBusConfig
  pub store : StoreConfig
  pub secrets : SecretsConfig
  pub gateway : GatewayConfig
  pub admin : AdminConfig
  pub context : ContextConfig
  pub rate_limit : RateLimitConfig
  pub conversation : ConversationConfig
  pub llm_provider : Text
  pub gateway_url : Text
  pub api_key : Text

abbrev pub base : Config → Base
base c = record {
  vcs = c.vcs;
  message_bus = c.message_bus;
  store = c.store;
  secrets = c.secrets;
  gateway = c.gateway;
  admin = c.admin;
  context = c.context;
  rate_limit = c.rate_limit;
  conversation = c.conversation;
  llm_provider = c.llm.provider;
  gateway_url = c.llm.gateway_url;
  api_key = c.llm.api_key;
}

pub fill_base : Base → Base
fill_base b = record b {
  gateway = record { listen_addr = text_or (codes ":8080") b.gateway.listen_addr };
  admin = fill_admin b.admin;
  context = fill_context b.context;
  rate_limit = fill_rate_limit b.rate_limit;
  conversation = fill_conversation b.conversation;
}

-- where the result is a configuration, its base is `b`
abbrev HasBase : Base → Result Config → Type 0
HasBase b (err e) = Unit
HasBase b (ok c) = base c ≡ b

set_int-HasBase :
    (b : Base) (write : ℤ → Config) (n : Option ℤ)
    → ((k : ℤ) → base (write k) ≡ b)
    → HasBase b (set_int write n)
set_int-HasBase b write none h = tt
set_int-HasBase b write (some n) h = h n

module _ (around : Surroundings) where
  set_usd-HasBase :
      (b : Base) (write : Usd → Config) (n : Option Usd)
      → ((k : Usd) → base (write k) ≡ b)
      → HasBase b (set_usd around write n)
  set_usd-HasBase b write none h = tt
  set_usd-HasBase b write (some n) h = h n

  apply_case-HasBase :
      (c : Config) (v : Text) (k : Option Case) → HasBase (base c) (apply_case around c v k)
  unfolding apply_case
  apply_case-HasBase c v none = tt
  apply_case-HasBase c v (some rules_git_url) = refl
  apply_case-HasBase c v (some rules_branch) = refl
  apply_case-HasBase c v (some tenant_id) = refl
  apply_case-HasBase c v (some tenant_name) = refl
  apply_case-HasBase c v (some cost_daily_usd_cap_default) =
      set_usd-HasBase (base c) _ (around.parse_usd v) (λ k. refl)
  apply_case-HasBase c v (some llm_primary_model_url) = refl
  apply_case-HasBase c v (some llm_fallback_model_url) = refl
  apply_case-HasBase c v (some llm_embeddings_url) = refl
  apply_case-HasBase c v (some llm_per_pr_token_cap) =
      set_int-HasBase (base c) _ (atoi v) (λ k. refl)
  apply_case-HasBase c v (some observability_sink) = refl
  apply_case-HasBase c v (some observability_otlp_endpoint) = refl
  apply_case-HasBase c v (some observability_service_name) = refl
  apply_case-HasBase c v (some retention_pr_runs_days) =
      set_int-HasBase (base c) _ (atoi v) (λ k. refl)
  apply_case-HasBase c v (some retention_feedback_events_days) =
      set_int-HasBase (base c) _ (atoi v) (λ k. refl)
  apply_case-HasBase c v (some retention_pr_context_items_days) =
      set_int-HasBase (base c) _ (atoi v) (λ k. refl)
  apply_case-HasBase c v (some retention_embedding_cache_max_rows) =
      set_int-HasBase (base c) _ (atoi v) (λ k. refl)
  apply_case-HasBase c v (some retention_auto_export_max_files) =
      set_int-HasBase (base c) _ (atoi v) (λ k. refl)

  apply_setting-HasBase : (c : Config) (s : Setting) → HasBase (base c) (apply_setting around c s)
  unfolding apply_setting apply_one
  apply_setting-HasBase c s = elim (Bool-cases (is_overlay_key s.key)) [
    | inl e ↦ rw e (apply_case-HasBase c _ (case_of s.key))
    | inr e ↦ rw e refl
  ]

  and_then-HasBase :
      (b : Base) (r : Result Config) (later : Config → Result Config)
      → HasBase b r
      → ((c : Config) → base c ≡ b → HasBase b (later c))
      → HasBase b (and_then around r later)
  and_then-HasBase b (err e) later h k = tt
  and_then-HasBase b (ok c) later h k = k c h

  apply_all-HasBase :
      (b : Base) (c : Config) (ss : List Setting) → base c ≡ b → HasBase b (apply_all around c ss)
  unfolding apply_all
  apply_all-HasBase b c [] h = h
  apply_all-HasBase b c (s ∷ ss) h =
      and_then-HasBase b (apply_setting around c s) _
        (subst (λ x. HasBase x (apply_setting around c s)) h (apply_setting-HasBase c s))
        (λ d same. apply_all-HasBase b d ss same)

  base-fill_defaults : (c : Config) → base (fill_defaults around.five_usd c) ≡ fill_base (base c)
  unfolding fill_defaults fill_base fill_llm
  base-fill_defaults c = refl

  validate-HasBase :
      (b : Base) (r : Result Config) → HasBase b r → HasBase (fill_base b) (then_validate around r)
  unfolding validate
  validate-HasBase b (err e) h = tt
  validate-HasBase b (ok c) h = filled (check_choices c)
    where
      filled : (found : Option Text) → HasBase (fill_base b) (filled_or around.five_usd c found)
      filled none = base-fill_defaults c ∙ ap fill_base h
      filled (some e) = tt

  -- The overlay of a configuration with settings, when it succeeds, has the base of that
  -- configuration, filled.
  pub apply_overlay-base :
      (c d : Config) (settings : Result (List Setting))
      → apply_overlay around c (some settings) ≡ ok d
      → base d ≡ fill_base (base c)
  unfolding apply_overlay
  apply_overlay-base c d (err e) h = absurd (ground arith)
  apply_overlay-base c d (ok settings) h = subst (HasBase (fill_base (base c))) h (
      validate-HasBase (base c) (apply_all around c settings)
        (apply_all-HasBase (base c) c settings refl))

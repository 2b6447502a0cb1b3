-- ===== src/Reloader/Equality.antt =====
-- Snapshots that the reloader takes for equal, over one bootstrap configuration, are equal.
use codereviewer.Prelude.{◌≡◌, refl, ap, Bool, true, false, ◌&&◌, arith, Text, text_eq, text_eq_iff}
use codereviewer.Prelude.Int.{ℤ, eqb_ℤ, eqb_ℤ_iff}
use codereviewer.Schemas.Config.{
  Config, LlmConfig, RulesConfig, TenantConfig, ObservabilityConfig, RetentionConfig,
}
use codereviewer.Overlay.Untouched.{Base, base}
use codereviewer.Reloader.{
  bool_equal, rules_equal, tenant_equal, llm_equal, observability_equal, retention_equal,
  config_equal,
}

and_true : (a b : Bool) → (a && b) ≡ true → (a ≡ true) × (b ≡ true)
and_true true b h = (refl, h)
and_true false b h = absurd (ground arith)

bool_equal-eq : (a b : Bool) → bool_equal a b ≡ true → a ≡ b
bool_equal-eq true true h = refl
bool_equal-eq true false h = absurd (ground arith)
bool_equal-eq false true h = absurd (ground arith)
bool_equal-eq false false h = refl

same_text : (a b : Text) → text_eq a b ≡ true → a ≡ b
same_text a b = (text_eq_iff a b).0

same_int : (a b : ℤ) → eqb_ℤ a b ≡ true → a ≡ b
same_int a b = (eqb_ℤ_iff a b).0

rules_equal-eq : (a b : RulesConfig) → rules_equal a b ≡ true → a ≡ b
rules_equal-eq a b h =
    let (g, r) = and_true _ _ h in
    λ i. record {
      git_url = same_text a.git_url b.git_url g i;
      branch = same_text a.branch b.branch r i;
    }

tenant_equal-eq : (a b : TenantConfig) → tenant_equal a b ≡ true → a ≡ b
tenant_equal-eq a b h =
    let (g, r) = and_true _ _ h in
    λ i. record { id = same_text a.id b.id g i; name = same_text a.name b.name r i }

observability_equal-eq : (a b : ObservabilityConfig) → observability_equal a b ≡ true → a ≡ b
observability_equal-eq a b h =
    let (p, h') = and_true _ _ h in
    let (q, r) = and_true _ _ h' in
    λ i. record {
      sink = same_text a.sink b.sink p i;
      otlp_endpoint = same_text a.otlp_endpoint b.otlp_endpoint q i;
      service_name = same_text a.service_name b.service_name r i;
    }

retention_equal-eq : (a b : RetentionConfig) → retention_equal a b ≡ true → a ≡ b
retention_equal-eq a b h =
    let (p1, h1) = and_true _ _ h in
    let (p2, h2) = and_true _ _ h1 in
    let (p3, h3) = and_true _ _ h2 in
    let (p4, h4) = and_true _ _ h3 in
    let (p5, h5) = and_true _ _ h4 in
    let (p6, p7) = and_true _ _ h5 in
    λ i. record {
      pr_runs_days = same_int a.pr_runs_days b.pr_runs_days p1 i;
      feedback_events_days = same_int a.feedback_events_days b.feedback_events_days p2 i;
      pr_context_items_days = same_int a.pr_context_items_days b.pr_context_items_days p3 i;
      embedding_cache_max_rows =
          same_int a.embedding_cache_max_rows b.embedding_cache_max_rows p4 i;
      auto_export_max_files = same_int a.auto_export_max_files b.auto_export_max_files p5 i;
      janitor_interval_hours = same_int a.janitor_interval_hours b.janitor_interval_hours p6 i;
      janitor_enabled = bool_equal-eq a.janitor_enabled b.janitor_enabled p7 i;
    }

-- what of the LLM block no setting is about
llm_equal-eq :
    (a b : LlmConfig)
    → llm_equal a b ≡ true
    → a.provider ≡ b.provider
    → a.gateway_url ≡ b.gateway_url
    → a.api_key ≡ b.api_key
    → a ≡ b
llm_equal-eq a b h provider gateway key =
    let (p1, h1) = and_true _ _ h in
    let (p2, h2) = and_true _ _ h1 in
    let (p3, h3) = and_true _ _ h2 in
    let (p4, h4) = and_true _ _ h3 in
    let (p5, p6) = and_true _ _ h4 in
    λ i. record {
      provider = provider i;
      gateway_url = gateway i;
      primary_model_url = same_text a.primary_model_url b.primary_model_url p1 i;
      fallback_model_url = same_text a.fallback_model_url b.fallback_model_url p2 i;
      embeddings_url = same_text a.embeddings_url b.embeddings_url p3 i;
      api_key = key i;
      per_pr_token_cap = same_int a.per_pr_token_cap b.per_pr_token_cap p4 i;
      chat_timeout_sec = same_int a.chat_timeout_sec b.chat_timeout_sec p5 i;
      embed_timeout_sec = same_int a.embed_timeout_sec b.embed_timeout_sec p6 i;
    }

pub config_equal-eq : (a b : Config) → config_equal a b ≡ true → base a ≡ base b → a ≡ b
unfolding config_equal
config_equal-eq a b h same =
    let (p1, h1) = and_true _ _ h in
    let (p2, h2) = and_true _ _ h1 in
    let (p3, h3) = and_true _ _ h2 in
    let (p4, h4) = and_true _ _ h3 in
    let (p5, p6) = and_true _ _ h4 in
    λ i. record {
      vcs = (same i).vcs;
      message_bus = (same i).message_bus;
      store = (same i).store;
      llm =
          llm_equal-eq a.llm b.llm p4 (ap (λ (x : Base). x.llm_provider) same)
            (ap (λ (x : Base). x.gateway_url) same) (ap (λ (x : Base). x.api_key) same) i;
      secrets = (same i).secrets;
      observability = observability_equal-eq a.observability b.observability p5 i;
      cost = record {
        daily_usd_cap_default =
            same_int a.cost.daily_usd_cap_default b.cost.daily_usd_cap_default p3 i;
      };
      rules = rules_equal-eq a.rules b.rules p1 i;
      gateway = (same i).gateway;
      tenant = tenant_equal-eq a.tenant b.tenant p2 i;
      admin = (same i).admin;
      context = (same i).context;
      retention = retention_equal-eq a.retention b.retention p6 i;
      rate_limit = (same i).rate_limit;
      conversation = (same i).conversation;
    }

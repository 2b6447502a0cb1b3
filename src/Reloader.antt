-- ===== src/Reloader.antt =====
-- The live snapshot of the configuration (internal/boot/reloader.go): at each tick the overlay is
-- laid over the bootstrap configuration again, and the snapshot is replaced if the compared fields
-- differ. Logging and the ticker are left out; an interval is in nanoseconds.
pub mod Equality
pub mod Snapshots
use codereviewer.Prelude.{
  Bool, true, false, ◌&&◌, ◌==◌, Option, none, some, List, Text, text_eq, if◌then◌else◌,
}
use codereviewer.Prelude.Int.{ℤ, pos, eqb_ℤ}
use codereviewer.Ports.{Result, ok, err}
use codereviewer.Schemas.Config.{
  Config, LlmConfig, RulesConfig, TenantConfig, ObservabilityConfig, RetentionConfig, positive_or,
}
use codereviewer.Overlay.{Setting, Surroundings, apply_overlay}

abbrev pub bool_equal : Bool → Bool → Bool
bool_equal true b = b
bool_equal false true = false
bool_equal false false = true

abbrev pub rules_equal : RulesConfig → RulesConfig → Bool
rules_equal a b = text_eq a.git_url b.git_url && text_eq a.branch b.branch

abbrev pub tenant_equal : TenantConfig → TenantConfig → Bool
tenant_equal a b = text_eq a.id b.id && text_eq a.name b.name

abbrev pub llm_equal : LlmConfig → LlmConfig → Bool
llm_equal a b =
    text_eq a.primary_model_url b.primary_model_url
    && (text_eq a.fallback_model_url b.fallback_model_url
        && (text_eq a.embeddings_url b.embeddings_url
            && (eqb_ℤ a.per_pr_token_cap b.per_pr_token_cap
                && (eqb_ℤ a.chat_timeout_sec b.chat_timeout_sec
                    && eqb_ℤ a.embed_timeout_sec b.embed_timeout_sec))))

abbrev pub observability_equal : ObservabilityConfig → ObservabilityConfig → Bool
observability_equal a b =
    text_eq a.sink b.sink
    && (text_eq a.otlp_endpoint b.otlp_endpoint && text_eq a.service_name b.service_name)

abbrev pub retention_equal : RetentionConfig → RetentionConfig → Bool
retention_equal a b =
    eqb_ℤ a.pr_runs_days b.pr_runs_days
    && (eqb_ℤ a.feedback_events_days b.feedback_events_days
        && (eqb_ℤ a.pr_context_items_days b.pr_context_items_days
            && (eqb_ℤ a.embedding_cache_max_rows b.embedding_cache_max_rows
                && (eqb_ℤ a.auto_export_max_files b.auto_export_max_files
                    && (eqb_ℤ a.janitor_interval_hours b.janitor_interval_hours
                        && bool_equal a.janitor_enabled b.janitor_enabled)))))

-- whether the fields that are compared agree
unfoldable pub config_equal : Config → Config → Bool
config_equal a b =
    rules_equal a.rules b.rules
    && (tenant_equal a.tenant b.tenant
        && (eqb_ℤ a.cost.daily_usd_cap_default b.cost.daily_usd_cap_default
            && (llm_equal a.llm b.llm
                && (observability_equal a.observability b.observability
                    && retention_equal a.retention b.retention))))

pub record Reloader : Type 0 where
  pub bootstrap : Config
  -- whether there is a settings store
  pub has_store : Bool
  pub current : Config
  pub interval : ℤ

-- what the store says, where there is one
abbrev pub seen : Bool → Result (List Setting) → Option (Result (List Setting))
seen true settings = some settings
seen false settings = none

module _ (around : Surroundings) where
  abbrev pub start_with : Config → Bool → ℤ → Result Config → Result Reloader
  start_with bootstrap has_store interval (err e) = err e
  start_with bootstrap has_store interval (ok cfg) = ok (record {
    bootstrap = bootstrap;
    has_store = has_store;
    current = cfg;
    interval = positive_or (pos 30_000_000_000) interval;
  })

  unfoldable pub new_reloader : Config → Bool → ℤ → Result (List Setting) → Result Reloader
  new_reloader bootstrap has_store interval settings =
      start_with bootstrap has_store interval
        (apply_overlay around bootstrap (seen has_store settings))

  unfoldable pub use_reloaded : Reloader → Result Config → Reloader
  use_reloaded r (err e) = r
  use_reloaded r (ok cfg) = if config_equal r.current cfg then r else record r { current = cfg }

  -- a tick, at which the store gives the settings or fails
  unfoldable pub poll : Reloader → Result (List Setting) → Reloader
  poll r settings = use_reloaded r (apply_overlay around r.bootstrap (seen r.has_store settings))

-- ===== src/Overlay/Blending.antt =====
-- What the overlay makes of settings that were exported from a configuration: it takes them from
-- there, whatever their order.
use codereviewer.Prelude.{
  ◌≡◌, refl, ap, ◌∙◌, Bool, true, false, ◌||◌, some, List, [], ◌∷◌, map, Text, codes, text_eq,
  any_of, Lacks, atoi, print_int,
}
use codereviewer.Ports.{ok}
use codereviewer.Schemas.Config.{Config}
use codereviewer.Overlay.{
  Case, rules_git_url, rules_branch, tenant_id, tenant_name, cost_daily_usd_cap_default,
  llm_primary_model_url, llm_fallback_model_url, llm_embeddings_url, llm_per_pr_token_cap,
  observability_sink, observability_otlp_endpoint, observability_service_name,
  retention_pr_runs_days, retention_feedback_events_days, retention_pr_context_items_days,
  retention_embedding_cache_max_rows, retention_auto_export_max_files, find_case, case_of,
  is_overlay_key, Setting, Surroundings, apply_case, apply_one, apply_setting, and_then, apply_all,
  read_case,
}
use codereviewer.Overlay.Expansion.{expand_env-plain}

abbrev pub label : Case → Text
label rules_git_url = codes "rules.git_url"
label rules_branch = codes "rules.branch"
label tenant_id = codes "tenant.id"
label tenant_name = codes "tenant.name"
label cost_daily_usd_cap_default = codes "cost.daily_usd_cap_default"
label llm_primary_model_url = codes "llm.primary_model_url"
label llm_fallback_model_url = codes "llm.fallback_model_url"
label llm_embeddings_url = codes "llm.embeddings_url"
label llm_per_pr_token_cap = codes "llm.per_pr_token_cap"
label observability_sink = codes "observability.sink"
label observability_otlp_endpoint = codes "observability.otlp_endpoint"
label observability_service_name = codes "observability.service_name"
label retention_pr_runs_days = codes "retention.pr_runs_days"
label retention_feedback_events_days = codes "retention.feedback_events_days"
label retention_pr_context_items_days = codes "retention.pr_context_items_days"
label retention_embedding_cache_max_rows = codes "retention.embedding_cache_max_rows"
label retention_auto_export_max_files = codes "retention.auto_export_max_files"

pub case_of-label : (k : Case) → case_of (label k) ≡ some k
unfolding case_of find_case text_eq
case_of-label rules_git_url = refl
case_of-label rules_branch = refl
case_of-label tenant_id = refl
case_of-label tenant_name = refl
case_of-label cost_daily_usd_cap_default = refl
case_of-label llm_primary_model_url = refl
case_of-label llm_fallback_model_url = refl
case_of-label llm_embeddings_url = refl
case_of-label llm_per_pr_token_cap = refl
case_of-label observability_sink = refl
case_of-label observability_otlp_endpoint = refl
case_of-label observability_service_name = refl
case_of-label retention_pr_runs_days = refl
case_of-label retention_feedback_events_days = refl
case_of-label retention_pr_context_items_days = refl
case_of-label retention_embedding_cache_max_rows = refl
case_of-label retention_auto_export_max_files = refl

pub label-is_key : (k : Case) → is_overlay_key (label k) ≡ true
unfolding is_overlay_key text_eq
label-is_key rules_git_url = refl
label-is_key rules_branch = refl
label-is_key tenant_id = refl
label-is_key tenant_name = refl
label-is_key cost_daily_usd_cap_default = refl
label-is_key llm_primary_model_url = refl
label-is_key llm_fallback_model_url = refl
label-is_key llm_embeddings_url = refl
label-is_key llm_per_pr_token_cap = refl
label-is_key observability_sink = refl
label-is_key observability_otlp_endpoint = refl
label-is_key observability_service_name = refl
label-is_key retention_pr_runs_days = refl
label-is_key retention_feedback_events_days = refl
label-is_key retention_pr_context_items_days = refl
label-is_key retention_embedding_cache_max_rows = refl
label-is_key retention_auto_export_max_files = refl

abbrev pub same_case : Case → Case → Bool
same_case rules_git_url rules_git_url = true
same_case rules_branch rules_branch = true
same_case tenant_id tenant_id = true
same_case tenant_name tenant_name = true
same_case cost_daily_usd_cap_default cost_daily_usd_cap_default = true
same_case llm_primary_model_url llm_primary_model_url = true
same_case llm_fallback_model_url llm_fallback_model_url = true
same_case llm_embeddings_url llm_embeddings_url = true
same_case llm_per_pr_token_cap llm_per_pr_token_cap = true
same_case observability_sink observability_sink = true
same_case observability_otlp_endpoint observability_otlp_endpoint = true
same_case observability_service_name observability_service_name = true
same_case retention_pr_runs_days retention_pr_runs_days = true
same_case retention_feedback_events_days retention_feedback_events_days = true
same_case retention_pr_context_items_days retention_pr_context_items_days = true
same_case retention_embedding_cache_max_rows retention_embedding_cache_max_rows = true
same_case retention_auto_export_max_files retention_auto_export_max_files = true
same_case _ _ = false

abbrev pub pick {ℓ} : {A : Type ℓ} → Bool → A → A → A
pick true a b = a
pick false a b = b

-- `c` with the settings that the test picks taken from `cfg`
abbrev pub blend : (Case → Bool) → Config → Config → Config
blend m cfg c = record c {
  rules = record {
    git_url = pick (m rules_git_url) cfg.rules.git_url c.rules.git_url;
    branch = pick (m rules_branch) cfg.rules.branch c.rules.branch;
  };
  tenant = record {
    id = pick (m tenant_id) cfg.tenant.id c.tenant.id;
    name = pick (m tenant_name) cfg.tenant.name c.tenant.name;
  };
  cost = record {
    daily_usd_cap_default =
        pick (m cost_daily_usd_cap_default) cfg.cost.daily_usd_cap_default
          c.cost.daily_usd_cap_default;
  };
  llm = record c.llm {
    primary_model_url =
        pick (m llm_primary_model_url) cfg.llm.primary_model_url c.llm.primary_model_url;
    fallback_model_url =
        pick (m llm_fallback_model_url) cfg.llm.fallback_model_url c.llm.fallback_model_url;
    embeddings_url = pick (m llm_embeddings_url) cfg.llm.embeddings_url c.llm.embeddings_url;
    per_pr_token_cap =
        pick (m llm_per_pr_token_cap) cfg.llm.per_pr_token_cap c.llm.per_pr_token_cap;
  };
  observability = record {
    sink = pick (m observability_sink) cfg.observability.sink c.observability.sink;
    otlp_endpoint =
        pick (m observability_otlp_endpoint) cfg.observability.otlp_endpoint
          c.observability.otlp_endpoint;
    service_name =
        pick (m observability_service_name) cfg.observability.service_name
          c.observability.service_name;
  };
  retention = record c.retention {
    pr_runs_days =
        pick (m retention_pr_runs_days) cfg.retention.pr_runs_days c.retention.pr_runs_days;
    feedback_events_days =
        pick (m retention_feedback_events_days) cfg.retention.feedback_events_days
          c.retention.feedback_events_days;
    pr_context_items_days =
        pick (m retention_pr_context_items_days) cfg.retention.pr_context_items_days
          c.retention.pr_context_items_days;
    embedding_cache_max_rows =
        pick (m retention_embedding_cache_max_rows) cfg.retention.embedding_cache_max_rows
          c.retention.embedding_cache_max_rows;
    auto_export_max_files =
        pick (m retention_auto_export_max_files) cfg.retention.auto_export_max_files
          c.retention.auto_export_max_files;
  };
}

module _ (around : Surroundings) where
  -- the value of the setting is read back as it was
  abbrev pub ReadsBack : Config → Case → Type 0
  ReadsBack cfg cost_daily_usd_cap_default =
      around.parse_usd (around.format_usd cfg.cost.daily_usd_cap_default)
      ≡ some cfg.cost.daily_usd_cap_default
  ReadsBack cfg llm_per_pr_token_cap =
      atoi (print_int cfg.llm.per_pr_token_cap) ≡ some cfg.llm.per_pr_token_cap
  ReadsBack cfg retention_pr_runs_days =
      atoi (print_int cfg.retention.pr_runs_days) ≡ some cfg.retention.pr_runs_days
  ReadsBack cfg retention_feedback_events_days =
      atoi (print_int cfg.retention.feedback_events_days) ≡ some cfg.retention.feedback_events_days
  ReadsBack cfg retention_pr_context_items_days =
      atoi (print_int cfg.retention.pr_context_items_days)
      ≡ some cfg.retention.pr_context_items_days
  ReadsBack cfg retention_embedding_cache_max_rows =
      atoi (print_int cfg.retention.embedding_cache_max_rows)
      ≡ some cfg.retention.embedding_cache_max_rows
  ReadsBack cfg retention_auto_export_max_files =
      atoi (print_int cfg.retention.auto_export_max_files)
      ≡ some cfg.retention.auto_export_max_files
  ReadsBack cfg _ = Unit

  -- one setting more is taken from `cfg`
  abbrev pub more : Case → (Case → Bool) → Case → Bool
  more k m j = same_case j k || m j

  apply_case-blend :
      (cfg c : Config) (m : Case → Bool) (k : Case)
      → ReadsBack cfg k
      → apply_case around (blend m cfg c) (read_case around cfg (some k)) (some k)
        ≡ ok (blend (more k m) cfg c)
  unfolding apply_case read_case
  apply_case-blend cfg c m rules_git_url h = refl
  apply_case-blend cfg c m rules_branch h = refl
  apply_case-blend cfg c m tenant_id h = refl
  apply_case-blend cfg c m tenant_name h = refl
  apply_case-blend cfg c m cost_daily_usd_cap_default h = rw h refl
  apply_case-blend cfg c m llm_primary_model_url h = refl
  apply_case-blend cfg c m llm_fallback_model_url h = refl
  apply_case-blend cfg c m llm_embeddings_url h = refl
  apply_case-blend cfg c m llm_per_pr_token_cap h = rw h refl
  apply_case-blend cfg c m observability_sink h = refl
  apply_case-blend cfg c m observability_otlp_endpoint h = refl
  apply_case-blend cfg c m observability_service_name h = refl
  apply_case-blend cfg c m retention_pr_runs_days h = rw h refl
  apply_case-blend cfg c m retention_feedback_events_days h = rw h refl
  apply_case-blend cfg c m retention_pr_context_items_days h = rw h refl
  apply_case-blend cfg c m retention_embedding_cache_max_rows h = rw h refl
  apply_case-blend cfg c m retention_auto_export_max_files h = rw h refl

  -- The setting survives its export: it holds no "$", and a number is read back.
  abbrev pub IsPortable : Config → Case → Type 0
  IsPortable cfg k = ReadsBack cfg k × Lacks b'$' (read_case around cfg (some k))

  abbrev pub exported : Config → Case → Setting
  exported cfg k = record { key = label k; value = read_case around cfg (some k) }

  apply_setting-blend :
      (cfg c : Config) (m : Case → Bool) (k : Case)
      → IsPortable cfg k
      → apply_setting around (blend m cfg c) (exported cfg k) ≡ ok (blend (more k m) cfg c)
  unfolding apply_setting apply_one
  apply_setting-blend cfg c m k (reads, plain) =
      rw (label-is_key k, case_of-label k, expand_env-plain around.getenv _ plain)
        (apply_case-blend cfg c m k reads)

  abbrev pub mask : (Case → Bool) → List Case → Case → Bool
  mask m [] = m
  mask m (k ∷ ks) = mask (more k m) ks

  pub apply_all-blend :
      (cfg c : Config) (m : Case → Bool) (ks : List Case)
      → ((k : Case) → IsPortable cfg k)
      → apply_all around (blend m cfg c) (map (exported cfg) ks) ≡ ok (blend (mask m ks) cfg c)
  unfolding apply_all
  apply_all-blend cfg c m [] h = refl
  apply_all-blend cfg c m (k ∷ ks) h =
      ap (λ r. and_then around r (λ d. apply_all around d (map (exported cfg) ks)))
        (apply_setting-blend cfg c m k (h k))
      ∙ apply_all-blend cfg c (more k m) ks h

  pub mask_lem :
      (m : Case → Bool) (ks : List Case) (j : Case) → mask m ks j ≡ (any_of (same_case j) ks || m j)
  mask_lem m [] j = refl
  mask_lem m (k ∷ ks) j =
      mask_lem (more k m) ks j ∙ regroup (same_case j k) (any_of (same_case j) ks) (m j)
    where
      regroup : (a b d : Bool) → (b || (a || d)) ≡ ((a || b) || d)
      regroup true true d = refl
      regroup true false d = refl
      regroup false true d = refl
      regroup false false d = refl

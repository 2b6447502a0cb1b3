-- ===== src/Examples/Config.antt =====
-- The configuration, its overlay and its reloader on concrete inputs.
use codereviewer.Prelude.{
  ◌≡◌, refl, true, false, some, List, [], ◌∷◌, codes, atoi, print_int, is_empty, text_eq, arith,
}
use codereviewer.Prelude.Int.{pos}
use codereviewer.Ports.{ok, err}
use codereviewer.Schemas.Config.{
  Config, active_providers, validate_one_of, validate_providers, check_providers, check_bus,
  check_store, check_llm, check_secrets, check_sink, check_choices, fill_llm, fill_conversation,
  fill_tenant, fill_admin, fill_context, fill_retention, fill_rate_limit, fill_defaults, validate,
}
use codereviewer.Schemas.Choices.{HasChoices}
use codereviewer.Schemas.Defaults.{IsComplete, validate_lem}
use codereviewer.Walks.{walk}
use codereviewer.Overlay.{
  rules_git_url, rules_branch, tenant_id, tenant_name, cost_daily_usd_cap_default,
  llm_primary_model_url, llm_fallback_model_url, llm_embeddings_url, llm_per_pr_token_cap,
  observability_sink, observability_otlp_endpoint, observability_service_name,
  retention_pr_runs_days, retention_feedback_events_days, retention_pr_context_items_days,
  retention_embedding_cache_max_rows, retention_auto_export_max_files, read_case, Setting,
  Surroundings, Case, apply_overlay,
}
use codereviewer.Overlay.Snapshots.{import_config}
use codereviewer.Overlay.Blending.{IsPortable}
use codereviewer.Overlay.RoundTrip.{accepts, restored, walked, export_config-restores}
use codereviewer.Reloader.{Reloader, new_reloader, poll, seen}
use codereviewer.Reloader.Snapshots.{
  Reach, here, tick, Follows, IsLatest, Reach-IsSnapshot, poll-Follows,
}

-- a complete configuration
abbrev complete : Config
complete = record {
  vcs = record {
    provider = codes "github";
    providers = [];
    github = record {
      app_id = [];
      installation_id = [];
      private_key = [];
      private_key_path = [];
      webhook_secret = [];
    };
    bitbucket = record {
      client_id = [];
      client_secret = [];
      workspace = [];
      base_url = [];
      webhook_secret = [];
    };
  };
  message_bus = record {
    type = codes "memory";
    review_queue_url = [];
    index_queue_url = [];
    feedback_queue_url = [];
    backfill_queue_url = [];
  };
  store = record { type = codes "memory"; postgres_url = [] };
  llm = record {
    provider = codes "fake";
    gateway_url = [];
    primary_model_url = codes "m1";
    fallback_model_url = [];
    embeddings_url = [];
    api_key = [];
    per_pr_token_cap = pos 12;
    chat_timeout_sec = pos 1;
    embed_timeout_sec = pos 1;
  };
  secrets = record { provider = codes "env" };
  observability = record { sink = codes "stdout"; otlp_endpoint = []; service_name = [] };
  cost = record { daily_usd_cap_default = pos 7 };
  rules = record { git_url = codes "r"; branch = [] };
  gateway = record { listen_addr = codes ":1" };
  tenant = record { id = codes "acme"; name = codes "Acme" };
  admin = record {
    listen_addr = codes ":2";
    password = [];
    session_secret = [];
    session_minutes = pos 1;
    export_dir = [];
    auto_export_enabled = false;
    auto_export_hours = pos 1;
    github_oauth = record {
      client_id = [];
      client_secret = [];
      callback_url = [];
      allowed_orgs = [];
    };
  };
  context = record {
    jira = record { base_url = []; email = []; api_token = [] };
    github_issues = record { enabled = false };
    linear = record { api_key = []; team_prefixes = [] };
    allowed_url_hosts = [];
    url_fetch_max_bytes = pos 1;
    max_items_per_pr = pos 1;
  };
  retention = record {
    pr_runs_days = pos 2;
    feedback_events_days = pos 3;
    pr_context_items_days = pos 4;
    embedding_cache_max_rows = pos 5;
    auto_export_max_files = pos 6;
    janitor_interval_hours = pos 1;
    janitor_enabled = true;
  };
  rate_limit = record {
    login_attempts = pos 1;
    login_window_minutes = pos 1;
    webhook_per_second = pos 1;
    webhook_max_body_bytes = pos 1;
  };
  conversation = record {
    enabled = false;
    max_replies_per_pr = pos 1;
    trigger_suffixes = codes "?" ∷ [];
    trigger_prefixes = codes "/explain" ∷ [];
    max_output_tokens = pos 1;
  };
}

abbrev other : Config
other = record complete {
  tenant = record { id = codes "beta"; name = codes "Beta" };
  llm = record complete.llm { per_pr_token_cap = pos 99 };
}

abbrev shell : Surroundings
shell = record {
  getenv = λ name. codes "v";
  parse_usd = atoi;
  format_usd = print_int;
  five_usd = pos 5;
}

complete-valid : validate shell.five_usd complete ≡ ok complete
unfolding active_providers validate_one_of validate_providers check_providers check_bus check_store
    check_llm check_secrets check_sink check_choices fill_llm fill_conversation fill_tenant
    fill_admin fill_context fill_retention fill_rate_limit fill_defaults validate text_eq is_empty
complete-valid = refl

other-valid : validate shell.five_usd other ≡ ok other
unfolding active_providers validate_one_of validate_providers check_providers check_bus check_store
    check_llm check_secrets check_sink check_choices fill_llm fill_conversation fill_tenant
    fill_admin fill_context fill_retention fill_rate_limit fill_defaults validate text_eq is_empty
other-valid = refl

validate_lem_example :
    IsComplete complete × HasChoices complete × (validate (pos 5) complete ≡ ok complete)
validate_lem_example = validate_lem (pos 5) complete complete (omega arith) complete-valid

complete-IsPortable : (k : Case) → IsPortable shell complete k
unfolding read_case atoi print_int
complete-IsPortable rules_git_url = (tt, (omega arith, tt))
complete-IsPortable rules_branch = (tt, tt)
complete-IsPortable tenant_id = (tt, (omega arith, (omega arith, (omega arith, (omega arith, tt)))))
complete-IsPortable tenant_name =
    (tt, (omega arith, (omega arith, (omega arith, (omega arith, tt)))))
complete-IsPortable cost_daily_usd_cap_default = (refl, (omega arith, tt))
complete-IsPortable llm_primary_model_url = (tt, (omega arith, (omega arith, tt)))
complete-IsPortable llm_fallback_model_url = (tt, tt)
complete-IsPortable llm_embeddings_url = (tt, tt)
complete-IsPortable llm_per_pr_token_cap = (refl, (omega arith, (omega arith, tt)))
complete-IsPortable observability_sink = (
  tt,
  (omega arith, (omega arith, (omega arith, (omega arith, (omega arith, (omega arith, tt)))))),
)
complete-IsPortable observability_otlp_endpoint = (tt, tt)
complete-IsPortable observability_service_name = (tt, tt)
complete-IsPortable retention_pr_runs_days = (refl, (omega arith, tt))
complete-IsPortable retention_feedback_events_days = (refl, (omega arith, tt))
complete-IsPortable retention_pr_context_items_days = (refl, (omega arith, tt))
complete-IsPortable retention_embedding_cache_max_rows = (refl, (omega arith, tt))
complete-IsPortable retention_auto_export_max_files = (refl, (omega arith, tt))

export_config-restores_example :
    ((import_config accepts (walked shell complete 3 (2 ∷ 1 ∷ []))).0 ≡ ok tt)
    × (apply_overlay shell other (
          some
            (ok (walk (1 ∷ []) (import_config accepts (walked shell complete 3 (2 ∷ 1 ∷ []))).1)))
        ≡ ok (restored complete other))
export_config-restores_example =
    export_config-restores shell (omega arith) complete other complete-valid other-valid 3
      (2 ∷ 1 ∷ []) (1 ∷ []) complete-IsPortable

-- a reloader whose store sets a tenant's name and then fails
abbrev tenant_setting : List Setting
tenant_setting = record { key = codes "tenant.name"; value = codes "Beta" } ∷ []

abbrev started : Reloader
started = record { bootstrap = complete; has_store = false; current = complete; interval = pos 9 }

started_made : new_reloader shell complete false (pos 9) (ok tenant_setting) ≡ ok started
unfolding new_reloader apply_overlay
started_made = refl

-- one tick, at which the store fails
one_tick : Reach shell started (err (codes "down") ∷ []) (poll shell started (err (codes "down")))
one_tick = tick here (err (codes "down"))

Reach-IsSnapshot_example :
    IsLatest shell complete false
      (err (codes "down") ∷ ok tenant_setting ∷ [])
      (poll shell started (err (codes "down"))).current
Reach-IsSnapshot_example =
    Reach-IsSnapshot shell complete false (pos 9) (ok tenant_setting) started_made one_tick

poll-Follows_example :
    Follows started
      (apply_overlay shell complete (seen false (ok tenant_setting)))
      (poll shell started (ok tenant_setting))
poll-Follows_example =
    poll-Follows shell complete false (pos 9) (ok tenant_setting) started_made here
      (ok tenant_setting)

-- ===== src/Schemas/Config/Blocks.antt =====
-- The blocks of the configuration (internal/schemas/config.go).
use codereviewer.Prelude.{Bool, List, [], ◌∷◌, Text, is_empty, nonempty, if◌then◌else◌}
use codereviewer.Prelude.Int.{ℤ}
use codereviewer.Ports.{Usd, ConversationConfig}

pub record RetentionConfig : Type 0 where
  pub pr_runs_days : ℤ
  pub feedback_events_days : ℤ
  pub pr_context_items_days : ℤ
  pub embedding_cache_max_rows : ℤ
  pub auto_export_max_files : ℤ
  pub janitor_interval_hours : ℤ
  pub janitor_enabled : Bool

pub record RateLimitConfig : Type 0 where
  pub login_attempts : ℤ
  pub login_window_minutes : ℤ
  pub webhook_per_second : ℤ
  pub webhook_max_body_bytes : ℤ

pub record AdminGithubOauthConfig : Type 0 where
  pub client_id : Text
  pub client_secret : Text
  pub callback_url : Text
  pub allowed_orgs : List Text

pub record AdminConfig : Type 0 where
  pub listen_addr : Text
  pub password : Text
  pub session_secret : Text
  pub session_minutes : ℤ
  pub export_dir : Text
  pub auto_export_enabled : Bool
  pub auto_export_hours : ℤ
  pub github_oauth : AdminGithubOauthConfig

pub record GatewayConfig : Type 0 where
  pub listen_addr : Text

pub record TenantConfig : Type 0 where
  pub id : Text
  pub name : Text

pub record GithubVcsConfig : Type 0 where
  pub app_id : Text
  pub installation_id : Text
  pub private_key : Text
  pub private_key_path : Text
  pub webhook_secret : Text

pub record BitbucketVcsConfig : Type 0 where
  pub client_id : Text
  pub client_secret : Text
  pub workspace : Text
  pub base_url : Text
  pub webhook_secret : Text

pub record VcsConfig : Type 0 where
  pub provider : Text
  pub providers : List Text
  pub github : GithubVcsConfig
  pub bitbucket : BitbucketVcsConfig

-- the adapters to construct: the list, or else the single provider
unfoldable pub active_providers : VcsConfig → List Text
active_providers v =
    if nonempty v.providers
    then v.providers
    else if is_empty v.provider
    then []
    else v.provider ∷ []

pub record MessageBusConfig : Type 0 where
  pub type : Text
  pub review_queue_url : Text
  pub index_queue_url : Text
  pub feedback_queue_url : Text
  pub backfill_queue_url : Text

pub record StoreConfig : Type 0 where
  pub type : Text
  pub postgres_url : Text

pub record LlmConfig : Type 0 where
  pub provider : Text
  pub gateway_url : Text
  pub primary_model_url : Text
  pub fallback_model_url : Text
  pub embeddings_url : Text
  pub api_key : Text
  pub per_pr_token_cap : ℤ
  pub chat_timeout_sec : ℤ
  pub embed_timeout_sec : ℤ

pub record SecretsConfig : Type 0 where
  pub provider : Text

pub record ObservabilityConfig : Type 0 where
  pub sink : Text
  pub otlp_endpoint : Text
  pub service_name : Text

pub record CostConfig : Type 0 where
  pub daily_usd_cap_default : Usd

pub record RulesConfig : Type 0 where
  pub git_url : Text
  pub branch : Text

pub record JiraConfig : Type 0 where
  pub base_url : Text
  pub email : Text
  pub api_token : Text

pub record GithubIssuesConfig : Type 0 where
  pub enabled : Bool

pub record LinearConfig : Type 0 where
  pub api_key : Text
  pub team_prefixes : List Text

pub record ContextConfig : Type 0 where
  pub jira : JiraConfig
  pub github_issues : GithubIssuesConfig
  pub linear : LinearConfig
  pub allowed_url_hosts : List Text
  pub url_fetch_max_bytes : ℤ
  pub max_items_per_pr : ℤ

pub record Config : Type 0 where
  pub vcs : VcsConfig
  pub message_bus : MessageBusConfig
  pub store : StoreConfig
  pub llm : LlmConfig
  pub secrets : SecretsConfig
  pub observability : ObservabilityConfig
  pub cost : CostConfig
  pub rules : RulesConfig
  pub gateway : GatewayConfig
  pub tenant : TenantConfig
  pub admin : AdminConfig
  pub context : ContextConfig
  pub retention : RetentionConfig
  pub rate_limit : RateLimitConfig
  pub conversation : ConversationConfig

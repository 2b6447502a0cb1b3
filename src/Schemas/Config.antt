-- ===== src/Schemas/Config.antt =====
-- The configuration (internal/schemas/config.go): its blocks, the check of the choices it makes, and
-- the defaults of what it leaves open.
mod Blocks
unfoldable pub use Blocks.*
use codereviewer.Prelude.{
  Bool, Option, none, some, List, [], ◌∷◌, ◌++◌, Text, codes, text_eq, is_empty, any_of, nonempty,
  if◌then◌else◌,
}
use codereviewer.Prelude.Int.{ℤ, pos, leb_ℤ, eqb_ℤ}
use codereviewer.Ports.{Usd, Result, ok, err, ConversationConfig}

-- `none` if the value is allowed; the error's text leaves out the value and the list
unfoldable pub validate_one_of : Text → Text → List Text → Option Text
validate_one_of field value allowed =
    if any_of (text_eq value) allowed
    then none
    else some (codes "config: " ++ (field ++ codes " is not one of the allowed values"))

-- the first error, if any
abbrev pub or_else : Option Text → Option Text → Option Text
or_else none later = later
or_else (some e) later = some e

abbrev pub known_providers : List Text
known_providers = codes "github" ∷ codes "bitbucket" ∷ codes "memory" ∷ []

unfoldable pub validate_providers : List Text → Option Text
validate_providers [] = none
validate_providers (p ∷ ps) =
    or_else (validate_one_of (codes "vcs.providers[]") p known_providers) (validate_providers ps)

unfoldable pub check_providers : List Text → Option Text
check_providers [] = some (codes "config: vcs.provider or vcs.providers must be set")
check_providers (p ∷ ps) = validate_providers (p ∷ ps)

unfoldable pub check_bus : MessageBusConfig → Option Text
check_bus b =
    validate_one_of (codes "message_bus.type") b.type
      (codes "sqs" ∷ codes "nats" ∷ codes "memory" ∷ [])

unfoldable pub check_store : StoreConfig → Option Text
check_store s = validate_one_of (codes "store.type") s.type (codes "postgres" ∷ codes "memory" ∷ [])

unfoldable pub check_llm : LlmConfig → Option Text
check_llm l =
    validate_one_of (codes "llm.provider") l.provider (codes "litellm" ∷ codes "fake" ∷ [])

unfoldable pub check_secrets : SecretsConfig → Option Text
check_secrets s =
    validate_one_of (codes "secrets.provider") s.provider
      (codes "env" ∷ codes "aws" ∷ codes "vault" ∷ [])

unfoldable pub check_sink : ObservabilityConfig → Option Text
check_sink o =
    validate_one_of (codes "observability.sink") o.sink (codes "stdout" ∷ codes "otel" ∷ [])

-- what the checks of the choices find first
unfoldable pub check_choices : Config → Option Text
check_choices c = or_else (check_providers (active_providers c.vcs)) (
    or_else (check_bus c.message_bus) (
      or_else (check_store c.store) (
        or_else (check_llm c.llm)
          (or_else (check_secrets c.secrets) (check_sink c.observability)))))

-- a number that is not positive gives way to the default
abbrev pub positive_or : ℤ → ℤ → ℤ
positive_or default n = if leb_ℤ n (pos 0) then default else n

abbrev pub nonzero_or : ℤ → ℤ → ℤ
nonzero_or default n = if eqb_ℤ n (pos 0) then default else n

abbrev pub text_or : Text → Text → Text
text_or default s = if is_empty s then default else s

abbrev pub list_or : List Text → List Text → List Text
list_or default l = if nonempty l then l else default

unfoldable pub fill_llm : LlmConfig → LlmConfig
fill_llm l = record l {
  per_pr_token_cap = positive_or (pos 30000) l.per_pr_token_cap;
  chat_timeout_sec = positive_or (pos 90) l.chat_timeout_sec;
  embed_timeout_sec = positive_or (pos 60) l.embed_timeout_sec;
}

unfoldable pub fill_conversation : ConversationConfig → ConversationConfig
fill_conversation c = record c {
  max_replies_per_pr = positive_or (pos 2) c.max_replies_per_pr;
  trigger_suffixes = list_or (codes "?" ∷ []) c.trigger_suffixes;
  trigger_prefixes = list_or (codes "/explain" ∷ []) c.trigger_prefixes;
  max_output_tokens = positive_or (pos 300) c.max_output_tokens;
}

unfoldable pub fill_tenant : TenantConfig → TenantConfig
fill_tenant t = record {
  id = text_or (codes "default-tenant") t.id;
  name = text_or (codes "default") t.name;
}

unfoldable pub fill_admin : AdminConfig → AdminConfig
fill_admin a = record a {
  listen_addr = text_or (codes ":8090") a.listen_addr;
  session_minutes = positive_or (pos 60) a.session_minutes;
  auto_export_hours = positive_or (pos 24) a.auto_export_hours;
}

unfoldable pub fill_context : ContextConfig → ContextConfig
fill_context c = record c {
  url_fetch_max_bytes = positive_or (pos 1_048_576) c.url_fetch_max_bytes;
  max_items_per_pr = positive_or (pos 10) c.max_items_per_pr;
}

-- a negative number of days means never
unfoldable pub fill_retention : RetentionConfig → RetentionConfig
fill_retention r = record r {
  pr_runs_days = nonzero_or (pos 365) r.pr_runs_days;
  feedback_events_days = nonzero_or (pos 730) r.feedback_events_days;
  pr_context_items_days = nonzero_or (pos 90) r.pr_context_items_days;
  embedding_cache_max_rows = nonzero_or (pos 100_000) r.embedding_cache_max_rows;
  auto_export_max_files = nonzero_or (pos 30) r.auto_export_max_files;
  janitor_interval_hours = positive_or (pos 6) r.janitor_interval_hours;
}

unfoldable pub fill_rate_limit : RateLimitConfig → RateLimitConfig
fill_rate_limit r = record {
  login_attempts = positive_or (pos 5) r.login_attempts;
  login_window_minutes = positive_or (pos 15) r.login_window_minutes;
  webhook_per_second = positive_or (pos 100) r.webhook_per_second;
  webhook_max_body_bytes = positive_or (pos 1_048_576) r.webhook_max_body_bytes;
}

-- five dollars, in the unit of amounts
module _ (five_usd : Usd) where
  unfoldable pub fill_defaults : Config → Config
  fill_defaults c = record c {
    llm = fill_llm c.llm;
    conversation = fill_conversation c.conversation;
    cost = record { daily_usd_cap_default = positive_or five_usd c.cost.daily_usd_cap_default };
    gateway = record { listen_addr = text_or (codes ":8080") c.gateway.listen_addr };
    tenant = fill_tenant c.tenant;
    admin = fill_admin c.admin;
    context = fill_context c.context;
    retention = fill_retention c.retention;
    rate_limit = fill_rate_limit c.rate_limit;
  }

  abbrev pub filled_or : Config → Option Text → Result Config
  filled_or c none = ok (fill_defaults c)
  filled_or c (some e) = err e

  -- the configuration with its defaults, or what is wrong with it
  unfoldable pub validate : Config → Result Config
  validate c = filled_or c (check_choices c)

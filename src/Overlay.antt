-- ===== src/Overlay.antt =====
-- The settings that the admin interface may change at run time, laid over the configuration from the
-- file (internal/config/overlay.go, ExpandEnv of internal/config/load.go), and their export and
-- import (ExportConfig and ImportConfig of internal/admin/export_import.go). An amount of dollars is
-- read and printed by strconv, which are parameters here, since a float is.
pub mod Expansion
pub mod Untouched
pub mod Snapshots
pub mod Blending
pub mod RoundTrip
use codereviewer.Prelude.{
  ℕ, Bool, true, false, ◌&&◌, ◌||◌, Option, none, some, List, [], ◌∷◌, ◌++◌, Text, codes, text_eq,
  nonempty, any_of, is_digit, leb, ◌==◌, atoi, print_int, if◌then◌else◌,
}
use codereviewer.Prelude.Int.{ℤ}
use codereviewer.Ports.{Usd, Result, ok, err, wrap}
use codereviewer.Schemas.Config.{Config, validate}

abbrev is_letter : ℕ → Bool
is_letter c = leb b'a' c && leb c b'z' || (leb b'A' c && leb c b'Z' || c == b'_')

-- whether `c` goes on a variable's name of which `name` is read
abbrev pub is_name_char : Text → ℕ → Bool
is_name_char name c = is_letter c || nonempty name && is_digit c

-- where the scan for references to variables stands: outside, behind "$", in the name behind "${"
pub data Place : Type 0 where
  outside dollar : Place
  inside : Text → Place

-- each ${NAME} replaced by the variable's value; what is none is copied
unfoldable pub expand_from : (Text → Text) → Place → Text → Text
expand_from getenv outside [] = []
expand_from getenv outside (c ∷ s) =
    let next = expand_from getenv dollar s in
    let copied = c ∷ expand_from getenv outside s in if c == b'$' then next else copied
expand_from getenv dollar [] = b'$' ∷ []
expand_from getenv dollar (c ∷ s) =
    let opened = expand_from getenv (inside []) s in
    let again = b'$' ∷ expand_from getenv dollar s in
    let copied = b'$' ∷ c ∷ expand_from getenv outside s in
    if c == b'{' then opened else if c == b'$' then again else copied
expand_from getenv (inside name) [] = b'$' ∷ b'{' ∷ name
expand_from getenv (inside name) (c ∷ s) =
    let closed = getenv name ++ expand_from getenv outside s in
    let longer = expand_from getenv (inside (name ++ c ∷ [])) s in
    let again = b'$' ∷ b'{' ∷ name ++ expand_from getenv dollar s in
    let copied = b'$' ∷ b'{' ∷ name ++ c ∷ expand_from getenv outside s in
    if c == b'}' && nonempty name
    then closed
    else if is_name_char name c
    then longer
    else if c == b'$'
    then again
    else copied

unfoldable pub expand_env : (Text → Text) → Text → Text
unfolding expand_from
expand_env getenv s = expand_from getenv outside s

-- the cases of the switch over keys
pub data Case : Type 0 where
  rules_git_url rules_branch tenant_id tenant_name cost_daily_usd_cap_default : Case
  llm_primary_model_url llm_fallback_model_url llm_embeddings_url llm_per_pr_token_cap : Case
  observability_sink observability_otlp_endpoint observability_service_name : Case
  retention_pr_runs_days retention_feedback_events_days retention_pr_context_items_days : Case
  retention_embedding_cache_max_rows retention_auto_export_max_files : Case

abbrev pub case_labels : List (Text × Case)
case_labels =
    (codes "rules.git_url", rules_git_url)
    ∷ (codes "rules.branch", rules_branch)
    ∷ (codes "tenant.id", tenant_id)
    ∷ (codes "tenant.name", tenant_name)
    ∷ (codes "cost.daily_usd_cap_default", cost_daily_usd_cap_default)
    ∷ (codes "llm.primary_model_url", llm_primary_model_url)
    ∷ (codes "llm.fallback_model_url", llm_fallback_model_url)
    ∷ (codes "llm.embeddings_url", llm_embeddings_url)
    ∷ (codes "llm.per_pr_token_cap", llm_per_pr_token_cap)
    ∷ (codes "observability.sink", observability_sink)
    ∷ (codes "observability.otlp_endpoint", observability_otlp_endpoint)
    ∷ (codes "observability.service_name", observability_service_name)
    ∷ (codes "retention.pr_runs_days", retention_pr_runs_days)
    ∷ (codes "retention.feedback_events_days", retention_feedback_events_days)
    ∷ (codes "retention.pr_context_items_days", retention_pr_context_items_days)
    ∷ (codes "retention.embedding_cache_max_rows", retention_embedding_cache_max_rows)
    ∷ (codes "retention.auto_export_max_files", retention_auto_export_max_files)
    ∷ []

unfoldable pub find_case : List (Text × Case) → Text → Option Case
find_case [] key = none
find_case ((label, c) ∷ rest) key = if text_eq key label then some c else find_case rest key

unfoldable pub case_of : Text → Option Case
case_of key = find_case case_labels key

abbrev pub overlay_keys : List Text
overlay_keys =
    codes "rules.git_url"
    ∷ codes "rules.branch"
    ∷ codes "tenant.id"
    ∷ codes "tenant.name"
    ∷ codes "cost.daily_usd_cap_default"
    ∷ codes "llm.primary_model_url"
    ∷ codes "llm.fallback_model_url"
    ∷ codes "llm.embeddings_url"
    ∷ codes "llm.per_pr_token_cap"
    ∷ codes "observability.sink"
    ∷ codes "observability.otlp_endpoint"
    ∷ codes "observability.service_name"
    ∷ codes "retention.pr_runs_days"
    ∷ codes "retention.feedback_events_days"
    ∷ codes "retention.pr_context_items_days"
    ∷ codes "retention.embedding_cache_max_rows"
    ∷ codes "retention.auto_export_max_files"
    ∷ []

unfoldable pub is_overlay_key : Text → Bool
is_overlay_key key = any_of (text_eq key) overlay_keys

abbrev pub restart_required_keys : List Text
restart_required_keys =
    codes "rules.git_url"
    ∷ codes "rules.branch"
    ∷ codes "tenant.id"
    ∷ codes "tenant.name"
    ∷ codes "observability.sink"
    ∷ codes "observability.otlp_endpoint"
    ∷ codes "observability.service_name"
    ∷ []

unfoldable pub is_restart_required : Text → Bool
is_restart_required key = any_of (text_eq key) restart_required_keys

pub record Setting : Type 0 where
  pub key : Text
  pub value : Text

abbrev pub set_int : (ℤ → Config) → Option ℤ → Result Config
set_int write none = err (codes "not an int")
set_int write (some n) = ok (write n)

-- what the overlay uses of the program's surroundings
pub record Surroundings : Type 0 where
  pub getenv : Text → Text
  -- strconv.ParseFloat and FormatFloat, on amounts
  pub parse_usd : Text → Option Usd
  pub format_usd : Usd → Text
  pub five_usd : Usd

module _ (around : Surroundings) where
  abbrev pub set_usd : (Usd → Config) → Option Usd → Result Config
  set_usd write none = err (codes "not a number")
  set_usd write (some usd) = ok (write usd)

  unfoldable pub apply_case : Config → Text → Option Case → Result Config
  apply_case c v none = err (codes "unhandled overlay key")
  apply_case c v (some rules_git_url) = ok (record c { rules = record c.rules { git_url = v } })
  apply_case c v (some rules_branch) = ok (record c { rules = record c.rules { branch = v } })
  apply_case c v (some tenant_id) = ok (record c { tenant = record c.tenant { id = v } })
  apply_case c v (some tenant_name) = ok (record c { tenant = record c.tenant { name = v } })
  apply_case c v (some cost_daily_usd_cap_default) =
      set_usd (λ usd. record c { cost = record { daily_usd_cap_default = usd } })
        (around.parse_usd v)
  apply_case c v (some llm_primary_model_url) =
      ok (record c { llm = record c.llm { primary_model_url = v } })
  apply_case c v (some llm_fallback_model_url) =
      ok (record c { llm = record c.llm { fallback_model_url = v } })
  apply_case c v (some llm_embeddings_url) =
      ok (record c { llm = record c.llm { embeddings_url = v } })
  apply_case c v (some llm_per_pr_token_cap) =
      set_int (λ n. record c { llm = record c.llm { per_pr_token_cap = n } }) (atoi v)
  apply_case c v (some observability_sink) =
      ok (record c { observability = record c.observability { sink = v } })
  apply_case c v (some observability_otlp_endpoint) =
      ok (record c { observability = record c.observability { otlp_endpoint = v } })
  apply_case c v (some observability_service_name) =
      ok (record c { observability = record c.observability { service_name = v } })
  apply_case c v (some retention_pr_runs_days) =
      set_int (λ n. record c { retention = record c.retention { pr_runs_days = n } }) (atoi v)
  apply_case c v (some retention_feedback_events_days) =
      set_int (λ n. record c { retention = record c.retention { feedback_events_days = n } })
        (atoi v)
  apply_case c v (some retention_pr_context_items_days) =
      set_int (λ n. record c { retention = record c.retention { pr_context_items_days = n } })
        (atoi v)
  apply_case c v (some retention_embedding_cache_max_rows) =
      set_int (λ n. record c { retention = record c.retention { embedding_cache_max_rows = n } })
        (atoi v)
  apply_case c v (some retention_auto_export_max_files) =
      set_int (λ n. record c { retention = record c.retention { auto_export_max_files = n } })
        (atoi v)

  unfoldable pub apply_one : Config → Text → Text → Result Config
  apply_one c key v = apply_case c v (case_of key)

  unfoldable pub apply_setting : Config → Setting → Result Config
  apply_setting c s =
      if is_overlay_key s.key then apply_one c s.key (expand_env around.getenv s.value) else ok c

  -- the key and the quoted value in the error's text are left out
  abbrev pub and_then : Result Config → (Config → Result Config) → Result Config
  and_then (err e) later = err (wrap (codes "apply overlay") e)
  and_then (ok c) later = later c

  unfoldable pub apply_all : Config → List Setting → Result Config
  apply_all c [] = ok c
  apply_all c (s ∷ ss) = and_then (apply_setting c s) (λ d. apply_all d ss)

  abbrev pub then_validate : Result Config → Result Config
  then_validate (err e) = err e
  then_validate (ok c) = validate around.five_usd c

  -- the configuration with the settings of the store; `none` is no store
  unfoldable pub apply_overlay : Config → Option (Result (List Setting)) → Result Config
  apply_overlay c none = ok c
  apply_overlay c (some (err e)) = err (wrap (codes "read overlay") e)
  apply_overlay c (some (ok settings)) = then_validate (apply_all c settings)

  unfoldable pub read_case : Config → Option Case → Text
  read_case c none = []
  read_case c (some rules_git_url) = c.rules.git_url
  read_case c (some rules_branch) = c.rules.branch
  read_case c (some tenant_id) = c.tenant.id
  read_case c (some tenant_name) = c.tenant.name
  read_case c (some cost_daily_usd_cap_default) = around.format_usd c.cost.daily_usd_cap_default
  read_case c (some llm_primary_model_url) = c.llm.primary_model_url
  read_case c (some llm_fallback_model_url) = c.llm.fallback_model_url
  read_case c (some llm_embeddings_url) = c.llm.embeddings_url
  read_case c (some llm_per_pr_token_cap) = print_int c.llm.per_pr_token_cap
  read_case c (some observability_sink) = c.observability.sink
  read_case c (some observability_otlp_endpoint) = c.observability.otlp_endpoint
  read_case c (some observability_service_name) = c.observability.service_name
  read_case c (some retention_pr_runs_days) = print_int c.retention.pr_runs_days
  read_case c (some retention_feedback_events_days) = print_int c.retention.feedback_events_days
  read_case c (some retention_pr_context_items_days) = print_int c.retention.pr_context_items_days
  read_case c (some retention_embedding_cache_max_rows) =
      print_int c.retention.embedding_cache_max_rows
  read_case c (some retention_auto_export_max_files) = print_int c.retention.auto_export_max_files

  unfoldable pub read_current : Config → Text → Text
  read_current c key = read_case c (case_of key)

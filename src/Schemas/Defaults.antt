-- ===== src/Schemas/Defaults.antt =====
-- What the validation of a configuration gives.
use codereviewer.Prelude.{
  ◌≡◌, ◌≢◌, refl, sym, ap, ◌∙◌, true, false, none, List, [], ◌∷◌, arith, Text, codes, is_empty,
  nonempty, subst, inl, inr, Option-cases,
}
use codereviewer.Prelude.Int.{ℤ, pos, negsuc, ◌≤ℤ◌}
use codereviewer.Ports.{Usd, ok, err}
use codereviewer.Schemas.Config.{
  Config, check_llm, check_choices, positive_or, nonzero_or, text_or, list_or, fill_llm,
  fill_conversation, fill_tenant, fill_admin, fill_context, fill_retention, fill_rate_limit,
  fill_defaults, filled_or, validate,
}
use codereviewer.Schemas.Choices.{HasChoices, check_choices-HasChoices}

abbrev pub IsPositive : ℤ → Type 0
IsPositive n = pos 1 ≤ℤ n

positive_or-IsPositive : (d n : ℤ) → IsPositive d → IsPositive (positive_or d n)
positive_or-IsPositive d (pos n) h = ground arith
positive_or-IsPositive d (negsuc n) h = ground arith

nonzero_or-ne : (d n : ℤ) → IsPositive d → nonzero_or d n ≢ pos 0
nonzero_or-ne (pos d) (pos n) h = ground arith
nonzero_or-ne (pos d) (negsuc n) h = ground arith
nonzero_or-ne (negsuc d) n h = absurd (omega arith)

text_or-filled : (d s : Text) → is_empty d ≡ false → is_empty (text_or d s) ≡ false
unfolding is_empty
text_or-filled d [] h = h
text_or-filled d (c ∷ s) h = refl

list_or-filled : (d l : List Text) → nonempty d ≡ true → nonempty (list_or d l) ≡ true
list_or-filled d [] h = h
list_or-filled d (x ∷ l) h = refl

-- The bounds that the program relies on.
pub record IsComplete (c : Config) : Type 0 where
  pub token_cap : IsPositive c.llm.per_pr_token_cap
  pub chat_timeout : IsPositive c.llm.chat_timeout_sec
  pub embed_timeout : IsPositive c.llm.embed_timeout_sec
  pub max_replies : IsPositive c.conversation.max_replies_per_pr
  pub suffixes : nonempty c.conversation.trigger_suffixes ≡ true
  pub prefixes : nonempty c.conversation.trigger_prefixes ≡ true
  pub reply_tokens : IsPositive c.conversation.max_output_tokens
  pub daily_cap : IsPositive c.cost.daily_usd_cap_default
  pub gateway_addr : is_empty c.gateway.listen_addr ≡ false
  pub tenant_id : is_empty c.tenant.id ≡ false
  pub tenant_name : is_empty c.tenant.name ≡ false
  pub admin_addr : is_empty c.admin.listen_addr ≡ false
  pub session_minutes : IsPositive c.admin.session_minutes
  pub export_hours : IsPositive c.admin.auto_export_hours
  pub fetch_bytes : IsPositive c.context.url_fetch_max_bytes
  pub max_items : IsPositive c.context.max_items_per_pr
  pub run_days : c.retention.pr_runs_days ≢ pos 0
  pub feedback_days : c.retention.feedback_events_days ≢ pos 0
  pub context_days : c.retention.pr_context_items_days ≢ pos 0
  pub cache_rows : c.retention.embedding_cache_max_rows ≢ pos 0
  pub export_files : c.retention.auto_export_max_files ≢ pos 0
  pub janitor_hours : IsPositive c.retention.janitor_interval_hours
  pub login_attempts : IsPositive c.rate_limit.login_attempts
  pub login_window : IsPositive c.rate_limit.login_window_minutes
  pub webhook_rate : IsPositive c.rate_limit.webhook_per_second
  pub body_bytes : IsPositive c.rate_limit.webhook_max_body_bytes

module _ (five_usd : Usd) (is_amount : IsPositive five_usd) where
  fill_defaults-IsComplete : (c : Config) → IsComplete (fill_defaults five_usd c)
  unfolding fill_defaults fill_llm fill_conversation fill_tenant fill_admin fill_context
      fill_retention fill_rate_limit is_empty
  fill_defaults-IsComplete c = record {
    token_cap = positive_or-IsPositive _ c.llm.per_pr_token_cap (omega arith);
    chat_timeout = positive_or-IsPositive _ c.llm.chat_timeout_sec (omega arith);
    embed_timeout = positive_or-IsPositive _ c.llm.embed_timeout_sec (omega arith);
    max_replies = positive_or-IsPositive _ c.conversation.max_replies_per_pr (omega arith);
    suffixes = list_or-filled _ c.conversation.trigger_suffixes refl;
    prefixes = list_or-filled _ c.conversation.trigger_prefixes refl;
    reply_tokens = positive_or-IsPositive _ c.conversation.max_output_tokens (omega arith);
    daily_cap = positive_or-IsPositive _ c.cost.daily_usd_cap_default is_amount;
    gateway_addr = text_or-filled _ c.gateway.listen_addr refl;
    tenant_id = text_or-filled _ c.tenant.id refl;
    tenant_name = text_or-filled _ c.tenant.name refl;
    admin_addr = text_or-filled _ c.admin.listen_addr refl;
    session_minutes = positive_or-IsPositive _ c.admin.session_minutes (omega arith);
    export_hours = positive_or-IsPositive _ c.admin.auto_export_hours (omega arith);
    fetch_bytes = positive_or-IsPositive _ c.context.url_fetch_max_bytes (omega arith);
    max_items = positive_or-IsPositive _ c.context.max_items_per_pr (omega arith);
    run_days = nonzero_or-ne _ c.retention.pr_runs_days (omega arith);
    feedback_days = nonzero_or-ne _ c.retention.feedback_events_days (omega arith);
    context_days = nonzero_or-ne _ c.retention.pr_context_items_days (omega arith);
    cache_rows = nonzero_or-ne _ c.retention.embedding_cache_max_rows (omega arith);
    export_files = nonzero_or-ne _ c.retention.auto_export_max_files (omega arith);
    janitor_hours = positive_or-IsPositive _ c.retention.janitor_interval_hours (omega arith);
    login_attempts = positive_or-IsPositive _ c.rate_limit.login_attempts (omega arith);
    login_window = positive_or-IsPositive _ c.rate_limit.login_window_minutes (omega arith);
    webhook_rate = positive_or-IsPositive _ c.rate_limit.webhook_per_second (omega arith);
    body_bytes = positive_or-IsPositive _ c.rate_limit.webhook_max_body_bytes (omega arith);
  }

keeps_positive : (d n : ℤ) → IsPositive n → positive_or d n ≡ n
keeps_positive d (pos n) h = ground arith
keeps_positive d (negsuc n) h = absurd (omega arith)

keeps_nonzero : (d n : ℤ) → n ≢ pos 0 → nonzero_or d n ≡ n
keeps_nonzero d (pos n) h = ground arith
keeps_nonzero d (negsuc n) h = ground arith

keeps_text : (d s : Text) → is_empty s ≡ false → text_or d s ≡ s
keeps_text d s h = rw h refl

keeps_list : (d l : List Text) → nonempty l ≡ true → list_or d l ≡ l
keeps_list d l h = rw h refl

-- the defaults are left alone where they have nothing to do
pub fill_complete : (five_usd : Usd) (c : Config) → IsComplete c → fill_defaults five_usd c ≡ c
unfolding fill_defaults fill_llm fill_conversation fill_tenant fill_admin fill_context
    fill_retention fill_rate_limit
fill_complete five_usd c v = λ i. record c {
  llm = record c.llm {
    per_pr_token_cap = keeps_positive (pos 30000) c.llm.per_pr_token_cap v.token_cap i;
    chat_timeout_sec = keeps_positive (pos 90) c.llm.chat_timeout_sec v.chat_timeout i;
    embed_timeout_sec = keeps_positive (pos 60) c.llm.embed_timeout_sec v.embed_timeout i;
  };
  conversation = record c.conversation {
    max_replies_per_pr = keeps_positive (pos 2) c.conversation.max_replies_per_pr v.max_replies i;
    trigger_suffixes = keeps_list (codes "?" ∷ []) c.conversation.trigger_suffixes v.suffixes i;
    trigger_prefixes =
        keeps_list (codes "/explain" ∷ []) c.conversation.trigger_prefixes v.prefixes i;
    max_output_tokens = keeps_positive (pos 300) c.conversation.max_output_tokens v.reply_tokens i;
  };
  cost = record {
    daily_usd_cap_default = keeps_positive five_usd c.cost.daily_usd_cap_default v.daily_cap i;
  };
  gateway = record {
    listen_addr = keeps_text (codes ":8080") c.gateway.listen_addr v.gateway_addr i;
  };
  tenant = record {
    id = keeps_text (codes "default-tenant") c.tenant.id v.tenant_id i;
    name = keeps_text (codes "default") c.tenant.name v.tenant_name i;
  };
  admin = record c.admin {
    listen_addr = keeps_text (codes ":8090") c.admin.listen_addr v.admin_addr i;
    session_minutes = keeps_positive (pos 60) c.admin.session_minutes v.session_minutes i;
    auto_export_hours = keeps_positive (pos 24) c.admin.auto_export_hours v.export_hours i;
  };
  context = record c.context {
    url_fetch_max_bytes =
        keeps_positive (pos 1_048_576) c.context.url_fetch_max_bytes v.fetch_bytes i;
    max_items_per_pr = keeps_positive (pos 10) c.context.max_items_per_pr v.max_items i;
  };
  retention = record c.retention {
    pr_runs_days = keeps_nonzero (pos 365) c.retention.pr_runs_days v.run_days i;
    feedback_events_days =
        keeps_nonzero (pos 730) c.retention.feedback_events_days v.feedback_days i;
    pr_context_items_days =
        keeps_nonzero (pos 90) c.retention.pr_context_items_days v.context_days i;
    embedding_cache_max_rows =
        keeps_nonzero (pos 100_000) c.retention.embedding_cache_max_rows v.cache_rows i;
    auto_export_max_files =
        keeps_nonzero (pos 30) c.retention.auto_export_max_files v.export_files i;
    janitor_interval_hours =
        keeps_positive (pos 6) c.retention.janitor_interval_hours v.janitor_hours i;
  };
  rate_limit = record {
    login_attempts = keeps_positive (pos 5) c.rate_limit.login_attempts v.login_attempts i;
    login_window_minutes =
        keeps_positive (pos 15) c.rate_limit.login_window_minutes v.login_window i;
    webhook_per_second = keeps_positive (pos 100) c.rate_limit.webhook_per_second v.webhook_rate i;
    webhook_max_body_bytes =
        keeps_positive (pos 1_048_576) c.rate_limit.webhook_max_body_bytes v.body_bytes i;
  };
}

-- the choices are not among the defaults
check_choices_filled :
    (five_usd : Usd) (c : Config) → check_choices (fill_defaults five_usd c) ≡ check_choices c
unfolding check_choices check_llm fill_defaults fill_llm
check_choices_filled five_usd c = refl

-- A configuration that validates comes out with every bound that the program relies on: the
-- numbers that must be positive are, the lists and texts that must not be empty are not, and no
-- retention window is zero, since zero gives way to its default. Its VCS providers (at least one),
-- bus, store, LLM provider, secrets and sink are among those that the program knows. Validating it
-- again gives it unchanged.
pub validate_lem :
    (five_usd : Usd) (c d : Config)
    → IsPositive five_usd
    → validate five_usd c ≡ ok d
    → IsComplete d × HasChoices d × (validate five_usd d ≡ ok d)
unfolding validate
validate_lem five_usd c d is_amount h = elim (Option-cases (check_choices c)) [
  | inl e ↦
      let done : fill_defaults five_usd c ≡ d =
        ok-injective (subst (λ x. filled_or five_usd c x ≡ ok d) e h) in
      let complete = subst IsComplete done (fill_defaults-IsComplete five_usd is_amount c) in
      let checked : check_choices d ≡ none =
        ap check_choices (sym done) ∙ check_choices_filled five_usd c ∙ e in
      (
        complete,
        check_choices-HasChoices d checked,
        rw checked (ap ok (fill_complete five_usd d complete)),
      )
  | inr (x, e) ↦ absurd (clash (subst (λ y. filled_or five_usd c y ≡ ok d) e h))
]
  where
    clash : {x : Text} → err x ≡ ok d → ⊥
    clash p = ground arith

    ok-injective : {a : Config} → ok a ≡ ok d → a ≡ d
    ok-injective p = cc

-- ===== src/Overlay/RoundTrip.antt =====
-- A snapshot of the settings, imported and laid over a configuration, brings the exported settings
-- back.
use mathlib.Core.Path.{fun_ext}
use codereviewer.Prelude.{
  ℕ, ◌≡◌, refl, sym, ap, subst, ◌∙◌, true, false, ◌||◌, Option, none, some, List, [], ◌∷◌, ◌++◌,
  map, arith, Text, text_eq, any_of, inl, inr, append-nil, Option-cases, append_assoc,
}
use codereviewer.Ports.{Time, Usd, ok, err}
use codereviewer.Schemas.Config.{Config}
use codereviewer.Overlay.{
  Case, rules_git_url, rules_branch, tenant_id, tenant_name, cost_daily_usd_cap_default,
  llm_primary_model_url, llm_fallback_model_url, llm_embeddings_url, llm_per_pr_token_cap,
  observability_sink, observability_otlp_endpoint, observability_service_name,
  retention_pr_runs_days, retention_feedback_events_days, retention_pr_context_items_days,
  retention_embedding_cache_max_rows, retention_auto_export_max_files, find_case, case_of, Setting,
  Surroundings, apply_all, read_current,
}
use codereviewer.Overlay.Snapshots.{
  ConfigSnapshot, export_config, SetAnswers, import_settings, import_config, Import,
}
use codereviewer.Walks.{walk, map-walk, any_of-walk}
use codereviewer.Schemas.Config.{
  validate, check_choices, check_providers, active_providers, check_bus, check_store, check_llm,
  check_secrets, check_sink, or_else, filled_or,
}
use codereviewer.Schemas.Defaults.{IsPositive, IsComplete, fill_complete, validate_lem}
use codereviewer.Overlay.{apply_overlay, then_validate}
use codereviewer.Overlay.Blending.{
  label-is_key, same_case, blend, exported, IsPortable, apply_all-blend, mask_lem,
}

all_cases : List Case
all_cases =
    rules_git_url ∷ rules_branch ∷ tenant_id ∷ tenant_name ∷ cost_daily_usd_cap_default
    ∷ llm_primary_model_url ∷ llm_fallback_model_url ∷ llm_embeddings_url ∷ llm_per_pr_token_cap
    ∷ observability_sink ∷ observability_otlp_endpoint ∷ observability_service_name
    ∷ retention_pr_runs_days ∷ retention_feedback_events_days ∷ retention_pr_context_items_days
    ∷ retention_embedding_cache_max_rows ∷ retention_auto_export_max_files ∷ []

each_case : (k : Case) → any_of (same_case k) all_cases ≡ true
unfolding all_cases
each_case rules_git_url = refl
each_case rules_branch = refl
each_case tenant_id = refl
each_case tenant_name = refl
each_case cost_daily_usd_cap_default = refl
each_case llm_primary_model_url = refl
each_case llm_fallback_model_url = refl
each_case llm_embeddings_url = refl
each_case llm_per_pr_token_cap = refl
each_case observability_sink = refl
each_case observability_otlp_endpoint = refl
each_case observability_service_name = refl
each_case retention_pr_runs_days = refl
each_case retention_feedback_events_days = refl
each_case retention_pr_context_items_days = refl
each_case retention_embedding_cache_max_rows = refl
each_case retention_auto_export_max_files = refl

-- `c` with the settings of `cfg`
abbrev pub restored : Config → Config → Config
restored cfg c = record c {
  rules = cfg.rules;
  tenant = cfg.tenant;
  cost = cfg.cost;
  llm = record c.llm {
    primary_model_url = cfg.llm.primary_model_url;
    fallback_model_url = cfg.llm.fallback_model_url;
    embeddings_url = cfg.llm.embeddings_url;
    per_pr_token_cap = cfg.llm.per_pr_token_cap;
  };
  observability = cfg.observability;
  retention = record cfg.retention {
    janitor_interval_hours = c.retention.janitor_interval_hours;
    janitor_enabled = c.retention.janitor_enabled;
  };
}

or_else-none : (a b : Option Text) → or_else a b ≡ none → (a ≡ none) × (b ≡ none)
or_else-none none b h = (refl, h)
or_else-none (some e) b h = absurd (ground arith)

abbrev first_error : (a b c d e f : Option Text) → Option Text
first_error a b c d e f = or_else a (or_else b (or_else c (or_else d (or_else e f))))

-- the last of several checks, none of which finds anything, is replaced
replace_last :
    (a b c d e f a' b' c' d' e' f' : Option Text)
    → first_error a' b' c' d' e' f' ≡ none
    → first_error a b c d e f ≡ none
    → first_error a b c d e f' ≡ none
replace_last a b c d e f a' b' c' d' e' f' p q =
    let (_, p1) = or_else-none a' (or_else b' (or_else c' (or_else d' (or_else e' f')))) p in
    let (_, p2) = or_else-none b' (or_else c' (or_else d' (or_else e' f'))) p1 in
    let (_, p3) = or_else-none c' (or_else d' (or_else e' f')) p2 in
    let (_, p4) = or_else-none d' (or_else e' f') p3 in
    let (_, last) = or_else-none e' f' p4 in
    let (qa, q1) = or_else-none a (or_else b (or_else c (or_else d (or_else e f)))) q in
    let (qb, q2) = or_else-none b (or_else c (or_else d (or_else e f))) q1 in
    let (qc, q3) = or_else-none c (or_else d (or_else e f)) q2 in
    let (qd, q4) = or_else-none d (or_else e f) q3 in
    let (qe, _) = or_else-none e f q4 in rw (qa, qb, qc, qd, qe, last) refl

check_choices-restored :
    (cfg c : Config)
    → check_choices cfg ≡ none
    → check_choices c ≡ none
    → check_choices (restored cfg c) ≡ none
unfolding check_choices check_llm
check_choices-restored cfg c p q =
    replace_last (check_providers (active_providers c.vcs)) (check_bus c.message_bus)
      (check_store c.store) (check_llm c.llm) (check_secrets c.secrets) (check_sink c.observability)
      (check_providers (active_providers cfg.vcs)) (check_bus cfg.message_bus)
      (check_store cfg.store) (check_llm cfg.llm) (check_secrets cfg.secrets)
      (check_sink cfg.observability) p q

-- the settings of an export, in the order in which the import walks over them
abbrev pub walked : Surroundings → Config → Time → List ℕ → ConfigSnapshot
walked around cfg now order = record (export_config around cfg now) {
  settings = walk order (export_config around cfg now).settings;
}

-- a store that takes every write
abbrev pub accepts : SetAnswers
accepts written s = ok tt

module _ (around : Surroundings) (cfg c : Config) where
  apply_all-exported :
      (ks : List Case)
      → ((k : Case) → any_of (same_case k) ks ≡ true)
      → ((k : Case) → IsPortable around cfg k)
      → apply_all around c (map (exported around cfg) ks) ≡ ok (restored cfg c)
  apply_all-exported ks all h =
      apply_all-blend around cfg c (λ k. false) ks h
      ∙ ap (λ m. ok (blend m cfg c))
          (fun_ext λ j. mask_lem around (λ k. false) ks j ∙ ap (λ b. b || false) (all j))

  exported_all :
      (now : Time) → (export_config around cfg now).settings ≡ map (exported around cfg) all_cases
  unfolding export_config read_current case_of find_case text_eq all_cases
  exported_all now = refl

  import_settings-exported :
      (written : List Setting) (ks : List Case)
      → import_settings accepts written (map (exported around cfg) ks)
        ≡ (ok tt, written ++ map (exported around cfg) ks)
  unfolding import_settings
  import_settings-exported written [] = ap (λ l. (ok tt, l)) (sym (append-nil written))
  import_settings-exported written (k ∷ ks) = rw (label-is_key k) (
      import_settings-exported (written ++ exported around cfg k ∷ []) ks
      ∙ ap (λ l. (ok tt, l)) (append_assoc written (exported around cfg k ∷ []) _))

  restored-IsComplete : IsComplete cfg → IsComplete c → IsComplete (restored cfg c)
  restored-IsComplete v w = record {
    token_cap = v.token_cap;
    chat_timeout = w.chat_timeout;
    embed_timeout = w.embed_timeout;
    max_replies = w.max_replies;
    suffixes = w.suffixes;
    prefixes = w.prefixes;
    reply_tokens = w.reply_tokens;
    daily_cap = v.daily_cap;
    gateway_addr = w.gateway_addr;
    tenant_id = v.tenant_id;
    tenant_name = v.tenant_name;
    admin_addr = w.admin_addr;
    session_minutes = w.session_minutes;
    export_hours = w.export_hours;
    fetch_bytes = w.fetch_bytes;
    max_items = w.max_items;
    run_days = v.run_days;
    feedback_days = v.feedback_days;
    context_days = v.context_days;
    cache_rows = v.cache_rows;
    export_files = v.export_files;
    janitor_hours = w.janitor_hours;
    login_attempts = w.login_attempts;
    login_window = w.login_window;
    webhook_rate = w.webhook_rate;
    body_bytes = w.body_bytes;
  }

checked : (five_usd : Usd) (c d : Config) → validate five_usd c ≡ ok d → check_choices c ≡ none
unfolding validate
checked five_usd c d h = elim (Option-cases (check_choices c)) [
  | inl e ↦ e
  | inr (x, e) ↦ absurd (clash (subst (λ y. filled_or five_usd c y ≡ ok d) e h))
]
  where
    clash : {x : Text} → err x ≡ ok d → ⊥
    clash p = ground arith

module _ (around : Surroundings) (is_amount : IsPositive around.five_usd) (cfg c : Config)
    (valid : validate around.five_usd cfg ≡ ok cfg)
    (other : validate around.five_usd c ≡ ok c) where
  restored-valid : validate around.five_usd (restored cfg c) ≡ ok (restored cfg c)
  restored-valid =
      unfold validate in
      rw
        (check_choices-restored cfg c (checked around.five_usd cfg cfg valid)
          (checked around.five_usd c c other))
        (ap ok (
          fill_complete around.five_usd (restored cfg c) (
            restored-IsComplete around cfg c
              (validate_lem around.five_usd cfg cfg is_amount valid).0
              (validate_lem around.five_usd c c is_amount other).0)))

  walked_all :
      (now : Time) (order : List ℕ)
      → import_config (accepts) (walked around cfg now order)
        ≡ (ok tt, map (exported around cfg) (walk order all_cases))
  walked_all now order = imported ∙ import_settings-exported around cfg c [] (walk order all_cases)
    where
      opens :
          import_config (accepts) (walked around cfg now order)
          ≡ import_settings (accepts) [] (walked around cfg now order).settings
      opens = unfold import_config export_config text_eq in refl

      imported :
          import_config (accepts) (walked around cfg now order)
          ≡ import_settings (accepts) [] (map (exported around cfg) (walk order all_cases))
      imported =
          opens
          ∙ ap (import_settings (accepts) []) (
              ap (walk order) (exported_all around cfg c now)
              ∙ map-walk (exported around cfg) order all_cases)

  -- An export of a valid configuration, imported into a settings store that takes the writes and
  -- laid over a valid configuration, succeeds and takes exactly the exported settings from it, in
  -- whatever order the import and the store go through them. Condition: no exported value holds
  -- "$", and the numbers among them are read back as they were printed.
  pub export_config-restores :
      (now : Time) (order table : List ℕ)
      → ((k : Case) → IsPortable around cfg k)
      → ((import_config (accepts) (walked around cfg now order)).0 ≡ ok tt)
        × (apply_overlay around c
              (some (ok (walk table (import_config (accepts) (walked around cfg now order)).1)))
            ≡ ok (restored cfg c))
  unfolding apply_overlay
  export_config-restores now order table portable = (
    ap (λ (r : Import). r.0) (walked_all now order),
    ap (λ (r : Import). then_validate around (apply_all around c (walk table r.1)))
          (walked_all now order)
        ∙ ap (λ l. then_validate around (apply_all around c l))
            (map-walk (exported around cfg) table (walk order all_cases))
        ∙ ap (then_validate around)
            (apply_all-exported around cfg c (walk table (walk order all_cases)) each portable)
        ∙ restored-valid,
  )
    where
      each : (k : Case) → any_of (same_case k) (walk table (walk order all_cases)) ≡ true
      each k =
          any_of-walk (same_case k) table (walk order all_cases)
          ∙ any_of-walk (same_case k) order all_cases
          ∙ each_case k

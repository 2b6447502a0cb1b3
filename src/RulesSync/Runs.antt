-- ===== src/RulesSync/Runs.antt =====
-- What a sync of rules changes in the store of rules.
use codereviewer.Prelude.{
  ℕ, zero, suc, ◌+◌, ◌≡◌, refl, sym, ap, ◌∙◌, Bool, true, false, ◌||◌, List, [], ◌∷◌, map, arith,
  Text, tally, keep, length, inl, inr,
}
use codereviewer.Dict.{Dict}
use codereviewer.Ports.{
  Vector, Result, ok, err, Result-cases, RawRuleFile, RulesSnapshot, FrontMatter, RuleUpsert,
}
use codereviewer.Exec.{
  Event, Env, Trace, Run, returned, panicked, M, continue, ◌>>=◌, pure, call, fetch_rules,
  upsert_rules, tombstone_missing,
}
use codereviewer.Exec.Counting.{
  is_returned, Counts, Counts-pure, Counts-call_other, Counts-rest, Counts-if,
}
use codereviewer.RulesSync.{
  parse_rule, add_rule, parse_files, with_embedding, hashed, use_results, embed_todo, use_cache,
  embed, tombstone, upsert, sync, use_snapshot, run,
}

abbrev pub is_tombstone : Event → Bool
is_tombstone (tombstone_missing sha ids) = true
is_tombstone _ = false

abbrev pub is_upsert : Event → Bool
is_upsert (upsert_rules sha rules) = true
is_upsert _ = false

-- what changes the store of rules
abbrev pub is_rule_change : Event → Bool
is_rule_change e = is_tombstone e || is_upsert e

abbrev is_ok : {A : Type 0} → Result A → Bool
is_ok (ok a) = true
is_ok (err e) = false

-- the file parses as a rule
abbrev pub is_rule : (Text → Result FrontMatter) → RawRuleFile → Bool
is_rule decode f = is_ok (parse_rule decode f.content)

abbrev pub rule_paths : (Text → Result FrontMatter) → List RawRuleFile → List Text
rule_paths decode fs = map (λ f. f.path) (keep (is_rule decode) fs)

abbrev ids : List (RuleUpsert × Text) → List Text
ids = map (λ p. p.0.rule_id)

parse_files_paths :
    (decode : Text → Result FrontMatter) (fs : List RawRuleFile) (tenant : Text)
    → ids (parse_files decode fs tenant) ≡ rule_paths decode fs
unfolding parse_files add_rule
parse_files_paths decode [] tenant = refl
parse_files_paths decode (f ∷ fs) tenant = elim (Result-cases (parse_rule decode f.content)) [
  | inl ((fm, body), e) ↦ rw (e, parse_files_paths decode fs tenant) refl
  | inr (msg, e) ↦ rw e (parse_files_paths decode fs tenant)
]

embedded_ids :
    (hash : Text → Text) (vectors : Dict Vector) (parsed : List (RuleUpsert × Text))
    → map (λ r. r.rule_id) (map (with_embedding hash vectors) parsed) ≡ ids parsed
unfolding with_embedding
embedded_ids hash vectors [] = refl
embedded_ids hash vectors ((rule, text) ∷ parsed) =
    ap (λ l. rule.rule_id ∷ l) (embedded_ids hash vectors parsed)

module _ (p : Event → Bool) (quiet : (e : Event) → is_rule_change e ≡ false → p e ≡ false)
    (env : Env) where
  other :
      {A : Type 0} (e : Event) (answer : Trace → A)
      → is_rule_change e ≡ false
      → Counts p 0 (call e answer)
  other e answer f = Counts-call_other e answer (quiet e f)

  Counts-use_results :
      (c : Dict Vector) (todo : List (Text × Text)) (r : Result (List Vector))
      → Counts p 0 (use_results env c todo r)
  unfolding use_results
  Counts-use_results c todo (err e) = search Counts-pure
  Counts-use_results c todo (ok vs) = search (Counts-pure, other, Counts-rest, Counts-if)

  Counts-use_cache :
      (pairs : List (Text × Text)) (r : Result (Dict Vector)) → Counts p 0 (use_cache env pairs r)
  unfolding use_cache embed_todo
  Counts-use_cache pairs (err e) = search Counts-pure
  Counts-use_cache pairs (ok c) =
      search (Counts-pure, other, Counts-rest, Counts-if, Counts-use_results)

  Counts-embed : (pairs : List (Text × Text)) → Counts p 0 (embed env pairs)
  unfolding embed
  Counts-embed pairs = search (other, Counts-rest, Counts-use_cache)

none_added :
    {A : Type 0} {p : Event → Bool} (m : M A) (t : Trace)
    → Counts p 0 m
    → tally p (m t).1 ≡ tally p t
none_added {p = p} m t k = let sum : 0 + tally p t ≡ tally p t = omega arith in k.adds t ∙ sum

module _ (env : Env) where
  -- What a sync did that began after `t`. When it returns 0, no file of the repository is a rule, and
  -- the store was not changed. When it returns a number, its last calls were to upsert that many
  -- rules, with the paths of the files that are rules, and to switch off all others. When it fails,
  -- no rule was switched off.
  abbrev pub IsSynced : Trace → Run (Result ℕ) × Trace → Type 0
  IsSynced t (returned (ok zero), u) =
      (snap : RulesSnapshot) × (env.rules_fetched t ≡ ok snap)
      × (rule_paths env.decode_front_matter snap.files ≡ [])
      × (tally is_rule_change u ≡ tally is_rule_change t)
  IsSynced t (returned (ok (suc n)), u) =
      (snap : RulesSnapshot) × (rules : List RuleUpsert) × (older : Trace) × (env.rules_fetched t
        ≡ ok snap)
      × (map (λ r. r.rule_id) rules ≡ rule_paths env.decode_front_matter snap.files)
      × (length rules ≡ suc n)
      × (u
          ≡ tombstone_missing snap.commit_sha (rule_paths env.decode_front_matter snap.files)
            ∷ upsert_rules snap.commit_sha rules
            ∷ older)
      × (tally is_rule_change older ≡ tally is_rule_change t)
  IsSynced t (returned (err e), u) = tally is_tombstone u ≡ tally is_tombstone t
  IsSynced t (panicked, u) = ⊥

  module _ (t : Trace) (snap : RulesSnapshot) (fetched : env.rules_fetched t ≡ ok snap)
      (first : RuleUpsert × Text) (parsed : List (RuleUpsert × Text))
      (paths : ids (first ∷ parsed) ≡ rule_paths env.decode_front_matter snap.files) where
    IsSynced-tombstone :
        (vectors : Dict Vector) (r : Result (Unit {0})) (u : Trace)
        → tally is_rule_change u ≡ tally is_rule_change t
        → tally is_tombstone u ≡ tally is_tombstone t
        → IsSynced t (
            tombstone env snap.commit_sha
              (map (with_embedding env.content_hash vectors) (first ∷ parsed))
              r
              (upsert_rules snap.commit_sha
                  (map (with_embedding env.content_hash vectors) (first ∷ parsed))
                ∷ u))
    unfolding tombstone ◌>>=◌ call pure
    IsSynced-tombstone vectors (err e) u same calm = calm
    IsSynced-tombstone vectors (ok _) u same calm =
        let rules = map (with_embedding env.content_hash vectors) (first ∷ parsed) in
        let own = embedded_ids env.content_hash vectors (first ∷ parsed) ∙ paths in
        (
          snap,
          rules,
          u,
          fetched,
          own,
          refl,
          ap
              (λ names.
                tombstone_missing snap.commit_sha names ∷ upsert_rules snap.commit_sha rules ∷ u)
              own,
          same,
        )

    IsSynced-upsert :
        (r : Run (Result (Dict Vector))) (u : Trace)
        → is_returned r ≡ true
        → tally is_rule_change u ≡ tally is_rule_change t
        → tally is_tombstone u ≡ tally is_tombstone t
        → IsSynced t (continue r (upsert env snap.commit_sha (first ∷ parsed)) u)
    unfolding upsert ◌>>=◌ call pure
    IsSynced-upsert (returned (err e)) u h same calm = calm
    IsSynced-upsert (returned (ok vectors)) u h same calm =
        IsSynced-tombstone vectors (env.rules_upserted u snap.commit_sha _) u same calm
    IsSynced-upsert panicked u h same calm = absurd (ground arith)

  IsSynced-sync :
      (t : Trace) (snap : RulesSnapshot) (parsed : List (RuleUpsert × Text))
      → env.rules_fetched t ≡ ok snap
      → ids parsed ≡ rule_paths env.decode_front_matter snap.files
      → IsSynced t (sync env snap.commit_sha parsed (fetch_rules ∷ t))
  unfolding sync ◌>>=◌ pure
  IsSynced-sync t snap [] fetched paths = (snap, fetched, sym paths, refl)
  IsSynced-sync t snap (first ∷ parsed) fetched paths =
      let pairs = map (hashed env.content_hash) (first ∷ parsed) in
      let changes = Counts-embed is_rule_change (λ e h. h) env pairs in
      let switches = Counts-embed is_tombstone (λ e h. ground (arith, h)) env pairs in
      IsSynced-upsert t snap fetched first parsed paths (embed env pairs (fetch_rules ∷ t)).0 _
        (changes.returns (fetch_rules ∷ t)) (none_added _ (fetch_rules ∷ t) changes)
        (none_added _ (fetch_rules ∷ t) switches)

  IsSynced-use_snapshot :
      (tenant : Text) (t : Trace) (r : Result RulesSnapshot)
      → env.rules_fetched t ≡ r
      → IsSynced t (use_snapshot env tenant r (fetch_rules ∷ t))
  unfolding use_snapshot pure
  IsSynced-use_snapshot tenant t (err e) fetched = refl
  IsSynced-use_snapshot tenant t (ok snap) fetched =
      IsSynced-sync t snap (parse_files env.decode_front_matter snap.files tenant) fetched
        (parse_files_paths env.decode_front_matter snap.files tenant)

  -- A sync of rules returns. When it returns a positive number, its last two calls were to upsert
  -- that many rules, which have the paths of the files that parse as rules, in their order, and then
  -- to switch off all rules with other paths; before them the store was not changed. When it
  -- returns 0, no file of the repository parses as a rule and the store was not changed: the rules
  -- of files that are gone stay switched on. When it fails, no rule was switched off.
  pub run-IsSynced : (tenant : Text) (t : Trace) → IsSynced t (run env tenant t)
  unfolding run ◌>>=◌ call
  run-IsSynced tenant t = IsSynced-use_snapshot tenant t (env.rules_fetched t) refl

-- ===== src/Admin/Janitor.antt =====
-- The sweep of old rows (retention and sweep of internal/admin/janitor.go). What a call returns is only
-- logged, so a sweep is the list of its calls. A cutoff before the epoch is the epoch, before which
-- there is no row.
pub mod Cutoffs
use codereviewer.Prelude.{
  ℕ, ◌+◌, ◌-◌, ◌*◌, ◌%◌, ◌^◌, Bool, ◌&&◌, Option, none, some, List, [], ◌∷◌, ◌++◌, Text, nonempty,
  ltb, if◌then◌else◌,
}
use codereviewer.Prelude.Int.{ℤ, pos, pos_part, ltb_ℤ}
use codereviewer.Ports.{Time}
use codereviewer.Schemas.Config.{RetentionConfig, positive_or}

pub record Janitor : Type 0 where
  -- which stores there are
  pub pr_runs : Bool
  pub feedback : Bool
  pub context : Bool
  pub embedding_cache : Bool
  pub export_dir : Text
  pub pr_runs_days : ℤ
  pub feedback_days : ℤ
  pub pr_context_days : ℤ
  pub cache_max_rows : ℤ
  pub export_max_files : ℤ
  pub interval : ℤ

pub record Windows : Type 0 where
  pub pr_runs_days : ℤ
  pub feedback_days : ℤ
  pub pr_context_days : ℤ
  pub cache_max_rows : ℤ
  pub export_max_files : ℤ

-- the live windows, where they are wired, or else those of the janitor
unfoldable pub retention : Janitor → Option RetentionConfig → Windows
retention j (some r) = record {
  pr_runs_days = r.pr_runs_days;
  feedback_days = r.feedback_events_days;
  pr_context_days = r.pr_context_items_days;
  cache_max_rows = r.embedding_cache_max_rows;
  export_max_files = r.auto_export_max_files;
}
retention j none = record {
  pr_runs_days = j.pr_runs_days;
  feedback_days = j.feedback_days;
  pr_context_days = j.pr_context_days;
  cache_max_rows = j.cache_max_rows;
  export_max_files = j.export_max_files;
}

-- six hours, unless the interval is set
unfoldable pub interval_of : Janitor → ℤ
interval_of j = positive_or (pos 21_600_000_000_000) j.interval

pub data SweepCall : Type 0 where
  delete_runs_before delete_feedback_before delete_pr_context_before : Time → SweepCall
  evict_to_max : ℤ → SweepCall
  rotate_export_files : Text → ℤ → SweepCall

abbrev pub day : ℕ
day = 86_400_000_000_000

-- -time.Duration(days) * 24 * time.Hour, as a word of 64 bits
unfoldable pub minus_days : ℕ → ℕ
minus_days days = (2 ^ 64 - days * day % 2 ^ 64) % 2 ^ 64

-- now.Add, of a duration in two's complement
unfoldable pub add_duration : Time → ℕ → Time
add_duration now d = if ltb d (2 ^ 63) then now + d else now - (2 ^ 64 - d)

unfoldable pub cutoff : Time → ℤ → Time
cutoff now days = add_duration now (minus_days (pos_part days))

unfoldable pub sweep_table : Bool → ℤ → Time → (Time → SweepCall) → List SweepCall
sweep_table has_store days now delete =
    if has_store && ltb_ℤ (pos 0) days then delete (cutoff now days) ∷ [] else []

-- the calls behind the deletions
unfoldable pub sweep_caches : Janitor → Windows → List SweepCall
sweep_caches j w =
    (if j.embedding_cache && ltb_ℤ (pos 0) w.cache_max_rows
      then evict_to_max w.cache_max_rows ∷ []
      else [])
    ++ (if nonempty j.export_dir && ltb_ℤ (pos 0) w.export_max_files
        then rotate_export_files j.export_dir w.export_max_files ∷ []
        else [])

unfoldable pub sweep_with : Janitor → Windows → Time → List SweepCall
sweep_with j w now =
    sweep_table j.pr_runs w.pr_runs_days now delete_runs_before
    ++ (sweep_table j.feedback w.feedback_days now delete_feedback_before
        ++ (sweep_table j.context w.pr_context_days now delete_pr_context_before
            ++ sweep_caches j w))

-- the calls of a sweep, in order
unfoldable pub sweep : Janitor → Option RetentionConfig → Time → List SweepCall
sweep j live now = sweep_with j (retention j live) now

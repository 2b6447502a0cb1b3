-- ===== src/Admin/Janitor/Cutoffs.antt =====
-- What a sweep deletes.
use codereviewer.Prelude.{
  ℕ, ◌+◌, ◌-◌, ◌*◌, ◌^◌, ◌≤◌, ◌≡◌, refl, Bool, true, some, [], ◌∷◌, arith, leb, if◌then◌else◌,
}
use codereviewer.Prelude.Int.{ℤ, pos, ltb_ℤ}
use codereviewer.Ports.{Time}
use codereviewer.Schemas.Config.{RetentionConfig}
use codereviewer.Admin.Janitor.{
  Janitor, retention, SweepCall, delete_runs_before, delete_feedback_before,
  delete_pr_context_before, day, minus_days, add_duration, cutoff, sweep_table, sweep_caches,
  sweep_with, sweep,
}

-- the days of a window that is set and for which one turn around 64 bits is the most
abbrev pub IsWindow : ℕ → Type 0
IsWindow days = (1 ≤ days) × (days ≤ 213503)

-- Up to 106751 days the cutoff is that many days ago; beyond, it lies in the future.
abbrev pub cutoff_at : Time → ℕ → Time
cutoff_at now days = if leb days 106751 then now - days * day else now + (2 ^ 64 - days * day)

minus_days_lem : (days : ℕ) → IsWindow days → minus_days days ≡ 2 ^ 64 - days * day
unfolding minus_days
minus_days_lem days (from, to) = omega (arith, from, to)

cutoff_lem : (now days : ℕ) → IsWindow days → cutoff now (pos days) ≡ cutoff_at now days
unfolding cutoff add_duration
cutoff_lem now days (from, to) = rw (minus_days_lem days (from, to)) (ground (arith, from, to))

sweep_table_lem :
    (b : Bool) (n : ℤ) (days : ℕ) (now : Time) (delete : Time → SweepCall)
    → b ≡ true
    → n ≡ pos days
    → IsWindow days
    → sweep_table b n now delete ≡ delete (cutoff_at now days) ∷ []
unfolding sweep_table
sweep_table_lem b n days now delete has set (from, to) =
    rw (has, set, cutoff_lem now days (from, to), positive days from) refl
  where
    positive : (d : ℕ) → 1 ≤ d → ltb_ℤ (pos 0) (pos d) ≡ true
    positive d h = ground (arith, h)

-- With its three stores, and live windows between 1 and 213503 days, a sweep deletes the runs, the
-- feedback and the context items that are older than their windows, in this order, as long as a
-- window has 106751 days at most. A longer window is more than a duration holds: the cutoff lies in
-- the future, so that every row there is deleted.
pub sweep-cutoff_at :
    (j : Janitor) (r : RetentionConfig) (now : Time) (runs feedback items : ℕ)
    → (j.pr_runs ≡ true) × (j.feedback ≡ true) × (j.context ≡ true)
    → (r.pr_runs_days ≡ pos runs)
      × (r.feedback_events_days ≡ pos feedback)
      × (r.pr_context_items_days ≡ pos items)
    → IsWindow runs × IsWindow feedback × IsWindow items
    → sweep j (some r) now
      ≡ delete_runs_before (cutoff_at now runs)
        ∷ delete_feedback_before (cutoff_at now feedback)
        ∷ delete_pr_context_before (cutoff_at now items)
        ∷ sweep_caches j (retention j (some r))
unfolding sweep sweep_with retention
sweep-cutoff_at j r now runs feedback items (a, b, c) (p, q, s) (u, v, w) =
    rw
      (
        sweep_table_lem j.pr_runs r.pr_runs_days runs now delete_runs_before a p u,
        sweep_table_lem j.feedback r.feedback_events_days feedback now delete_feedback_before b q v,
        sweep_table_lem j.context r.pr_context_items_days items now delete_pr_context_before c s w,
      )
      refl

-- ===== src/Backfill/Success.antt =====
-- When the comments of a pull request are ingested.
use codereviewer.Prelude.{ℕ, ◌≡◌, List, All, keep}
use codereviewer.Prelude.Int.{ℤ}
use codereviewer.Dict.{Dict}
use codereviewer.Ports.{Vector, Result, ok, err, HumanComment}
use codereviewer.Exec.{Env, Trace, Run, returned, panicked}
use codereviewer.Backfill.{Args}
use codereviewer.Backfill.Texts.{has_text, HasOwnVector, logged, upserts_for}

module _ (env : Env) (args : Args) (pr : ℤ) where
  -- The run returned without an error, and the last things done were the upserts of the comments
  -- with text, each once and in order, with the vectors of their texts, which come from the cache
  -- or the LLM.
  abbrev pub IsIngested : List HumanComment → Trace → Run (Result ℕ) × Trace → Type 0
  IsIngested cs since (returned (ok n), u) =
      (vectors : Dict Vector) × (older : Trace) × (u
        ≡ logged env args pr (upserts_for env args pr vectors cs) older)
      × All (HasOwnVector env args pr since older vectors) (keep has_text cs)
  IsIngested cs since (returned (err e), u) = ⊥
  IsIngested cs since (panicked, u) = ⊥

-- ===== src/Exec/Working.antt =====
-- A world whose embeddings can be had, and runs without an error.
use codereviewer.Prelude.{◌≡◌, List, Text, length}
use codereviewer.Ports.{Vector, Result, ok, err}
use codereviewer.Exec.{Env, Trace, Run, returned, panicked}

abbrev pub WorksAs {ℓ} : {A : Type ℓ} → Result A → Type 0
WorksAs (ok a) = Unit
WorksAs (err e) = ⊥

-- The lookups of the cache and the LLM work: there are as many embeddings as texts. Writing to the
-- cache may fail.
pub record IsEmbedding (env : Env) : Type 0 where
  pub finds : (t : Trace) (hashes : List Text) → WorksAs (env.cached_many t hashes)
  pub embeds :
      (t : Trace) (texts : List Text)
      → (vs : List Vector) × (env.embedded_many t texts ≡ ok vs) × (length vs ≡ length texts)

-- the run returned, without an error
abbrev pub Succeeds {ℓ} : {A : Type ℓ} → Run (Result A) → Type 0
Succeeds (returned (ok a)) = Unit
Succeeds (returned (err e)) = ⊥
Succeeds panicked = ⊥

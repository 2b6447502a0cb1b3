-- ===== src/Indexer/Success.antt =====
-- When the indexer succeeds on a push.
use codereviewer.Prelude.{
  ℕ, ◌≡◌, ◌⊎◌, inl, inr, true, List, [], ◌∷◌, map, Text, Bool-cases, length, nonempty, length-map,
  ==_refl,
}
use codereviewer.Dict.{Dict}
use codereviewer.Ports.{Vector, Result, ok, err, ChangedFile, CodeChunkUpsert}
use codereviewer.Schemas.{IndexJob}
use codereviewer.Exec.{
  Env, Trace, Run, returned, panicked, continue, ◌>>=◌, pure, call, list_changed_files,
}
use codereviewer.Exec.Working.{WorksAs, IsEmbedding, Succeeds}
use codereviewer.Indexer.{
  Groups, split_for_embedding, index_provider, cache_results, embed_hashes, after_lookup,
  embed_groups, after_upsert, upsert_batch, upsert_groups, index_groups, index_files, process_push,
}
use codereviewer.Indexer.Chunks.{all_chunks, after_files, collect_chunks_lem}
use codereviewer.Indexer.Upserts.{IsUpsertOf, Upserts, process_push-Upserts}

-- The embeddings can be had, and the store of chunks works.
pub record IsWorking (env : Env) : Type 0 where
  pub embedding : IsEmbedding env
  pub stores : (t : Trace) (batch : List CodeChunkUpsert) → WorksAs (env.chunks_upserted t batch)

-- The run returned without an error, and upserted a batch of these chunks, or there are none.
abbrev pub Stores :
    Env → IndexJob → List CodeChunkUpsert → Trace → Run (Result (Unit {0})) × Trace → Type 0
Stores env job found since (returned (ok _), t) = (found ≡ []) ⊎ IsUpsertOf env job found since t
Stores env job found since (returned (err e), t) = ⊥
Stores env job found since (panicked, t) = ⊥

module _ (env : Env) (job : IndexJob) (w : IsWorking env) where
  Succeeds-embed_hashes :
      (cached : Dict Vector) (todo : List (Text × Text)) (t : Trace)
      → Succeeds (embed_hashes env job cached todo t).0
  Succeeds-embed_hashes cached todo t = elim (Bool-cases (nonempty todo)) [
    | inl e ↦
        let (vs, made, same) = w.embedding.embeds t (map (λ x. x.1) todo) in
        unfold embed_hashes cache_results ◌>>=◌ call pure in
        rw (e, made, same, length-map (λ (x : Text × Text). x.1) todo, ==_refl (length todo)) tt
    | inr e ↦ unfold embed_hashes pure in rw e tt
  ]

  Succeeds-after_lookup :
      (hashes : List Text) (groups : Groups) (r : Result (Dict Vector)) (t : Trace)
      → WorksAs r
      → Succeeds (after_lookup env job hashes groups r t).0
  Succeeds-after_lookup hashes groups (ok cached) t found =
      unfold after_lookup in
      Succeeds-embed_hashes cached (split_for_embedding hashes groups cached) t
  Succeeds-after_lookup hashes groups (err e) t found = absurd found

  Succeeds-after_upsert :
      (r : Result (Unit {0})) → WorksAs r → Succeeds (returned (after_upsert env job r))
  Succeeds-after_upsert (ok _) stored = tt
  Succeeds-after_upsert (err e) stored = absurd stored

  Succeeds-upsert_groups :
      (groups : Groups) (r : Run (Result (Dict Vector))) (t : Trace)
      → Succeeds r
      → Succeeds (continue r (upsert_groups env job groups) t).0
  Succeeds-upsert_groups groups (returned (ok vectors)) t s =
      unfold upsert_groups upsert_batch ◌>>=◌ call pure in
      Succeeds-after_upsert (env.chunks_upserted t _) (w.stores t _)
  Succeeds-upsert_groups groups (returned (err e)) t s = absurd s
  Succeeds-upsert_groups groups panicked t s = absurd s

  Succeeds-index_groups :
      (found : Groups × ℕ) (t : Trace) → Succeeds (index_groups env job found t).0
  Succeeds-index_groups ([], n) t = unfold index_groups pure in tt
  Succeeds-index_groups (g ∷ gs, n) t =
      unfold index_groups embed_groups ◌>>=◌ call in
      Succeeds-upsert_groups (g ∷ gs) _ _
        (Succeeds-after_lookup _ (g ∷ gs) (env.cached_many t _) _ (w.embedding.finds t _))

  Stores-both :
      (found : List CodeChunkUpsert) (since : Trace) (r : Run (Result (Unit {0})) × Trace)
      → Upserts env job found since r
      → Succeeds r.0
      → Stores env job found since r
  Stores-both found since (returned (ok _), t) u s = u
  Stores-both found since (returned (err e), t) u s = absurd s
  Stores-both found since (panicked, t) u s = absurd s

  Succeeds-index_files :
      (files : List ChangedFile) (t : Trace) → Succeeds (index_files env job (ok files) t).0
  unfolding index_files ◌>>=◌
  Succeeds-index_files files t =
      let (n, collected) = collect_chunks_lem env job files [] 0 t in
      rw collected (Succeeds-index_groups _ (after_files env job files t))

  Succeeds-process_push :
      (files : List ChangedFile) (t : Trace)
      → env.registered (index_provider job) ≡ true
      → env.changed_files t job.repo_id job.before_sha job.head_sha ≡ ok files
      → Succeeds (process_push env job t).0
  unfolding process_push ◌>>=◌ call
  Succeeds-process_push files t known listed =
      rw (known, listed)
        (Succeeds-index_files files
          (list_changed_files job.repo_id job.before_sha job.head_sha ∷ t))

  -- When the cache, the LLM and the store of chunks work (writing to the cache may fail), a push of a
  -- registered provider whose changed files can be listed is indexed: processing it returns without
  -- an error, and its last call has upserted the chunks of all files, each with the vector of its
  -- content's hash, unless there are none; that vector is one that the cache had, or that the LLM
  -- gave for a text with that hash. Files that cannot be fetched or parsed give no chunks.
  pub process_push-Stores :
      (files : List ChangedFile) (t : Trace)
      → env.registered (index_provider job) ≡ true
      → env.changed_files t job.repo_id job.before_sha job.head_sha ≡ ok files
      → Stores env job
          (all_chunks env job files
            (list_changed_files job.repo_id job.before_sha job.head_sha ∷ t))
          (after_files env job files
            (list_changed_files job.repo_id job.before_sha job.head_sha ∷ t))
          (process_push env job t)
  process_push-Stores files t known listed =
      Stores-both _ _ (process_push env job t) (process_push-Upserts env job files t known listed)
        (Succeeds-process_push files t known listed)

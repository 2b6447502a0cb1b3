-- ===== src/Indexer/Upserts.antt =====
-- What the indexer upserts for a push.
use mathlib.Core.List.{Perm}
use mathlib.Core.List.Perm
use codereviewer.Prelude.{
  ℕ, ◌≡◌, refl, sym, subst, ◌⊎◌, inl, inr, true, List, [], ◌∷◌, map, arith, Text, All, Bool-cases,
  some, length, nonempty, ◌==◌,
}
use codereviewer.Dict
use codereviewer.Dict.{Dict}
use codereviewer.Ports.{Vector, Result, ok, err, ChangedFile, CodeChunkUpsert}
use codereviewer.Schemas.{IndexJob}
use codereviewer.Exec.{
  Env, Trace, Run, returned, panicked, continue, ◌>>=◌, pure, call, list_changed_files,
  upsert_chunks,
}
use codereviewer.RulesSync.Origins.{HasOrigin, HasOrigins, known_value}
use codereviewer.RulesSync.Embeddings.{fill-knows, fill-All, empty_All}
use codereviewer.Walks.{walk, walk-All, walk-All_inv}
use codereviewer.Indexer.{
  Groups, add_chunks, split_for_embedding, upserts_of, index_provider, group_of, cache_results,
  embed_hashes, after_lookup, embed_groups, after_upsert, upsert_batch, upsert_groups, index_groups,
  index_files, process_push,
}
use codereviewer.Indexer.Groups.{
  chunks_of, chunks_of-walk, add_chunks-Perm, IsGroup, add_chunks-IsGroup, hashes_of, with_vector,
  IsKnownGroup, HasVector, add_chunks-known, upserts_of_lem,
}
use codereviewer.Indexer.Chunks.{all_chunks, after_files, collect_chunks_lem, all_chunks-IsOwnHash}
use codereviewer.Indexer.Origins.{IsOwnHash, add_chunks-IsHashedGroup, HasOrigins-embed_groups}
use codereviewer.Indexer.Hashes.{split_lem, group_of-All}

abbrev Knows : Groups → Run (Result (Dict Vector)) → Type 0
Knows gs (returned (ok vectors)) = All (IsKnownGroup vectors) gs
Knows gs (returned (err e)) = Unit
Knows gs panicked = ⊥

module _ (env : Env) (job : IndexJob) (groups gs : Groups) (full : All IsGroup groups)
    (some_order : All (λ g. nonempty (group_of groups g.0) ≡ true) gs) where
  abbrev todo : Dict Vector → List (Text × Text)
  todo c = split_for_embedding (hashes_of gs) groups c

  Knows-cache_results :
      (c : Dict Vector) (r : Result (List Vector)) (t : Trace)
      → Knows gs (cache_results env job c (todo c) r t).0
  Knows-cache_results c (err e) t = unfold cache_results pure in tt
  Knows-cache_results c (ok vs) t = elim (Bool-cases (length vs == length (todo c))) [
    | inl e ↦
        unfold cache_results ◌>>=◌ call pure in
        rw e (
          split_lem c _ groups gs (fill-knows c (todo c) vs) some_order
            (fill-All c (todo c) vs (ground (arith, e))))
    | inr e ↦ unfold cache_results pure in rw e tt
  ]

  Knows-embed_hashes :
      (c : Dict Vector) (t : Trace) → Knows gs (embed_hashes env job c (todo c) t).0
  Knows-embed_hashes c t = elim (Bool-cases (nonempty (todo c))) [
    | inl e ↦
        unfold embed_hashes ◌>>=◌ call in
        rw e (Knows-cache_results c (env.embedded_many t (map (λ x. x.1) (todo c))) _)
    | inr e ↦
        unfold embed_hashes pure in
        rw e (split_lem c c groups gs (λ h known. known) some_order (empty_All c (todo c) e))
  ]

  Knows-after_lookup :
      (r : Result (Dict Vector)) (t : Trace)
      → Knows gs (after_lookup env job (hashes_of gs) groups r t).0
  Knows-after_lookup (err e) t = unfold after_lookup pure in tt
  Knows-after_lookup (ok c) t = unfold after_lookup in Knows-embed_hashes c t

Knows-walk :
    (choices : List ℕ) (groups : Groups) (r : Run (Result (Dict Vector)))
    → Knows (walk choices groups) r
    → Knows groups r
Knows-walk choices groups (returned (ok vectors)) k =
    walk-All_inv (IsKnownGroup vectors) choices groups k
Knows-walk choices groups (returned (err e)) k = tt
Knows-walk choices groups panicked k = k

module _ (env : Env) (job : IndexJob) where
  Knows-embed_groups :
      (groups : Groups) (t : Trace)
      → All IsGroup groups
      → Knows groups (embed_groups env job groups t).0
  unfolding embed_groups ◌>>=◌ call
  Knows-embed_groups groups t full = Knows-walk (env.map_order t) groups _ (
      Knows-after_lookup env job groups (walk (env.map_order t) groups) full
        (walk-All _ (env.map_order t) groups (group_of-All groups full))
        (env.cached_many t (hashes_of (walk (env.map_order t) groups))) _)

  -- The chunk's hash is that of its content. It has a vector, which the cache had or the LLM gave for
  -- a text with that hash, between `since` and `t`.
  abbrev pub HasOwnVector : Trace → Trace → Dict Vector → CodeChunkUpsert → Type 0
  HasOwnVector since t vectors c =
      (env.content_hash c.content ≡ c.content_hash)
      × ((v : Vector) × (Dict.get vectors c.content_hash ≡ some v)
          × HasOrigin env since t c.content_hash v)

  -- The run ended with the upsert of a batch that holds exactly the chunks that were found, in some
  -- order, each with the vector of its content's hash, and all these hashes have vectors, which
  -- come from the cache or the LLM.
  abbrev pub IsUpsertOf : List CodeChunkUpsert → Trace → Trace → Type 0
  IsUpsertOf found since (upsert_chunks batch ∷ t) =
      (vectors : Dict Vector) × Perm batch (map (with_vector vectors) found)
      × All (HasOwnVector since t vectors) found
  IsUpsertOf found since t = ⊥

  -- no chunk was found, or the chunks were upserted; `since` is when the files were fetched
  abbrev pub Upserts : List CodeChunkUpsert → Trace → Run (Result (Unit {0})) × Trace → Type 0
  Upserts found since (returned (ok _), t) = (found ≡ []) ⊎ IsUpsertOf found since t
  Upserts found since (returned (err e), t) = Unit
  Upserts found since (panicked, t) = ⊥

  own_vectors :
      (since t : Trace) (vectors : Dict Vector) (cs : List CodeChunkUpsert)
      → HasOrigins env since (returned (ok vectors), t)
      → All (IsOwnHash env.content_hash) cs
      → All (HasVector vectors) cs
      → All (HasOwnVector since t vectors) cs
  own_vectors since t vectors [] o _ _ = tt
  own_vectors since t vectors (c ∷ cs) o (own, good) (known, rest) =
      let (v, e) = known_value (Dict.get vectors c.content_hash) known in
      ((own, (v, e, o c.content_hash v e)), own_vectors since t vectors cs o good rest)

  batch-Perm :
      (vectors : Dict Vector) (choices : List ℕ) (cs : List CodeChunkUpsert)
      → All IsGroup (add_chunks [] cs)
      → All (IsKnownGroup vectors) (add_chunks [] cs)
      → Perm (upserts_of vectors (walk choices (add_chunks [] cs))) (map (with_vector vectors) cs)
  batch-Perm vectors choices cs good known =
      let groups = add_chunks [] cs in
      rw
        (upserts_of_lem vectors (walk choices groups) (walk-All IsGroup choices groups good)
          (walk-All (IsKnownGroup vectors) choices groups known))
        (Perm.map (with_vector vectors)
          (Perm.trans (chunks_of-walk choices groups) (add_chunks-Perm [] cs)))

  Upserts-answer :
      (cs batch : List CodeChunkUpsert) (since : Trace) (r : Result (Unit {0})) (t : Trace)
      → IsUpsertOf cs since (upsert_chunks batch ∷ t)
      → Upserts cs since (returned (after_upsert env job r), upsert_chunks batch ∷ t)
  Upserts-answer cs batch since (err e) t u = tt
  Upserts-answer cs batch since (ok x) t u = inr u

  Upserts-upsert_groups :
      (cs : List CodeChunkUpsert) (since : Trace) (r : Run (Result (Dict Vector))) (t : Trace)
      → All (IsOwnHash env.content_hash) cs
      → Knows (add_chunks [] cs) r
      → HasOrigins env since (r, t)
      → Upserts cs since (continue r (upsert_groups env job (add_chunks [] cs)) t)
  Upserts-upsert_groups cs since (returned (err e)) t own k o = unfold upsert_groups pure in tt
  Upserts-upsert_groups cs since (returned (ok vectors)) t own k o =
      unfold upsert_groups upsert_batch ◌>>=◌ call pure in
      Upserts-answer cs _ since (env.chunks_upserted t _) t (
        vectors,
        batch-Perm vectors (env.map_order t) cs (add_chunks-IsGroup [] cs tt) k,
        own_vectors since t vectors cs o own (add_chunks-known vectors [] cs k).0,
      )
  Upserts-upsert_groups cs since panicked t own k o = k

  no_groups : (cs : List CodeChunkUpsert) → add_chunks [] cs ≡ [] → cs ≡ []
  no_groups cs h = sym (Perm.nil-eq (subst (λ g. Perm (chunks_of g) cs) h (add_chunks-Perm [] cs)))

  Upserts-index_groups :
      (cs : List CodeChunkUpsert) (groups : Groups) (n : ℕ) (t : Trace)
      → All (IsOwnHash env.content_hash) cs
      → add_chunks [] cs ≡ groups
      → Upserts cs t (index_groups env job (groups, n) t)
  Upserts-index_groups cs [] n t own h = unfold index_groups pure in inl (no_groups cs h)
  Upserts-index_groups cs (g ∷ gs) n t own h =
      unfold index_groups ◌>>=◌ in
      subst
        (λ groups. Upserts cs t (
          continue (embed_groups env job groups t).0 (upsert_groups env job groups)
            (embed_groups env job groups t).1))
        h
        (Upserts-upsert_groups cs t (embed_groups env job (add_chunks [] cs) t).0 _ own
          (Knows-embed_groups (add_chunks [] cs) t (add_chunks-IsGroup [] cs tt))
          (HasOrigins-embed_groups env job t (add_chunks [] cs)
            (add_chunks-IsHashedGroup env.content_hash [] cs own tt)))

  Upserts-index_files :
      (files : List ChangedFile) (t : Trace)
      → Upserts
          (all_chunks env job files t)
          (after_files env job files t)
          (index_files env job (ok files) t)
  unfolding index_files ◌>>=◌
  Upserts-index_files files t =
      let (n, collected) = collect_chunks_lem env job files [] 0 t in
      rw collected (
        Upserts-index_groups (all_chunks env job files t) _ n (after_files env job files t)
          (all_chunks-IsOwnHash env job files t) refl)

  -- A push of a registered provider, whose changed files can be listed: processing it returns; when
  -- it returns no error, either no file gave a chunk, or the last thing done was to upsert a batch
  -- that holds the chunks of all files, none lost and none doubled, each with the vector of its
  -- content's hash. Every hash had one: the cache, asked after the files were fetched, had it, or
  -- the LLM, asked next, gave it for a text with that hash. So for any cache, LLM, failures and map
  -- order.
  pub process_push-Upserts :
      (files : List ChangedFile) (t : Trace)
      → env.registered (index_provider job) ≡ true
      → env.changed_files t job.repo_id job.before_sha job.head_sha ≡ ok files
      → Upserts
          (all_chunks env job files
            (list_changed_files job.repo_id job.before_sha job.head_sha ∷ t))
          (after_files env job files
            (list_changed_files job.repo_id job.before_sha job.head_sha ∷ t))
          (process_push env job t)
  unfolding process_push ◌>>=◌ call
  process_push-Upserts files t known listed =
      rw (known, listed)
        (Upserts-index_files files (list_changed_files job.repo_id job.before_sha job.head_sha ∷ t))

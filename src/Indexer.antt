-- ===== src/Indexer.antt =====
-- The indexing of pushes (internal/core/pipelines/indexer/pipeline.go): the changed files are cut
-- into chunks, the chunks are grouped by the hash of their content, each hash is embedded once,
-- through the cache, and all chunks are upserted. Logging is left out, the embedding model is the
-- LLM's affair. A Go map is the list of its entries as they came; a walk over it meets them in an
-- order that the environment chooses.
pub mod Groups
pub mod Hashes
pub mod Origins
pub mod Chunks
pub mod Upserts
pub mod Answers
pub mod Success
use codereviewer.Prelude.{
  ℕ, zero, suc, ◌+◌, Bool, true, false, not, ◌&&◌, ◌||◌, Option, none, some, List, [], ◌∷◌, ◌++◌,
  map, Text, codes, text_eq, is_empty, nonempty, is_some, length, itoa, ◌==◌, if◌then◌else◌,
}
use codereviewer.Dict
use codereviewer.Dict.{Dict}
use codereviewer.Ports.{
  Vector, Result, ok, err, wrap, github, ChangedFile, ParsedChunk, CodeChunkUpsert,
}
use codereviewer.Schemas.{IndexJob}
use codereviewer.Exec.{
  Env, Trace, M, ◌>>=◌, ◌>>◌, pure, call, list_changed_files, fetch_file_at, cache_get_many,
  embed_many, cache_put_many, upsert_chunks, ack, nack,
}
use codereviewer.RulesSync.{fill, entries}
use codereviewer.Walks.{walk}

-- map[string][]store.CodeChunkUpsert
abbrev pub Groups : Type 0
Groups = List (Text × List CodeChunkUpsert)

-- m[hash] = append(m[hash], c)
unfoldable pub add_chunk : Groups → CodeChunkUpsert → Groups
add_chunk [] c = (c.content_hash, c ∷ []) ∷ []
add_chunk ((h, group) ∷ rest) c =
    let later = (h, group) ∷ add_chunk rest c in
    if text_eq h c.content_hash then (h, group ++ c ∷ []) ∷ rest else later

unfoldable pub add_chunks : Groups → List CodeChunkUpsert → Groups
add_chunks groups [] = groups
add_chunks groups (c ∷ cs) = add_chunks (add_chunk groups c) cs

-- m[hash], which is empty where there is no entry
unfoldable pub group_of : Groups → Text → List CodeChunkUpsert
group_of [] h = []
group_of ((k, group) ∷ rest) h = let later = group_of rest h in if text_eq k h then group else later

unfoldable pub to_embed : Text → List CodeChunkUpsert → List (Text × Text) → List (Text × Text)
to_embed h [] later = later
to_embed h (c ∷ cs) later = (h, c.content) ∷ later

-- the hashes that the cache does not have, each with the text of the first chunk of its group
unfoldable pub split_for_embedding : List Text → Groups → Dict Vector → List (Text × Text)
split_for_embedding [] groups cached = []
split_for_embedding (h ∷ hs) groups cached =
    let later = split_for_embedding hs groups cached in
    if is_some (Dict.get cached h) then later else to_embed h (group_of groups h) later

abbrev pub embedded_as : Vector → CodeChunkUpsert → CodeChunkUpsert
embedded_as v c = record c { embedding = v }

unfoldable pub use_vector :
    List CodeChunkUpsert → Option Vector → List CodeChunkUpsert → List CodeChunkUpsert
use_vector group none later = later
use_vector group (some v) later = map (embedded_as v) group ++ later

-- the chunks of the groups, each with the vector of its group's hash
unfoldable pub upserts_of : Dict Vector → Groups → List CodeChunkUpsert
upserts_of cached [] = []
upserts_of cached ((h, group) ∷ rest) =
    use_vector group (Dict.get cached h) (upserts_of cached rest)

abbrev pub hash_of : Text × List CodeChunkUpsert → Text
hash_of g = g.0

unfoldable pub index_provider : IndexJob → Text
index_provider job = if is_empty job.provider then github else job.provider

module _ (env : Env) (job : IndexJob) where
  unfoldable pub chunk_upsert : Text → ParsedChunk → CodeChunkUpsert
  chunk_upsert path c = record {
    tenant_id = job.tenant_id;
    repo_id = job.repo_id;
    file_path = path;
    symbol_name = c.symbol_name;
    symbol_kind = c.symbol_kind;
    start_line = c.start_line;
    end_line = c.end_line;
    content = c.content;
    content_hash = env.content_hash c.content;
    commit_sha = job.head_sha;
    embedding = [];
  }

  -- the groups, and how many files were scanned
  unfoldable pub use_chunks : Text → Groups × ℕ → Result (List ParsedChunk) → Groups × ℕ
  use_chunks path (groups, scanned) (err e) = (groups, scanned)
  use_chunks path (groups, scanned) (ok cs) =
      (add_chunks groups (map (chunk_upsert path) cs), scanned + 1)

  unfoldable pub use_content : Text → Groups × ℕ → Result Text → Groups × ℕ
  use_content path found (err e) = found
  use_content path found (ok content) = use_chunks path found (env.parse_chunks path content)

  -- the file is of no use: there is no parser for it, or it is gone
  unfoldable pub is_skipped : ChangedFile → Bool
  is_skipped f = not (env.supports f.path) || text_eq f.status (codes "removed")

  unfoldable pub scan_file : ChangedFile → Groups × ℕ → M (Groups × ℕ)
  scan_file f found = if is_skipped f then pure found else (do
    r ←
        call (fetch_file_at job.repo_id job.head_sha f.path)
          (λ t. env.file_at t job.repo_id job.head_sha f.path)
    pure (use_content f.path found r))

  unfoldable pub collect_chunks : List ChangedFile → Groups × ℕ → M (Groups × ℕ)
  collect_chunks [] found = pure found
  collect_chunks (f ∷ fs) found = do later ← scan_file f found; collect_chunks fs later

  unfoldable pub cache_results :
      Dict Vector → List (Text × Text) → Result (List Vector) → M (Result (Dict Vector))
  cache_results cached todo (err e) = pure (err (wrap (codes "embed") e))
  cache_results cached todo (ok vs) =
      if length vs == length todo
      then (do
        call (cache_put_many (entries todo vs)) (λ t. env.put_many t (entries todo vs))
        pure (ok (fill cached todo vs)))
      else pure (
          err (
            codes "embed: got "
            ++ (itoa (length vs)
                ++ (codes " results for " ++ (itoa (length todo) ++ codes " hashes")))))

  unfoldable pub embed_hashes : Dict Vector → List (Text × Text) → M (Result (Dict Vector))
  embed_hashes cached todo =
      if nonempty todo
      then (do
        r ← call (embed_many (map (λ x. x.1) todo)) (λ t. env.embedded_many t (map (λ x. x.1) todo))
        cache_results cached todo r)
      else pure (ok cached)

  unfoldable pub after_lookup : List Text → Groups → Result (Dict Vector) → M (Result (Dict Vector))
  after_lookup hashes groups (err e) = pure (err (wrap (codes "embedding cache lookup") e))
  after_lookup hashes groups (ok cached) =
      embed_hashes cached (split_for_embedding hashes groups cached)

  -- the vectors of the groups, by hash
  unfoldable pub embed_groups : Groups → M (Result (Dict Vector))
  embed_groups groups t =
      let hashes = map hash_of (walk (env.map_order t) groups) in
      (call (cache_get_many hashes) (λ u. env.cached_many u hashes) >>= after_lookup hashes groups)
        t

  abbrev pub after_upsert : Result (Unit {0}) → Result (Unit {0})
  after_upsert (err e) = err (wrap (codes "upsert chunks") e)
  after_upsert (ok _) = ok tt

  unfoldable pub upsert_batch : List CodeChunkUpsert → M (Result (Unit {0}))
  upsert_batch batch = do
    r ← call (upsert_chunks batch) (λ t. env.chunks_upserted t batch)
    pure (after_upsert r)

  unfoldable pub upsert_groups : Groups → Result (Dict Vector) → M (Result (Unit {0}))
  upsert_groups groups (err e) = pure (err e)
  upsert_groups groups (ok vectors) =
      λ t. upsert_batch (upserts_of vectors (walk (env.map_order t) groups)) t

  unfoldable pub index_groups : Groups × ℕ → M (Result (Unit {0}))
  index_groups ([], scanned) = pure (ok tt)
  index_groups (g ∷ gs, scanned) = do
    vectors ← embed_groups (g ∷ gs)
    upsert_groups (g ∷ gs) vectors

  unfoldable pub index_files : Result (List ChangedFile) → M (Result (Unit {0}))
  index_files (err e) = pure (err (wrap (codes "list changed files") e))
  index_files (ok files) = do found ← collect_chunks files ([], 0); index_groups found

  -- the quoted provider at the end of the error's text is left out
  unfoldable pub process_push : M (Result (Unit {0}))
  process_push =
      if env.registered (index_provider job)
      then (do
        files ←
            call (list_changed_files job.repo_id job.before_sha job.head_sha)
              (λ t. env.changed_files t job.repo_id job.before_sha job.head_sha)
        index_files files)
      else pure (err (codes "vcs registry: no vcs adapter registered for provider"))

-- the payload decodes to a job, or it does not
unfoldable pub handle_push : Env → Result IndexJob → M (Result (Unit {0}))
handle_push env (err e) = do
  call (nack (codes "invalid index job: " ++ e))
      (λ t. env.nacked t (codes "invalid index job: " ++ e))
  pure (err (wrap (codes "unmarshal index job") e))
handle_push env (ok job) = do process_push env job; call ack env.acked

-- ===== src/Indexer/Chunks.antt =====
-- The chunks of the files of a push, as they are collected.
use codereviewer.Prelude.{
  ℕ, ◌+◌, ◌≡◌, refl, ap, ◌∙◌, inl, inr, List, [], ◌∷◌, ◌++◌, map, Text, All, All-append, Bool-cases,
  if◌then◌else◌,
}
use codereviewer.Ports.{Result, ok, err, ChangedFile, ParsedChunk, CodeChunkUpsert}
use codereviewer.Schemas.{IndexJob}
use codereviewer.Exec.{Env, Trace, Run, returned, ◌>>=◌, pure, call, fetch_file_at}
use codereviewer.Indexer.{
  Groups, add_chunk, add_chunks, chunk_upsert, use_chunks, use_content, is_skipped, scan_file,
  collect_chunks,
}
use codereviewer.Indexer.Origins.{IsOwnHash}

module _ (env : Env) (job : IndexJob) where
  parsed : Text → Result (List ParsedChunk) → List CodeChunkUpsert
  parsed path (err e) = []
  parsed path (ok cs) = map (chunk_upsert env job path) cs

  contents : Text → Result Text → List CodeChunkUpsert
  contents path (err e) = []
  contents path (ok content) = parsed path (env.parse_chunks path content)

  -- the chunks of a file, and of the files of a push, in their order, fetched from then on
  pub chunks_in : ChangedFile → Trace → List CodeChunkUpsert
  unfolding parsed contents
  chunks_in f t =
      if is_skipped env job f
      then []
      else contents f.path (env.file_at t job.repo_id job.head_sha f.path)

  pub after_file : ChangedFile → Trace → Trace
  after_file f t =
      if is_skipped env job f then t else fetch_file_at job.repo_id job.head_sha f.path ∷ t

  abbrev pub all_chunks : List ChangedFile → Trace → List CodeChunkUpsert
  all_chunks [] t = []
  all_chunks (f ∷ fs) t = chunks_in f t ++ all_chunks fs (after_file f t)

  abbrev pub after_files : List ChangedFile → Trace → Trace
  after_files [] t = t
  after_files (f ∷ fs) t = after_files fs (after_file f t)

  -- the result of collecting `cs` on top of the groups
  abbrev pub Collects : Groups → List CodeChunkUpsert → Trace → Run (Groups × ℕ) × Trace → Type 0
  Collects groups cs u r = (n : ℕ) × (r ≡ (returned (add_chunks groups cs, n), u))

  use_chunks_lem :
      (path : Text) (groups : Groups) (scanned : ℕ) (r : Result (List ParsedChunk))
      → (n : ℕ) × (use_chunks env job path (groups, scanned) r
          ≡ (add_chunks groups (parsed path r), n))
  unfolding use_chunks parsed add_chunks
  use_chunks_lem path groups scanned (err e) = (scanned, refl)
  use_chunks_lem path groups scanned (ok cs) = (scanned + 1, refl)

  use_content_lem :
      (path : Text) (groups : Groups) (scanned : ℕ) (r : Result Text)
      → (n : ℕ) × (use_content env job path (groups, scanned) r
          ≡ (add_chunks groups (contents path r), n))
  unfolding use_content contents
  use_content_lem path groups scanned (err e) = unfold add_chunks in (scanned, refl)
  use_content_lem path groups scanned (ok content) =
      use_chunks_lem path groups scanned (env.parse_chunks path content)

  scan_file_lem :
      (f : ChangedFile) (groups : Groups) (scanned : ℕ) (t : Trace)
      → Collects groups (chunks_in f t) (after_file f t) (scan_file env job f (groups, scanned) t)
  scan_file_lem f groups scanned t = elim (Bool-cases (is_skipped env job f)) [
    | inl e ↦ (scanned, unfold scan_file chunks_in after_file pure add_chunks in rw e refl)
    | inr e ↦
        let (n, same) =
          use_content_lem f.path groups scanned (env.file_at t job.repo_id job.head_sha f.path) in
        (n, unfold scan_file chunks_in after_file ◌>>=◌ call pure in rw (e, same) refl)
  ]

  add_chunks-append :
      (groups : Groups) (a b : List CodeChunkUpsert)
      → add_chunks (add_chunks groups a) b ≡ add_chunks groups (a ++ b)
  unfolding add_chunks
  add_chunks-append groups [] b = refl
  add_chunks-append groups (c ∷ a) b = add_chunks-append (add_chunk groups c) a b

  collect_step :
      (f : ChangedFile) (fs : List ChangedFile) (found : Groups × ℕ) (t u : Trace)
      (later : Groups × ℕ)
      → scan_file env job f found t ≡ (returned later, u)
      → collect_chunks env job (f ∷ fs) found t ≡ collect_chunks env job fs later u
  unfolding collect_chunks ◌>>=◌
  collect_step f fs found t u later h = rw h refl

  pub collect_chunks_lem :
      (fs : List ChangedFile) (groups : Groups) (scanned : ℕ) (t : Trace)
      → Collects groups
          (all_chunks fs t)
          (after_files fs t)
          (collect_chunks env job fs (groups, scanned) t)
  collect_chunks_lem [] groups scanned t = (scanned, unfold collect_chunks add_chunks pure in refl)
  collect_chunks_lem (f ∷ fs) groups scanned t =
      let (n, first) = scan_file_lem f groups scanned t in
      let (m, rest) =
        collect_chunks_lem fs (add_chunks groups (chunks_in f t)) n (after_file f t) in
      (
        m,
        collect_step f fs (groups, scanned) t (after_file f t) _ first
            ∙ rest
            ∙ ap (λ g. (returned (g, m), after_files fs (after_file f t)))
                (add_chunks-append groups (chunks_in f t) (all_chunks fs (after_file f t))),
      )

  chunk_upserts-IsOwnHash :
      (path : Text) (cs : List ParsedChunk)
      → All (IsOwnHash env.content_hash) (map (chunk_upsert env job path) cs)
  unfolding chunk_upsert
  chunk_upserts-IsOwnHash path [] = tt
  chunk_upserts-IsOwnHash path (c ∷ cs) = (refl, chunk_upserts-IsOwnHash path cs)

  parsed-IsOwnHash :
      (path : Text) (r : Result (List ParsedChunk))
      → All (IsOwnHash env.content_hash) (parsed path r)
  unfolding parsed
  parsed-IsOwnHash path (err e) = tt
  parsed-IsOwnHash path (ok cs) = chunk_upserts-IsOwnHash path cs

  contents-IsOwnHash :
      (path : Text) (r : Result Text) → All (IsOwnHash env.content_hash) (contents path r)
  contents-IsOwnHash path (err e) = unfold contents in tt
  contents-IsOwnHash path (ok content) = unfold contents in parsed-IsOwnHash path _

  chunks_in-IsOwnHash :
      (f : ChangedFile) (t : Trace) → All (IsOwnHash env.content_hash) (chunks_in f t)
  chunks_in-IsOwnHash f t = elim (Bool-cases (is_skipped env job f)) [
    | inl e ↦ unfold chunks_in in rw e tt
    | inr e ↦ unfold chunks_in in rw e (contents-IsOwnHash f.path _)
  ]

  -- every chunk has the hash of its content
  pub all_chunks-IsOwnHash :
      (fs : List ChangedFile) (t : Trace) → All (IsOwnHash env.content_hash) (all_chunks fs t)
  all_chunks-IsOwnHash [] t = tt
  all_chunks-IsOwnHash (f ∷ fs) t =
      All-append (IsOwnHash env.content_hash) (chunks_in f t) _ (chunks_in-IsOwnHash f t)
        (all_chunks-IsOwnHash fs (after_file f t))

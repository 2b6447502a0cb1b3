-- ===== src/Indexer/Answers.antt =====
-- How deliveries to the indexer are answered.
use codereviewer.Prelude.{ℕ, ◌≡◌, refl, true, false, List, [], ◌∷◌, Text, map, tally, ◌+◌}
use codereviewer.Dict.{Dict}
use codereviewer.Ports.{Vector, Result, ok, err, ChangedFile}
use codereviewer.Schemas.{IndexJob}
use codereviewer.Exec.{Event, Env, Trace, call, is_settled, ack}
use codereviewer.Exec.Counting.{
  Counts, Counts-pure, Counts-call_other, Counts-call_one, Counts-rest, Counts-first, Counts-if,
  Counts-at, is_returned,
}
use codereviewer.Walks.{walk}
use codereviewer.Indexer.{
  Groups, hash_of, scan_file, collect_chunks, cache_results, embed_hashes, after_lookup,
  embed_groups, upsert_batch, upsert_groups, index_groups, index_files, process_push, handle_push,
}

module _ (env : Env) (job : IndexJob) where
  other :
      {A : Type 0} (e : Event) (answer : Trace → A)
      → is_settled e ≡ false
      → Counts is_settled 0 (call e answer)
  other e answer h = Counts-call_other e answer h

  Counts-scan_file :
      (f : ChangedFile) (found : Groups × ℕ) → Counts is_settled 0 (scan_file env job f found)
  unfolding scan_file
  Counts-scan_file f found = search (Counts-pure, other, Counts-rest, Counts-if)

  Counts-collect_chunks :
      (fs : List ChangedFile) (found : Groups × ℕ)
      → Counts is_settled 0 (collect_chunks env job fs found)
  unfolding collect_chunks
  Counts-collect_chunks [] found = Counts-pure found
  Counts-collect_chunks (f ∷ fs) found =
      Counts-rest _ _ (Counts-scan_file f found) (Counts-collect_chunks fs)

  Counts-cache_results :
      (cached : Dict Vector) (todo : List (Text × Text)) (r : Result (List Vector))
      → Counts is_settled 0 (cache_results env job cached todo r)
  unfolding cache_results
  Counts-cache_results cached todo (err e) = search Counts-pure
  Counts-cache_results cached todo (ok vs) = search (Counts-pure, other, Counts-rest, Counts-if)

  Counts-embed_hashes :
      (cached : Dict Vector) (todo : List (Text × Text))
      → Counts is_settled 0 (embed_hashes env job cached todo)
  unfolding embed_hashes
  Counts-embed_hashes cached todo =
      search (Counts-pure, other, Counts-rest, Counts-if, Counts-cache_results)

  Counts-after_lookup :
      (hashes : List Text) (groups : Groups) (r : Result (Dict Vector))
      → Counts is_settled 0 (after_lookup env job hashes groups r)
  unfolding after_lookup
  Counts-after_lookup hashes groups (err e) = search Counts-pure
  Counts-after_lookup hashes groups (ok cached) = search Counts-embed_hashes

  Counts-embed_groups : (groups : Groups) → Counts is_settled 0 (embed_groups env job groups)
  unfolding embed_groups
  Counts-embed_groups groups = Counts-at _ λ t.
      Counts-rest _ _ (other _ _ refl)
        (Counts-after_lookup (map hash_of (walk (env.map_order t) groups)) groups)

  Counts-upsert_groups :
      (groups : Groups) (r : Result (Dict Vector))
      → Counts is_settled 0 (upsert_groups env job groups r)
  unfolding upsert_groups upsert_batch
  Counts-upsert_groups groups (err e) = search Counts-pure
  Counts-upsert_groups groups (ok vectors) =
      Counts-at _ λ t. Counts-rest _ _ (other _ _ refl) (λ r. Counts-pure _)

  Counts-index_groups : (found : Groups × ℕ) → Counts is_settled 0 (index_groups env job found)
  unfolding index_groups
  Counts-index_groups ([], n) = search Counts-pure
  Counts-index_groups (g ∷ gs, n) =
      Counts-rest _ _ (Counts-embed_groups (g ∷ gs)) (Counts-upsert_groups (g ∷ gs))

  Counts-index_files : (r : Result (List ChangedFile)) → Counts is_settled 0 (index_files env job r)
  unfolding index_files
  Counts-index_files (err e) = search Counts-pure
  Counts-index_files (ok files) =
      Counts-rest _ _ (Counts-collect_chunks files ([], 0)) Counts-index_groups

  Counts-process_push : Counts is_settled 0 (process_push env job)
  unfolding process_push
  Counts-process_push = search (Counts-pure, other, Counts-rest, Counts-if, Counts-index_files)

Counts-handle_push :
    (env : Env) (payload : Result IndexJob) → Counts is_settled 1 (handle_push env payload)
unfolding handle_push
Counts-handle_push env (err e) = Counts-first _ _ (Counts-call_one _ _ refl) (λ r. Counts-pure _)
Counts-handle_push env (ok job) =
    Counts-rest _ _ (Counts-process_push env job) (λ r. Counts-call_one ack _ refl)

-- Every delivery to the indexer is answered exactly once, by an ack or a nack, whether or not its
-- payload decodes and whatever fails on the way, and handling it returns.
pub handle_push-answers_once :
    (env : Env) (payload : Result IndexJob) (t : Trace)
    → (is_returned (handle_push env payload t).0 ≡ true)
      × (tally is_settled (handle_push env payload t).1 ≡ 1 + tally is_settled t)
handle_push-answers_once env payload t =
    let k = Counts-handle_push env payload in (k.returns t, k.adds t)

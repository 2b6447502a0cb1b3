-- ===== src/Backfill.antt =====
-- The ingestion of past review comments (internal/core/pipelines/backfill/pipeline.go): the pull
-- requests closed within a window are gone through; the distinct texts of the comments of each are
-- embedded, through the cache, and its comments are upserted. Logging is left out, the embedding
-- model is the LLM's affair, a point in time before 1970 is 0.
pub mod Origins
pub mod Texts
pub mod Totals
pub mod Success
use codereviewer.Prelude.{
  ℕ, suc, ◌+◌, ◌-◌, ◌*◌, Bool, true, false, not, ◌&&◌, ◌||◌, Option, none, some, List, [], ◌∷◌,
  ◌++◌, map, Text, codes, text_eq, is_empty, print_int, nonempty, any_of, length, itoa, ◌==◌,
  if◌then◌else◌,
}
use codereviewer.Prelude.Int.{ℤ, pos, negsuc, ltb_ℤ}
use codereviewer.Dict
use codereviewer.Dict.{Dict}
use codereviewer.Ports.{
  Time, Vector, Result, ok, err, wrap, PrRef, Outcome, pending, accepted, dismissed, OutcomeSignal,
  thumbs_up, thumbs_down, CommentUpsert, HumanComment,
}
use codereviewer.Exec.{
  Env, M, ◌>>=◌, ◌>>◌, pure, call, read_clock, search_closed_prs, list_pr_comments, cache_get_many,
  embed_many, cache_put_many, upsert_comment,
}
use codereviewer.RulesSync.{missing, fill, entries, vector_or_nil}

pub record Args : Type 0 where
  pub tenant_id : Text
  pub repo_id : Text
  pub window_days : ℤ
  -- `none` is the zero time
  pub now : Option Time

-- the days of the window, 270 unless a positive number is given
unfoldable pub window_of : ℤ → ℕ
window_of (pos n) = if n == 0 then 270 else n
window_of (negsuc n) = 270

-- now.AddDate(0, 0, -days), on days of 24 hours
unfoldable pub days_before : Time → ℕ → Time
days_before now days = now - days * 86_400_000_000_000

unfoldable pub embed_text : HumanComment → Text
embed_text c =
    if is_empty c.body && is_empty c.diff_hunk
    then []
    else if is_empty c.diff_hunk
    then c.body
    else if is_empty c.body
    then c.diff_hunk
    else c.body ++ (codes "\n\n" ++ c.diff_hunk)

unfoldable pub outcome_from_reactions : ℤ → ℤ → Outcome × Option OutcomeSignal
outcome_from_reactions plus_one minus_one =
    if ltb_ℤ minus_one plus_one
    then (accepted, some thumbs_up)
    else if ltb_ℤ plus_one minus_one
    then (dismissed, some thumbs_down)
    else (pending, none)

-- the distinct hashes of the texts of the comments, each with its text
unfoldable pub distinct_texts : (Text → Text) → List Text → List HumanComment → List (Text × Text)
distinct_texts hash seen [] = []
distinct_texts hash seen (c ∷ cs) =
    let skip = distinct_texts hash seen cs in
    let take =
      (hash (embed_text c), embed_text c) ∷ distinct_texts hash (hash (embed_text c) ∷ seen) cs in
    if is_empty (embed_text c) || any_of (text_eq (hash (embed_text c))) seen then skip else take

unfoldable pub past_ref : Args → ℤ → PrRef
past_ref args pr = record {
  tenant_id = args.tenant_id;
  repo_id = args.repo_id;
  pr_number = pr;
  head_sha = [];
  provider = [];
}

unfoldable pub past_comment : Args → ℤ → Vector → HumanComment → CommentUpsert
past_comment args pr vec c =
    let outcome = outcome_from_reactions c.reactions_plus_one c.reactions_minus_one in
    record {
      tenant_id = args.tenant_id;
      repo_id = args.repo_id;
      pr_number = pr;
      source = codes "human";
      github_id = some c.external_id;
      file_path = c.path;
      start_line = c.start_line;
      end_line = c.end_line;
      diff_hunk = c.diff_hunk;
      comment_text = c.body;
      category = [];
      outcome = outcome.0;
      outcome_signal = outcome.1;
      embedding = vec;
    }

abbrev pub count_ok : {A : Type 0} → Result A → ℕ → ℕ
count_ok (ok a) n = n + 1
count_ok (err e) n = n

module _ (env : Env) (args : Args) where
  module _ (pr : ℤ) where
    unfoldable pub use_vectors :
        Dict Vector → List (Text × Text) → Result (List Vector) → M (Result (Dict Vector))
    use_vectors cached todo (err e) = pure (err (wrap (codes "embed pr " ++ print_int pr) e))
    use_vectors cached todo (ok vs) =
        if length vs == length todo
        then (do
          call (cache_put_many (entries todo vs)) (λ t. env.put_many t (entries todo vs))
          pure (ok (fill cached todo vs)))
        else pure (
            err (
              codes "embed length mismatch: got "
              ++ (itoa (length vs) ++ (codes " for " ++ (itoa (length todo) ++ codes " hashes")))))

    unfoldable pub embed_texts : Dict Vector → List (Text × Text) → M (Result (Dict Vector))
    embed_texts cached todo =
        if nonempty todo
        then (do
          r ←
              call (embed_many (map (λ x. x.1) todo))
                (λ t. env.embedded_many t (map (λ x. x.1) todo))
          use_vectors cached todo r)
        else pure (ok cached)

    unfoldable pub use_cached : List (Text × Text) → Result (Dict Vector) → M (Result (Dict Vector))
    use_cached pairs (err e) = pure (err (wrap (codes "embedding cache") e))
    use_cached pairs (ok cached) = embed_texts cached (missing cached pairs)

    -- the vectors of the texts, by hash
    unfoldable pub embed_comments : List (Text × Text) → M (Result (Dict Vector))
    embed_comments pairs = do
      cached ←
          call (cache_get_many (map (λ x. x.0) pairs))
            (λ t. env.cached_many t (map (λ x. x.0) pairs))
      use_cached pairs cached

    unfoldable pub past_upsert : Dict Vector → HumanComment → CommentUpsert
    past_upsert vectors c =
        past_comment args pr (vector_or_nil (Dict.get vectors (env.content_hash (embed_text c)))) c

    -- how many comments were upserted before it, to how many with it
    unfoldable pub upsert_past : Dict Vector → HumanComment → ℕ → M ℕ
    upsert_past vectors c n = if is_empty (embed_text c) then pure n else (do
      r ←
          call (upsert_comment (past_upsert vectors c))
            (λ t. env.upserted t (past_upsert vectors c))
      pure (count_ok r n))

    unfoldable pub upsert_all : Dict Vector → List HumanComment → ℕ → M ℕ
    upsert_all vectors [] n = pure n
    upsert_all vectors (c ∷ cs) n = do m ← upsert_past vectors c n; upsert_all vectors cs m

    unfoldable pub upsert_comments : List HumanComment → Result (Dict Vector) → M (Result ℕ)
    upsert_comments cs (err e) = pure (err e)
    upsert_comments cs (ok vectors) = do n ← upsert_all vectors cs 0; pure (ok n)

    unfoldable pub use_comments : Result (List HumanComment) → M (Result ℕ)
    use_comments (err e) = pure (err (wrap (codes "list pr " ++ print_int pr) e))
    use_comments (ok []) = pure (ok 0)
    use_comments (ok (c ∷ cs)) = do
      vectors ← embed_comments (distinct_texts env.content_hash [] (c ∷ cs))
      upsert_comments (c ∷ cs) vectors

    unfoldable pub process_pr : M (Result ℕ)
    process_pr = do
      r ← call (list_pr_comments (past_ref args pr)) (λ t. env.human_comments t (past_ref args pr))
      use_comments r

  abbrev pub add_ok : ℕ → Result ℕ → ℕ
  add_ok total (ok n) = total + n
  add_ok total (err e) = total

  unfoldable pub process_prs : List ℤ → ℕ → M ℕ
  process_prs [] total = pure total
  process_prs (pr ∷ prs) total = do r ← process_pr pr; process_prs prs (add_ok total r)

  unfoldable pub use_prs : Result (List ℤ) → M (Result ℕ)
  use_prs (err e) = pure (err (wrap (codes "search closed prs") e))
  use_prs (ok prs) = do total ← process_prs prs 0; pure (ok total)

  abbrev pub now_of : Option Time → M Time
  now_of (some now) = pure now
  now_of none = call read_clock env.clock

  -- how many comments were upserted
  unfoldable pub run_backfill : M (Result ℕ)
  run_backfill = do
    now ← now_of args.now
    prs ←
        call (search_closed_prs args.repo_id (days_before now (window_of args.window_days)))
          (λ t. env.closed_prs t args.repo_id (days_before now (window_of args.window_days)))
    use_prs prs

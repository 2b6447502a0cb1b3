-- ===== src/Core/Retrieval.antt =====
-- Retrieval of context for the prompt (internal/core/retrieval). The lists that the stores return
-- are the environment's; the texts made of them are computed.
use codereviewer.Prelude.{
  ℕ, Bool, not, ◌||◌, ◌&&◌, Option, none, some, List, [], ◌∷◌, ◌++◌, map, Text, codes, is_empty,
  nonempty, print_int, upper_char, ◌==◌, if◌then◌else◌,
}
use codereviewer.Prelude.Int.{pos, ltb_ℤ}
use codereviewer.Ports.{
  Vector, Result, ok, err, wrap, Outcome, unset, pending, accepted, dismissed, discussed,
  CodeChunkHit, CommentHit, Rule,
}
use codereviewer.Exec.{
  Env, M, ◌>>=◌, ◌>>◌, pure, call, cache_get, cache_put, embed, search_code, search_comments,
  list_rules,
}

abbrev pub default_code_k : ℕ
default_code_k = 15

abbrev pub default_comment_k : ℕ
default_comment_k = 8

-- the cached vector, if the lookup succeeded and it is not empty
unfoldable pub cache_hit : Result (Option Vector) → Option Vector
cache_hit (err e) = none
cache_hit (ok none) = none
cache_hit (ok (some [])) = none
cache_hit (ok (some (x ∷ v))) = some (x ∷ v)

-- the first vector of the answer, which must not be empty
unfoldable pub first_vector : Result (List Vector) → Result Vector
first_vector (err e) = err (wrap (codes "embed query") e)
first_vector (ok []) = err (codes "embed query: empty result")
first_vector (ok ([] ∷ vs)) = err (codes "embed query: empty result")
first_vector (ok ((x ∷ v) ∷ vs)) = ok (x ∷ v)

module _ (env : Env) where
  unfoldable pub lookup_cache : Bool → Text → M (Option Vector)
  lookup_cache cache key =
      if cache && not (is_empty key)
      then (do hit ← call (cache_get key) (λ t. env.cached t key); pure (cache_hit hit))
      else pure none

  -- the cache write is best-effort
  unfoldable pub store_vector : Bool → Text → Result Vector → M (Result Vector)
  store_vector cache key (err e) = pure (err e)
  store_vector cache key (ok v) =
      if cache && not (is_empty key)
      then (do call (cache_put key v) (λ t. env.put t key v); pure (ok v))
      else pure (ok v)

  unfoldable pub embed_missing : Bool → Text → Text → Text → Option Vector → M (Result Vector)
  embed_missing cache key text model (some v) = pure (ok v)
  embed_missing cache key text model none = do
    let truncated = env.truncate text model
    r ← call (embed truncated model) (λ t. env.embedded t truncated model)
    store_vector cache key (first_vector r)

  -- `cache` tells whether an embedding cache is wired in
  unfoldable pub embed_query : Bool → Text → Text → Text → M (Result Vector)
  embed_query cache key text model = do
    hit ← lookup_cache cache key
    embed_missing cache key text model hit

  unfoldable pub retrieve_code : Bool → Text → Vector → Text → ℕ → M (Result (List CodeChunkHit))
  retrieve_code wired repo_id query same_file k =
      if not wired || not (nonempty query)
      then pure (ok [])
      else (let n = if k == 0 then default_code_k else k in
          call (search_code repo_id query same_file n) (λ t. env.code t repo_id query same_file n))

  unfoldable pub retrieve_comments : Bool → Text → Vector → ℕ → M (Result (List CommentHit))
  retrieve_comments wired repo_id query k =
      if not wired || not (nonempty query)
      then pure (ok [])
      else (let n = if k == 0 then default_comment_k else k in
          call (search_comments repo_id query n) (λ t. env.comments t repo_id query n))

  unfoldable pub retrieve_rules : Bool → Text → List Text → M (Result (List Rule))
  retrieve_rules wired repo_id paths =
      if wired
      then call (list_rules repo_id paths) (λ t. env.rules t repo_id paths)
      else pure (ok [])

unfoldable pub format_code_hit : CodeChunkHit → Text
format_code_hit h =
    let header =
      if ltb_ℤ (pos 0) h.start_line
      then h.file_path ++ b':' ∷ (print_int h.start_line ++ b'-' ∷ print_int h.end_line)
      else h.file_path in
    let named =
      if is_empty h.symbol_name
      then header
      else header ++ (codes " (" ++ (h.symbol_name ++ codes ")")) in
    named ++ b'\n' ∷ h.content

unfoldable pub format_code : List CodeChunkHit → List Text
format_code = map format_code_hit

abbrev pub outcome_text : Outcome → Text
outcome_text unset = []
outcome_text pending = codes "pending"
outcome_text accepted = codes "accepted"
outcome_text dismissed = codes "dismissed"
outcome_text discussed = codes "discussed"

unfoldable pub outcome_tag : Outcome → Text
outcome_tag o =
    let tag = map upper_char (outcome_text o) in if is_empty tag then codes "PENDING" else tag

unfoldable pub format_comment_hit : CommentHit → Text
format_comment_hit h =
    b'[' ∷ (outcome_tag h.outcome ++ (codes "] " ++ (h.file_path ++ b'\n' ∷ h.comment_text)))

unfoldable pub format_comments : List CommentHit → List Text
format_comments = map format_comment_hit

unfoldable pub format_rules : List Rule → List Text
format_rules = map (λ r. r.title ++ b'\n' ∷ r.description)

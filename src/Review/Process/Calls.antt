-- ===== src/Review/Process/Calls.antt =====
-- How many events of a kind the stages of the review add, for any kind that leaves out all events
-- but the end of a run, the answer to a delivery and the checks.
use codereviewer.Prelude.{ℕ, zero, suc, ◌+◌, ◌≡◌, Bool, false, Option, none, some, List, Text}
use codereviewer.Ports.{Vector, Result, ok, err, PrRef, ChatRequest, ChatResponse, LlmTier}
use codereviewer.Exec.{Event, Env, Trace, M, call, is_watched}
use codereviewer.Exec.Counting.{Counts, Counts-pure, Counts-call_other, Counts-rest, Counts-if}
use codereviewer.Core.Retry.{
  RetryPolicy, pause, after_attempt, try_from, try_tier, try_fallback, after_primary,
  chat_with_retry,
}
use codereviewer.Core.Retrieval.{
  lookup_cache, store_vector, embed_missing, embed_query, retrieve_code, retrieve_comments,
  retrieve_rules,
}
use codereviewer.Review.Context.{safe_fetch, fetch_from, fetch_sections, Scored}

module _ (p : Event → Bool) (quiet : (e : Event) → is_watched e ≡ false → p e ≡ false)
    (env : Env) where
  pub other :
      {A : Type 0} (e : Event) (answer : Trace → A)
      → is_watched e ≡ false
      → Counts p 0 (call e answer)
  other e answer f = Counts-call_other e answer (quiet e f)

  pub Counts-pause :
      (w : ℕ) (next : M (Result ChatResponse)) → Counts p 0 next → Counts p 0 (pause env w next)
  unfolding pause
  Counts-pause w next h = search (Counts-pure, other, Counts-rest, Counts-if)

  Counts-after_attempt :
      (left w : ℕ) (tier : LlmTier) (max : ℕ) (next : M (Result ChatResponse))
      (r : Result ChatResponse)
      → Counts p 0 next
      → Counts p 0 (after_attempt env left w tier max next r)
  Counts-after_attempt left w tier max next (ok resp) h =
      unfold after_attempt in search (Counts-pure, other, Counts-rest, Counts-if)
  Counts-after_attempt left w tier max next (err e) h =
      unfold after_attempt in search (Counts-pure, other, Counts-rest, Counts-if, Counts-pause)

  pub Counts-try_from :
      (left attempt : ℕ) (req : ChatRequest) (tier : LlmTier) (max : ℕ) (backoff : List ℕ)
      → Counts p 0 (try_from env left attempt req tier max backoff)
  unfolding try_from
  Counts-try_from zero attempt req tier max backoff =
      search (Counts-pure, other, Counts-rest, Counts-if)
  Counts-try_from (suc left) attempt req tier max backoff =
      let rest = Counts-try_from left (attempt + 1) req tier max backoff in
      search (Counts-pure, other, Counts-rest, Counts-if, Counts-after_attempt)

  Counts-try_tier :
      (req : ChatRequest) (tier : LlmTier) (max : ℕ) (backoff : List ℕ)
      → Counts p 0 (try_tier env req tier max backoff)
  Counts-try_tier req tier max backoff =
      unfold try_tier in Counts-try_from max 0 (record req { tier = tier }) tier max backoff

  Counts-try_fallback :
      (req : ChatRequest) (policy : RetryPolicy) (e : Text)
      → Counts p 0 (try_fallback env req policy e)
  unfolding try_fallback
  Counts-try_fallback req policy e =
      search (Counts-pure, other, Counts-rest, Counts-if, Counts-try_tier)

  Counts-after_primary :
      (req : ChatRequest) (policy : RetryPolicy) (r : Result ChatResponse)
      → Counts p 0 (after_primary env req policy r)
  unfolding after_primary
  Counts-after_primary req policy (ok resp) = search Counts-pure
  Counts-after_primary req policy (err e) = search Counts-try_fallback

  pub Counts-chat_with_retry :
      (req : ChatRequest) (policy : RetryPolicy) → Counts p 0 (chat_with_retry env req policy)
  unfolding chat_with_retry
  Counts-chat_with_retry req policy =
      search (Counts-rest, Counts-if, Counts-try_tier, Counts-after_primary, Counts-try_fallback)

  Counts-lookup_cache : (cache : Bool) (key : Text) → Counts p 0 (lookup_cache env cache key)
  unfolding lookup_cache
  Counts-lookup_cache cache key = search (Counts-pure, other, Counts-rest, Counts-if)

  Counts-store_vector :
      (cache : Bool) (key : Text) (r : Result Vector) → Counts p 0 (store_vector env cache key r)
  unfolding store_vector
  Counts-store_vector cache key (ok v) = search (Counts-pure, other, Counts-rest, Counts-if)
  Counts-store_vector cache key (err e) = search Counts-pure

  Counts-embed_missing :
      (cache : Bool) (key text model : Text) (hit : Option Vector)
      → Counts p 0 (embed_missing env cache key text model hit)
  unfolding embed_missing
  Counts-embed_missing cache key text model (some v) = search Counts-pure
  Counts-embed_missing cache key text model none = search (other, Counts-rest, Counts-store_vector)

  pub Counts-embed_query :
      (cache : Bool) (key text model : Text) → Counts p 0 (embed_query env cache key text model)
  unfolding embed_query
  Counts-embed_query cache key text model =
      search (Counts-rest, Counts-lookup_cache, Counts-embed_missing)

  pub Counts-retrieve_code :
      (wired : Bool) (repo : Text) (v : Vector) (file : Text) (k : ℕ)
      → Counts p 0 (retrieve_code env wired repo v file k)
  unfolding retrieve_code
  Counts-retrieve_code wired repo v file k = search (Counts-pure, other, Counts-if)

  pub Counts-retrieve_comments :
      (wired : Bool) (repo : Text) (v : Vector) (k : ℕ)
      → Counts p 0 (retrieve_comments env wired repo v k)
  unfolding retrieve_comments
  Counts-retrieve_comments wired repo v k = search (Counts-pure, other, Counts-if)

  pub Counts-retrieve_rules :
      (wired : Bool) (repo : Text) (paths : List Text)
      → Counts p 0 (retrieve_rules env wired repo paths)
  unfolding retrieve_rules
  Counts-retrieve_rules wired repo paths = search (Counts-pure, other, Counts-if)

  Counts-fetch_from :
      (ref : PrRef) (n i : ℕ) (collected : List Scored)
      → Counts p 0 (fetch_from env ref n i collected)
  unfolding fetch_from
  Counts-fetch_from ref zero i collected = search Counts-pure
  Counts-fetch_from ref (suc n) i collected =
      Counts-rest (safe_fetch env ref i) _
        (unfold safe_fetch in search (Counts-pure, other, Counts-rest))
        (λ its. Counts-fetch_from ref n (i + 1) _)

  pub Counts-fetch_sections : (ref : PrRef) (n : ℕ) → Counts p 0 (fetch_sections env ref n)
  unfolding fetch_sections
  Counts-fetch_sections ref n = search (Counts-pure, Counts-rest, Counts-fetch_from)

-- ===== src/Review/Context.antt =====
-- `fetchContext`, `safeFetch`: the context sections for the prompt, by falling priority.
pub mod Sorting
use codereviewer.Prelude.{
  ℕ, zero, suc, ◌+◌, Bool, List, [], ◌∷◌, ◌++◌, map, reverse, is_empty, trim_space, if◌then◌else◌,
}
use codereviewer.Prelude.Int.{ℤ, ltb_ℤ}
use codereviewer.Ports.{PrRef, ContextItem}
use codereviewer.Core.Prompt.{ContextSection}
use codereviewer.Exec.{Env, Fetched, items, failed, panicking, M, ◌>>=◌, pure, call, fetch_context}

pub record Scored : Type 0 where
  pub section : ContextSection
  pub priority : ℤ

-- the items with a body, behind those collected so far
unfoldable pub collect : List Scored → List ContextItem → List Scored
collect collected [] = collected
collect collected (it ∷ its) =
    collect
      (if is_empty (trim_space it.body)
        then collected
        else collected
          ++ record {
            section = record { source = it.source; title = it.title; body = it.body };
            priority = it.priority;
          }
            ∷ [])
      its

-- The inner loop of the sort. The part that is sorted comes with its last entry first; `x` moves
-- towards its beginning past every entry of lower priority.
unfoldable pub sift : Scored → List Scored → List Scored
sift x [] = x ∷ []
sift x (p ∷ sorted) =
    let moved = sift x sorted in if ltb_ℤ p.priority x.priority then p ∷ moved else x ∷ p ∷ sorted

-- the outer loop
unfoldable pub insertion_sort : List Scored → List Scored → List Scored
insertion_sort sorted [] = sorted
insertion_sort sorted (x ∷ xs) = insertion_sort (sift x sorted) xs

unfoldable pub by_priority : List Scored → List Scored
by_priority collected = reverse (insertion_sort [] collected)

-- a provider that fails or panics contributes nothing
unfoldable pub items_of : Fetched → List ContextItem
items_of (items its) = its
items_of failed = []
items_of panicking = []

module _ (env : Env) (ref : PrRef) where
  unfoldable pub safe_fetch : ℕ → M (List ContextItem)
  safe_fetch provider = do
    r ← call (fetch_context provider ref) (λ t. env.fetched t provider ref)
    pure (items_of r)

  -- the providers from number `i` on, of which `n` are left
  unfoldable pub fetch_from : ℕ → ℕ → List Scored → M (List Scored)
  fetch_from zero i collected = pure collected
  fetch_from (suc n) i collected = do
    its ← safe_fetch i
    fetch_from n (i + 1) (collect collected its)

  unfoldable pub fetch_sections : ℕ → M (List ContextSection)
  fetch_sections providers = do
    collected ← fetch_from providers 0 []
    pure (map (λ s. s.section) (by_priority collected))

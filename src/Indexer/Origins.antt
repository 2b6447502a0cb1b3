-- ===== src/Indexer/Origins.antt =====
-- Where the embeddings of the chunks of a push come from.
use codereviewer.Prelude.{
  ◌≡◌, refl, sym, ◌∙◌, inl, inr, Bool-cases, List, [], ◌∷◌, map, Text, text_eq, text_eq_iff, All,
  All-append, is_some, length, nonempty, ◌==◌,
}
use codereviewer.Dict
use codereviewer.Dict.{Dict}
use codereviewer.Ports.{Vector, Result, ok, err, CodeChunkUpsert}
use codereviewer.Schemas.{IndexJob}
use codereviewer.Exec.{Env, Trace, ◌>>=◌, pure, call, cache_get_many, embed_many}
use codereviewer.RulesSync.{entries}
use codereviewer.RulesSync.Origins.{HasOrigins, IsHashed, cached-HasOrigins, fill-HasOrigins}
use codereviewer.Walks.{walk}
use codereviewer.Indexer.{
  Groups, add_chunk, add_chunks, group_of, to_embed, split_for_embedding, hash_of, cache_results,
  embed_hashes, after_lookup, embed_groups,
}

module _ (hash : Text → Text) where
  -- the chunk's hash is that of its content
  abbrev pub IsOwnHash : CodeChunkUpsert → Type 0
  IsOwnHash c = hash c.content ≡ c.content_hash

  -- the chunks have the group's hash
  abbrev pub IsHashedGroup : Text × List CodeChunkUpsert → Type 0
  IsHashedGroup g = All (λ c. hash c.content ≡ g.0) g.1

  add_chunk-IsHashedGroup :
      (groups : Groups) (c : CodeChunkUpsert)
      → IsOwnHash c
      → All IsHashedGroup groups
      → All IsHashedGroup (add_chunk groups c)
  unfolding add_chunk
  add_chunk-IsHashedGroup [] c own _ = ((own, tt), tt)
  add_chunk-IsHashedGroup ((h, group) ∷ rest) c own (same, later) =
      elim (Bool-cases (text_eq h c.content_hash)) [
        | inl e ↦
            let here : hash c.content ≡ h = own ∙ sym ((text_eq_iff h c.content_hash).0 e) in
            rw e (All-append (λ x. hash x.content ≡ h) group (c ∷ []) same (here, tt), later)
        | inr e ↦ rw e (same, add_chunk-IsHashedGroup rest c own later)
      ]

  pub add_chunks-IsHashedGroup :
      (groups : Groups) (cs : List CodeChunkUpsert)
      → All IsOwnHash cs
      → All IsHashedGroup groups
      → All IsHashedGroup (add_chunks groups cs)
  unfolding add_chunks
  add_chunks-IsHashedGroup groups [] _ good = good
  add_chunks-IsHashedGroup groups (c ∷ cs) (own, rest) good =
      add_chunks-IsHashedGroup (add_chunk groups c) cs rest
        (add_chunk-IsHashedGroup groups c own good)

  group_of-hashed :
      (groups : Groups) (h : Text)
      → All IsHashedGroup groups
      → All (λ c. hash c.content ≡ h) (group_of groups h)
  unfolding group_of
  group_of-hashed [] h _ = tt
  group_of-hashed ((k, group) ∷ rest) h (same, later) = elim (Bool-cases (text_eq k h)) [
    | inl e ↦ rw (e, ← (text_eq_iff k h).0 e) same
    | inr e ↦ rw e (group_of-hashed rest h later)
  ]

  to_embed-IsHashed :
      (h : Text) (group : List CodeChunkUpsert) (later : List (Text × Text))
      → All (λ c. hash c.content ≡ h) group
      → All (IsHashed hash) later
      → All (IsHashed hash) (to_embed h group later)
  unfolding to_embed
  to_embed-IsHashed h [] later _ a = a
  to_embed-IsHashed h (c ∷ group) later (own, _) a = (own, a)

  split-IsHashed :
      (hs : List Text) (groups : Groups) (cached : Dict Vector)
      → All IsHashedGroup groups
      → All (IsHashed hash) (split_for_embedding hs groups cached)
  unfolding split_for_embedding
  split-IsHashed [] groups cached good = tt
  split-IsHashed (h ∷ hs) groups cached good = elim (Bool-cases (is_some (Dict.get cached h))) [
    | inl e ↦ rw e (split-IsHashed hs groups cached good)
    | inr e ↦ rw e (
        to_embed-IsHashed h (group_of groups h) _ (group_of-hashed groups h good)
          (split-IsHashed hs groups cached good))
  ]

module _ (env : Env) (job : IndexJob) (since : Trace) where
  module _ (hashes : List Text) (c : Dict Vector) (found : env.cached_many since hashes ≡ ok c)
      (todo : List (Text × Text)) (good : All (IsHashed env.content_hash) todo) where
    HasOrigins-cache_results :
        (r : Result (List Vector))
        → env.embedded_many (cache_get_many hashes ∷ since) (map (λ x. x.1) todo) ≡ r
        → HasOrigins env since (
            cache_results env job c todo r
              (embed_many (map (λ x. x.1) todo) ∷ cache_get_many hashes ∷ since))
    HasOrigins-cache_results (err e) given = unfold cache_results pure in tt
    HasOrigins-cache_results (ok vs) given = elim (Bool-cases (length vs == length todo)) [
      | inl e ↦
          unfold cache_results ◌>>=◌ call pure in
          rw e (fill-HasOrigins env since hashes c found todo vs (entries todo vs) good given)
      | inr e ↦ unfold cache_results pure in rw e tt
    ]

    HasOrigins-embed_hashes :
        HasOrigins env since (embed_hashes env job c todo (cache_get_many hashes ∷ since))
    HasOrigins-embed_hashes = elim (Bool-cases (nonempty todo)) [
      | inl e ↦ unfold embed_hashes ◌>>=◌ call in rw e (HasOrigins-cache_results _ refl)
      | inr e ↦ unfold embed_hashes pure in rw e (cached-HasOrigins env since hashes c found)
    ]

  HasOrigins-after_lookup :
      (hashes : List Text) (groups : Groups) (r : Result (Dict Vector))
      → All (IsHashedGroup env.content_hash) groups
      → env.cached_many since hashes ≡ r
      → HasOrigins env since (after_lookup env job hashes groups r (cache_get_many hashes ∷ since))
  HasOrigins-after_lookup hashes groups (err e) good found = unfold after_lookup pure in tt
  HasOrigins-after_lookup hashes groups (ok c) good found =
      unfold after_lookup in
      HasOrigins-embed_hashes hashes c found (split_for_embedding hashes groups c)
        (split-IsHashed env.content_hash hashes groups c good)

  -- the vectors for the groups of a push come from the cache or the LLM
  pub HasOrigins-embed_groups :
      (groups : Groups)
      → All (IsHashedGroup env.content_hash) groups
      → HasOrigins env since (embed_groups env job groups since)
  unfolding embed_groups ◌>>=◌ call
  HasOrigins-embed_groups groups good =
      HasOrigins-after_lookup (map hash_of (walk (env.map_order since) groups)) groups _ good refl

-- ===== src/Backfill/Origins.antt =====
-- Where the embeddings of past comments come from.
use codereviewer.Prelude.{
  ◌≡◌, refl, inl, inr, Bool-cases, List, ◌∷◌, map, Text, All, length, nonempty, ◌==◌,
}
use codereviewer.Prelude.Int.{ℤ}
use codereviewer.Dict.{Dict}
use codereviewer.Ports.{Vector, Result, ok, err}
use codereviewer.Exec.{Env, Trace, ◌>>=◌, pure, call, cache_get_many, embed_many}
use codereviewer.RulesSync.{missing, entries}
use codereviewer.RulesSync.Origins.{
  HasOrigins, IsHashed, missing-IsHashed, cached-HasOrigins, fill-HasOrigins,
}
use codereviewer.Backfill.{Args, use_vectors, embed_texts, use_cached, embed_comments}

module _ (env : Env) (args : Args) (pr : ℤ) where
  module _ (pairs : List (Text × Text)) where
    module _ (since : Trace) (hashes : List Text) (c : Dict Vector)
        (found : env.cached_many since hashes ≡ ok c) (todo : List (Text × Text))
        (good : All (IsHashed env.content_hash) todo) where
      HasOrigins-use_vectors :
          (r : Result (List Vector))
          → env.embedded_many (cache_get_many hashes ∷ since) (map (λ x. x.1) todo) ≡ r
          → HasOrigins env since (
              use_vectors env args pr c todo r
                (embed_many (map (λ x. x.1) todo) ∷ cache_get_many hashes ∷ since))
      HasOrigins-use_vectors (err e) given = unfold use_vectors pure in tt
      HasOrigins-use_vectors (ok vs) given = elim (Bool-cases (length vs == length todo)) [
        | inl e ↦
            unfold use_vectors ◌>>=◌ call pure in
            rw e (fill-HasOrigins env since hashes c found todo vs (entries todo vs) good given)
        | inr e ↦ unfold use_vectors pure in rw e tt
      ]

      HasOrigins-embed_texts :
          HasOrigins env since (embed_texts env args pr c todo (cache_get_many hashes ∷ since))
      HasOrigins-embed_texts = elim (Bool-cases (nonempty todo)) [
        | inl e ↦ unfold embed_texts ◌>>=◌ call in rw e (HasOrigins-use_vectors _ refl)
        | inr e ↦ unfold embed_texts pure in rw e (cached-HasOrigins env since hashes c found)
      ]

    HasOrigins-use_cached :
        (since : Trace) (hashes : List Text) (r : Result (Dict Vector))
        → All (IsHashed env.content_hash) pairs
        → env.cached_many since hashes ≡ r
        → HasOrigins env since (use_cached env args pr pairs r (cache_get_many hashes ∷ since))
    HasOrigins-use_cached since hashes (err e) good found = unfold use_cached pure in tt
    HasOrigins-use_cached since hashes (ok c) good found =
        unfold use_cached in
        HasOrigins-embed_texts since hashes c found (missing c pairs)
          (missing-IsHashed env.content_hash c pairs good)

    -- the vectors of the texts come from the cache or the LLM
    pub HasOrigins-embed_comments :
        (t : Trace)
        → All (IsHashed env.content_hash) pairs
        → HasOrigins env t (embed_comments env args pr pairs t)
    unfolding embed_comments ◌>>=◌ call
    HasOrigins-embed_comments t good =
        HasOrigins-use_cached t (map (λ x. x.0) pairs) (env.cached_many t (map (λ x. x.0) pairs))
          good refl

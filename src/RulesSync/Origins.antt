-- ===== src/RulesSync/Origins.antt =====
-- Where the embeddings come from that the pipelines look up: each from the cache, or from the LLM
-- for a text with its hash.
use codereviewer.Prelude.{
  ◌≡◌, refl, ◌∙◌, ◌⊎◌, inl, inr, true, Bool-cases, Option, none, some, List, [], ◌∷◌, ◌++◌, map,
  arith, Text, text_eq, text_eq_iff, All, is_some,
}
use codereviewer.Dict
use codereviewer.Dict.{Dict, get-put}
use codereviewer.Ports.{Vector, Result, ok, err}
use codereviewer.Exec.{
  Env, Trace, Run, returned, panicked, cache_get_many, embed_many, cache_put_many,
}
use codereviewer.RulesSync.{fill, missing}

-- `v` stands where some text with the hash `h` stands
abbrev pub IsPaired : (Text → Text) → Text → List Text → List Vector → Vector → Type 0
IsPaired hash h [] vs v = ⊥
IsPaired hash h (x ∷ xs) [] v = ⊥
IsPaired hash h (x ∷ xs) (w ∷ ws) v = ((hash x ≡ h) × (w ≡ v)) ⊎ IsPaired hash h xs ws v

-- Between the events `since` and `t` the cache was asked first of all. It gave the vector `v` for
-- the hash `h`; or the LLM was asked next, and gave it for a text with that hash.
pub data HasOrigin (env : Env) (since t : Trace) (h : Text) (v : Vector) : Type 0 where
  from_cache :
      (later : Trace) (hashes : List Text) (d : Dict Vector)
      → t ≡ later ++ cache_get_many hashes ∷ since
      → env.cached_many since hashes ≡ ok d
      → Dict.get d h ≡ some v
      → HasOrigin env since t h v
  from_llm :
      (later : Trace) (hashes texts : List Text) (vs : List Vector)
      → t ≡ later ++ embed_many texts ∷ cache_get_many hashes ∷ since
      → env.embedded_many (cache_get_many hashes ∷ since) texts ≡ ok vs
      → IsPaired env.content_hash h texts vs v
      → HasOrigin env since t h v

-- every vector that a lookup gave has an origin
abbrev pub HasOrigins : Env → Trace → Run (Result (Dict Vector)) × Trace → Type 0
HasOrigins env since (returned (ok vectors), t) =
    (h : Text) (v : Vector) → Dict.get vectors h ≡ some v → HasOrigin env since t h v
HasOrigins env since (returned (err e), t) = Unit
HasOrigins env since (panicked, t) = Unit

-- the pair is a text with its hash
abbrev pub IsHashed : (Text → Text) → Text × Text → Type 0
IsHashed hash p = hash p.1 ≡ p.0

pub missing-IsHashed :
    (hash : Text → Text) (c : Dict Vector) (pairs : List (Text × Text))
    → All (IsHashed hash) pairs
    → All (IsHashed hash) (missing c pairs)
unfolding missing
missing-IsHashed hash c [] _ = tt
missing-IsHashed hash c ((h, text) ∷ pairs) (own, rest) =
    elim (Bool-cases (is_some (Dict.get c h))) [
      | inl e ↦ rw e (missing-IsHashed hash c pairs rest)
      | inr e ↦ rw e (own, missing-IsHashed hash c pairs rest)
    ]

put_origin :
    (c : Dict Vector) (k h : Text) (w v : Vector)
    → Dict.get (Dict.put c k w) h ≡ some v
    → ((k ≡ h) × (w ≡ v)) ⊎ (Dict.get c h ≡ some v)
put_origin c k h w v e = elim (Bool-cases (text_eq k h)) [
  | inl s ↦ inl ((text_eq_iff k h).0 s, ground (arith, rw (get-put, s) at e))
  | inr s ↦ inr (rw (get-put, s) at e)
]

fill_origin :
    (hash : Text → Text) (c : Dict Vector) (todo : List (Text × Text)) (vs : List Vector) (h : Text)
    (v : Vector)
    → All (IsHashed hash) todo
    → Dict.get (fill c todo vs) h ≡ some v
    → (Dict.get c h ≡ some v) ⊎ IsPaired hash h (map (λ x. x.1) todo) vs v
unfolding fill
fill_origin hash c [] vs h v _ e = inl e
fill_origin hash c (p ∷ todo) [] h v _ e = inl e
fill_origin hash c ((k, text) ∷ todo) (w ∷ ws) h v (own, rest) e =
    elim (fill_origin hash (Dict.put c k w) todo ws h v rest e) [
      | inl before ↦ elim (put_origin c k h w v before) [
        | inl (same, new) ↦ inr (inl (own ∙ same, new))
        | inr old ↦ inl old
      ]
      | inr later ↦ inr (inr later)
    ]

module _ (env : Env) (since : Trace) (hashes : List Text) (c : Dict Vector)
    (found : env.cached_many since hashes ≡ ok c) where
  pub cached-HasOrigins : HasOrigins env since (returned (ok c), cache_get_many hashes ∷ since)
  cached-HasOrigins h v e = from_cache [] hashes c refl found e

  pub fill-HasOrigins :
      (todo : List (Text × Text)) (vs : List Vector) (entries : List (Text × Vector))
      → All (IsHashed env.content_hash) todo
      → env.embedded_many (cache_get_many hashes ∷ since) (map (λ x. x.1) todo) ≡ ok vs
      → HasOrigins env since (
        returned (ok (fill c todo vs)),
        cache_put_many entries ∷ embed_many (map (λ x. x.1) todo) ∷ cache_get_many hashes ∷ since,
      )
  fill-HasOrigins todo vs entries good given h v e =
      elim (fill_origin env.content_hash c todo vs h v good e) [
        | inl old ↦
            from_cache (cache_put_many entries ∷ embed_many (map (λ x. x.1) todo) ∷ []) hashes c
              refl found old
        | inr new ↦
            from_llm (cache_put_many entries ∷ []) hashes (map (λ x. x.1) todo) vs refl given new
      ]

-- what is known is some vector
pub known_value : (found : Option Vector) → is_some found ≡ true → (v : Vector) × (found ≡ some v)
known_value none h = absurd (ground arith)
known_value (some v) h = (v, refl)

-- ===== src/RulesSync/Embeddings.antt =====
-- The embeddings that the sync of rules gets: one for each rule, from the cache or the LLM.
use codereviewer.Prelude.{
  ◌≡◌, refl, subst, true, false, List, [], ◌∷◌, arith, Text, text_eq, All, Bool-cases, inl, inr,
  is_some, length, map, nonempty, ◌==◌,
}
use codereviewer.Dict
use codereviewer.Dict.{Dict, get-put, get-put_self}
use codereviewer.Ports.{Vector, Result, ok, err}
use codereviewer.Exec.{Env, Trace, Run, returned, panicked, ◌>>=◌, pure, call}
use codereviewer.RulesSync.{missing, fill, use_results, embed_todo, use_cache, embed}

-- the hash of a pair has a vector
abbrev pub IsKnown : Dict Vector → Text × Text → Type 0
IsKnown vectors p = is_some (Dict.get vectors p.0) ≡ true

put-knows :
    (c : Dict Vector) (k h : Text) (v : Vector)
    → is_some (Dict.get c h) ≡ true
    → is_some (Dict.get (Dict.put c k v) h) ≡ true
put-knows c k h v e = elim (Bool-cases (text_eq k h)) [
  | inl s ↦ rw (get-put, s) refl
  | inr s ↦ rw (get-put, s) e
]

put-knows_own :
    (c : Dict Vector) (h : Text) (v : Vector) → is_some (Dict.get (Dict.put c h v) h) ≡ true
put-knows_own c h v = rw get-put_self refl

pub fill-knows :
    (c : Dict Vector) (todo : List (Text × Text)) (vs : List Vector) (h : Text)
    → is_some (Dict.get c h) ≡ true
    → is_some (Dict.get (fill c todo vs) h) ≡ true
unfolding fill
fill-knows c [] vs h e = e
fill-knows c (t ∷ todo) [] h e = e
fill-knows c ((k, text) ∷ todo) (v ∷ vs) h e =
    fill-knows (Dict.put c k v) todo vs h (put-knows c k h v e)

pub fill-All :
    (c : Dict Vector) (todo : List (Text × Text)) (vs : List Vector)
    → length vs ≡ length todo
    → All (IsKnown (fill c todo vs)) todo
unfolding fill
fill-All c [] vs h = tt
fill-All c (t ∷ todo) [] h = absurd (omega (arith, h))
fill-All c ((k, text) ∷ todo) (v ∷ vs) h = (
  fill-knows (Dict.put c k v) todo vs k (put-knows_own c k v),
  fill-All (Dict.put c k v) todo vs (omega (arith, h)),
)

missing_known :
    (c : Dict Vector) (h text : Text) (rest : List (Text × Text))
    → is_some (Dict.get c h) ≡ true
    → missing c ((h, text) ∷ rest) ≡ missing c rest
unfolding missing
missing_known c h text rest e = rw e refl

missing_new :
    (c : Dict Vector) (h text : Text) (rest : List (Text × Text))
    → is_some (Dict.get c h) ≡ false
    → missing c ((h, text) ∷ rest) ≡ (h, text) ∷ missing c rest
unfolding missing
missing_new c h text rest e = rw e refl

missing_lem :
    (c d : Dict Vector) (pairs : List (Text × Text))
    → ((h : Text) → is_some (Dict.get c h) ≡ true → is_some (Dict.get d h) ≡ true)
    → All (IsKnown d) (missing c pairs)
    → All (IsKnown d) pairs
missing_lem c d [] k a = tt
missing_lem c d ((h, text) ∷ rest) k a = elim (Bool-cases (is_some (Dict.get c h))) [
  | inl e ↦
      (k h e, missing_lem c d rest k (subst (All (IsKnown d)) (missing_known c h text rest e) a))
  | inr e ↦
      let (now, later) = subst (All (IsKnown d)) (missing_new c h text rest e) a in
      (now, missing_lem c d rest k later)
]

pub empty_All :
    (c : Dict Vector) (todo : List (Text × Text)) → nonempty todo ≡ false → All (IsKnown c) todo
empty_All c [] h = tt
empty_All c (t ∷ todo) h = absurd (ground arith)

-- with as many vectors as hashes are missing, all are known
pub fill-missing-All :
    (c : Dict Vector) (pairs : List (Text × Text)) (vs : List Vector)
    → (length vs == length (missing c pairs)) ≡ true
    → All (IsKnown (fill c (missing c pairs) vs)) pairs
fill-missing-All c pairs vs e =
    missing_lem c (fill c (missing c pairs) vs) pairs (fill-knows c (missing c pairs) vs)
      (fill-All c (missing c pairs) vs (ground (arith, e)))

-- with no hash missing, all are known
pub none_missing-All :
    (c : Dict Vector) (pairs : List (Text × Text))
    → nonempty (missing c pairs) ≡ false
    → All (IsKnown c) pairs
none_missing-All c pairs e =
    missing_lem c c pairs (λ h known. known) (empty_All c (missing c pairs) e)

abbrev pub Covers : List (Text × Text) → Run (Result (Dict Vector)) → Type 0
Covers pairs (returned (ok vectors)) = All (IsKnown vectors) pairs
Covers pairs (returned (err e)) = Unit
Covers pairs panicked = ⊥

module _ (env : Env) (pairs : List (Text × Text)) where
  Covers-use_results :
      (c : Dict Vector) (r : Result (List Vector)) (t : Trace)
      → Covers pairs (use_results env c (missing c pairs) r t).0
  Covers-use_results c (err e) t = unfold use_results pure in tt
  Covers-use_results c (ok vs) t = elim (Bool-cases (length vs == length (missing c pairs))) [
    | inl e ↦ unfold use_results ◌>>=◌ call pure in rw e (fill-missing-All c pairs vs e)
    | inr e ↦ unfold use_results pure in rw e tt
  ]

  Covers-embed_todo :
      (c : Dict Vector) (t : Trace) → Covers pairs (embed_todo env c (missing c pairs) t).0
  Covers-embed_todo c t = elim (Bool-cases (nonempty (missing c pairs))) [
    | inl e ↦
        unfold embed_todo ◌>>=◌ call in
        rw e (Covers-use_results c (env.embedded_many t (map (λ x. x.1) (missing c pairs))) _)
    | inr e ↦ unfold embed_todo pure in rw e (none_missing-All c pairs e)
  ]

  Covers-use_cache :
      (r : Result (Dict Vector)) (t : Trace) → Covers pairs (use_cache env pairs r t).0
  Covers-use_cache (err e) t = unfold use_cache pure in tt
  Covers-use_cache (ok c) t = unfold use_cache in Covers-embed_todo c t

  -- Embedding the texts of the rules always returns, and when it does not fail, there is a vector
  -- for the hash of every text, whatever the cache had and the LLM returned.
  pub embed-Covers : (t : Trace) → Covers pairs (embed env pairs t).0
  unfolding embed ◌>>=◌ call
  embed-Covers t = Covers-use_cache (env.cached_many t (map (λ x. x.0) pairs)) _

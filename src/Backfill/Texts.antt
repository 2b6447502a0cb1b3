-- ===== src/Backfill/Texts.antt =====
-- Which comments of a pull request the backfill upserts, and with which vectors.
use codereviewer.Prelude.{
  ℕ, ◌≡◌, refl, subst, ◌∙◌, inl, inr, Bool, true, false, some, not, ◌||◌, List, [], ◌∷◌, map, arith,
  Text, text_eq, text_eq_iff, is_empty, All, Bool-cases, is_some, any_of, keep, length, nonempty,
  ◌==◌,
}
use codereviewer.Prelude.Int.{ℤ}
use codereviewer.Dict
use codereviewer.Dict.{Dict}
use codereviewer.Ports.{Vector, Result, ok, err, CommentUpsert, HumanComment}
use codereviewer.Exec.{
  Env, Trace, Run, returned, panicked, continue, ◌>>=◌, pure, call, upsert_comment,
  list_pr_comments,
}
use codereviewer.RulesSync.{missing}
use codereviewer.Backfill.Origins.{HasOrigins-embed_comments}
use codereviewer.RulesSync.Origins.{HasOrigin, HasOrigins, IsHashed, known_value}
use codereviewer.RulesSync.Embeddings.{IsKnown, Covers, fill-missing-All, none_missing-All}
use codereviewer.Backfill.{
  Args, embed_text, distinct_texts, past_ref, count_ok, use_vectors, embed_texts, use_cached,
  embed_comments, past_upsert, upsert_past, upsert_all, upsert_comments, use_comments, process_pr,
}

abbrev pub has_text : HumanComment → Bool
has_text c = not (is_empty (embed_text c))

module _ (hash : Text → Text) where
  abbrev text_hash : HumanComment → Text
  text_hash c = hash (embed_text c)

  -- the comment's text has a vector
  abbrev pub IsEmbedded : Dict Vector → HumanComment → Type 0
  IsEmbedded d c = is_some (Dict.get d (text_hash c)) ≡ true

  abbrev is_skipped : List Text → HumanComment → Bool
  is_skipped seen c = is_empty (embed_text c) || any_of (text_eq (text_hash c)) seen

  distinct_skip :
      (seen : List Text) (c : HumanComment) (cs : List HumanComment)
      → is_skipped seen c ≡ true
      → distinct_texts hash seen (c ∷ cs) ≡ distinct_texts hash seen cs
  unfolding distinct_texts
  distinct_skip seen c cs h = rw h refl

  distinct_take :
      (seen : List Text) (c : HumanComment) (cs : List HumanComment)
      → is_skipped seen c ≡ false
      → distinct_texts hash seen (c ∷ cs)
        ≡ (text_hash c, embed_text c) ∷ distinct_texts hash (text_hash c ∷ seen) cs
  unfolding distinct_texts
  distinct_take seen c cs h = rw h refl

  seen_known :
      (d : Dict Vector) (seen : List Text) (h : Text)
      → All (λ k. is_some (Dict.get d k) ≡ true) seen
      → any_of (text_eq h) seen ≡ true
      → is_some (Dict.get d h) ≡ true
  seen_known d [] h a e = absurd (ground arith)
  seen_known d (k ∷ seen) h (now, a) e = elim (Bool-cases (text_eq h k)) [
    | inl same ↦ rw ((text_eq_iff h k).0 same) now
    | inr other ↦ seen_known d seen h a (ground (arith, other))
  ]

  keep_more :
      (P : HumanComment → Type 0) (c : HumanComment) (cs : List HumanComment)
      → (is_empty (embed_text c) ≡ false → P c)
      → All P (keep has_text cs)
      → All P (keep has_text (c ∷ cs))
  keep_more P c cs p a = elim (Bool-cases (is_empty (embed_text c))) [
    | inl e ↦ rw e a
    | inr e ↦ rw e (p e, a)
  ]

  pub distinct_texts-covers :
      (d : Dict Vector) (seen : List Text) (cs : List HumanComment)
      → All (λ k. is_some (Dict.get d k) ≡ true) seen
      → All (IsKnown d) (distinct_texts hash seen cs)
      → All (IsEmbedded d) (keep has_text cs)
  distinct_texts-covers d seen [] s a = tt
  distinct_texts-covers d seen (c ∷ cs) s a = elim (Bool-cases (is_skipped seen c)) [
    | inl e ↦
        keep_more (IsEmbedded d) c cs
          (λ filled. seen_known d seen (text_hash c) s (ground (arith, e, filled)))
          (distinct_texts-covers d seen cs s
            (subst (All (IsKnown d)) (distinct_skip seen c cs e) a))
    | inr e ↦
        let (now, later) = subst (All (IsKnown d)) (distinct_take seen c cs e) a in
        keep_more (IsEmbedded d) c cs (λ filled. now)
          (distinct_texts-covers d (text_hash c ∷ seen) cs (now, s) later)
  ]

  pub distinct_texts-IsHashed :
      (seen : List Text) (cs : List HumanComment)
      → All (IsHashed hash) (distinct_texts hash seen cs)
  distinct_texts-IsHashed seen [] = unfold distinct_texts in tt
  distinct_texts-IsHashed seen (c ∷ cs) = elim (Bool-cases (is_skipped seen c)) [
    | inl e ↦ rw (distinct_skip seen c cs e) (distinct_texts-IsHashed seen cs)
    | inr e ↦ rw (distinct_take seen c cs e) (refl, distinct_texts-IsHashed (text_hash c ∷ seen) cs)
  ]

  -- no hash among the pairs is in the list, and they are distinct
  abbrev pub AreNew : List Text → List (Text × Text) → Type 0
  AreNew seen [] = Unit
  AreNew seen (p ∷ ps) = (any_of (text_eq p.0) seen ≡ false) × AreNew (p.0 ∷ seen) ps

  distinct_new :
      (seen : List Text) (cs : List HumanComment) → AreNew seen (distinct_texts hash seen cs)
  distinct_new seen [] = unfold distinct_texts in tt
  distinct_new seen (c ∷ cs) = elim (Bool-cases (is_skipped seen c)) [
    | inl e ↦ rw (distinct_skip seen c cs e) (distinct_new seen cs)
    | inr e ↦
        rw (distinct_take seen c cs e) (ground (arith, e), distinct_new (text_hash c ∷ seen) cs)
  ]

module _ (env : Env) (args : Args) (pr : ℤ) where
  module _ (pairs : List (Text × Text)) where
    Covers-use_vectors :
        (c : Dict Vector) (r : Result (List Vector)) (t : Trace)
        → Covers pairs (use_vectors env args pr c (missing c pairs) r t).0
    Covers-use_vectors c (err e) t = unfold use_vectors pure in tt
    Covers-use_vectors c (ok vs) t = elim (Bool-cases (length vs == length (missing c pairs))) [
      | inl e ↦ unfold use_vectors ◌>>=◌ call pure in rw e (fill-missing-All c pairs vs e)
      | inr e ↦ unfold use_vectors pure in rw e tt
    ]

    Covers-embed_texts :
        (c : Dict Vector) (t : Trace)
        → Covers pairs (embed_texts env args pr c (missing c pairs) t).0
    Covers-embed_texts c t = elim (Bool-cases (nonempty (missing c pairs))) [
      | inl e ↦
          unfold embed_texts ◌>>=◌ call in
          rw e (Covers-use_vectors c (env.embedded_many t (map (λ x. x.1) (missing c pairs))) _)
      | inr e ↦ unfold embed_texts pure in rw e (none_missing-All c pairs e)
    ]

    Covers-use_cached :
        (r : Result (Dict Vector)) (t : Trace) → Covers pairs (use_cached env args pr pairs r t).0
    Covers-use_cached (err e) t = unfold use_cached pure in tt
    Covers-use_cached (ok c) t = unfold use_cached in Covers-embed_texts c t

    Covers-embed_comments : (t : Trace) → Covers pairs (embed_comments env args pr pairs t).0
    unfolding embed_comments ◌>>=◌ call
    Covers-embed_comments t = Covers-use_cached (env.cached_many t (map (λ x. x.0) pairs)) _

  -- the upserts of comments, one after the other
  abbrev pub logged : List CommentUpsert → Trace → Trace
  logged [] t = t
  logged (u ∷ us) t = logged us (upsert_comment u ∷ t)

  abbrev pub upserts_for : Dict Vector → List HumanComment → List CommentUpsert
  upserts_for vectors cs = map (past_upsert env args pr vectors) (keep has_text cs)

  upsert_all_skip :
      (vectors : Dict Vector) (c : HumanComment) (cs : List HumanComment) (n : ℕ) (t : Trace)
      → is_empty (embed_text c) ≡ true
      → upsert_all env args pr vectors (c ∷ cs) n t ≡ upsert_all env args pr vectors cs n t
  unfolding upsert_all upsert_past ◌>>=◌ pure
  upsert_all_skip vectors c cs n t h = rw h refl

  upsert_all_take :
      (vectors : Dict Vector) (c : HumanComment) (cs : List HumanComment) (n : ℕ) (t : Trace)
      → is_empty (embed_text c) ≡ false
      → upsert_all env args pr vectors (c ∷ cs) n t
        ≡ upsert_all env args pr vectors cs
            (count_ok (env.upserted t (past_upsert env args pr vectors c)) n)
            (upsert_comment (past_upsert env args pr vectors c) ∷ t)
  unfolding upsert_all upsert_past ◌>>=◌ call pure
  upsert_all_take vectors c cs n t h = rw h refl

  pub upsert_all_lem :
      (vectors : Dict Vector) (cs : List HumanComment) (n : ℕ) (t : Trace)
      → (k : ℕ) × (upsert_all env args pr vectors cs n t
          ≡ (returned k, logged (upserts_for vectors cs) t))
  upsert_all_lem vectors [] n t = unfold upsert_all pure in (n, refl)
  upsert_all_lem vectors (c ∷ cs) n t = elim (Bool-cases (is_empty (embed_text c))) [
    | inl e ↦
        let (k, rest) = upsert_all_lem vectors cs n t in
        (k, upsert_all_skip vectors c cs n t e ∙ (rw e rest))
    | inr e ↦
        let (k, rest) =
          upsert_all_lem vectors cs
            (count_ok (env.upserted t (past_upsert env args pr vectors c)) n)
            (upsert_comment (past_upsert env args pr vectors c) ∷ t) in
        (k, upsert_all_take vectors c cs n t e ∙ (rw e rest))
  ]

  -- The comment's text has a vector, which the cache had or the LLM gave for a text with its hash,
  -- between `since` and `t`.
  abbrev pub HasOwnVector : Trace → Trace → Dict Vector → HumanComment → Type 0
  HasOwnVector since t vectors c =
      (v : Vector) × (Dict.get vectors (env.content_hash (embed_text c)) ≡ some v)
      × HasOrigin env since t (env.content_hash (embed_text c)) v

  own_vectors :
      (since t : Trace) (vectors : Dict Vector) (cs : List HumanComment)
      → HasOrigins env since (returned (ok vectors), t)
      → All (IsEmbedded env.content_hash vectors) cs
      → All (HasOwnVector since t vectors) cs
  own_vectors since t vectors [] o _ = tt
  own_vectors since t vectors (c ∷ cs) o (known, rest) =
      let (v, e) = known_value (Dict.get vectors (env.content_hash (embed_text c))) known in
      ((v, e, o (env.content_hash (embed_text c)) v e), own_vectors since t vectors cs o rest)

  -- The last things done were the upserts of the comments with text, each once and in order, with
  -- the vectors of their texts. `since` is when the comments were listed.
  abbrev pub Ingests : List HumanComment → Trace → Run (Result ℕ) × Trace → Type 0
  Ingests cs since (returned (ok n), u) =
      (vectors : Dict Vector) × (older : Trace) × (u ≡ logged (upserts_for vectors cs) older)
      × All (HasOwnVector since older vectors) (keep has_text cs)
  Ingests cs since (returned (err e), u) = Unit
  Ingests cs since (panicked, u) = ⊥

  Ingests-upsert_comments :
      (cs : List HumanComment) (since : Trace) (r : Run (Result (Dict Vector))) (t : Trace)
      → Covers (distinct_texts env.content_hash [] cs) r
      → HasOrigins env since (r, t)
      → Ingests cs since (continue r (upsert_comments env args pr cs) t)
  Ingests-upsert_comments cs since (returned (err e)) t a o = unfold upsert_comments pure in tt
  Ingests-upsert_comments cs since (returned (ok vectors)) t a o =
      let (k, all) = upsert_all_lem vectors cs 0 t in
      unfold upsert_comments ◌>>=◌ pure in
      rw all (
        vectors,
        t,
        refl,
        own_vectors since t vectors (keep has_text cs) o
            (distinct_texts-covers env.content_hash vectors [] cs tt a),
      )
  Ingests-upsert_comments cs since panicked t a o = a

  Ingests-use_comments :
      (cs : List HumanComment) (t : Trace) → Ingests cs t (use_comments env args pr (ok cs) t)
  unfolding use_comments ◌>>=◌
  Ingests-use_comments [] t = unfold pure in (Dict.empty, t, refl, tt)
  Ingests-use_comments (c ∷ cs) t =
      let pairs = distinct_texts env.content_hash [] (c ∷ cs) in
      Ingests-upsert_comments (c ∷ cs) t (embed_comments env args pr pairs t).0 _
        (Covers-embed_comments pairs t)
        (HasOrigins-embed_comments env args pr pairs t
          (distinct_texts-IsHashed env.content_hash [] (c ∷ cs)))

  -- A pull request whose comments can be listed: its backfill returns; when it does not fail, its
  -- last calls upsert the comments that have a text, each once and in their order, and no other
  -- comment, and each of them is upserted with the vector of its text's hash: one that the cache
  -- had, or that the LLM gave for a text with that hash.
  pub process_pr-Ingests :
      (cs : List HumanComment) (t : Trace)
      → env.human_comments t (past_ref args pr) ≡ ok cs
      → Ingests cs (list_pr_comments (past_ref args pr) ∷ t) (process_pr env args pr t)
  unfolding process_pr ◌>>=◌ call
  process_pr-Ingests cs t listed = rw listed (Ingests-use_comments cs _)

-- The texts of the comments of a pull request are embedded under distinct hashes.
pub distinct_texts-AreNew :
    (hash : Text → Text) (cs : List HumanComment) → AreNew hash [] (distinct_texts hash [] cs)
distinct_texts-AreNew hash cs = distinct_new hash [] cs

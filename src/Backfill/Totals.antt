-- ===== src/Backfill/Totals.antt =====
-- What the number that the backfill returns means.
use codereviewer.Prelude.{
  ℕ, ◌+◌, ◌≡◌, refl, ◌∙◌, Bool, true, false, Option, none, some, List, [], ◌∷◌, arith, Text,
  Bool-cases, inl, inr, is_empty, if◌then◌else◌,
}
use codereviewer.Prelude.Int.{ℤ}
use codereviewer.Dict.{Dict}
use codereviewer.Ports.{Time, Vector, Result, ok, err, CommentUpsert, HumanComment}
use codereviewer.Exec.{
  Event, Env, Trace, Run, returned, panicked, M, continue, ◌>>=◌, pure, call, upsert_comment,
}
use codereviewer.Exec.Counting.{is_returned}
use codereviewer.Backfill.{
  Args, embed_text, count_ok, use_vectors, embed_texts, use_cached, embed_comments, past_upsert,
  upsert_past, upsert_all, upsert_comments, use_comments, process_pr, add_ok, process_prs, use_prs,
  now_of, run_backfill,
}

abbrev upsert_in : Event → Option CommentUpsert
upsert_in (upsert_comment c) = some c
upsert_in _ = none

-- one upsert that worked, or none
abbrev accepted : Result Text → ℕ
accepted (ok id) = 1
accepted (err e) = 0

module _ (env : Env) where
  abbrev accepted_at : Trace → Option CommentUpsert → ℕ
  accepted_at t none = 0
  accepted_at t (some c) = accepted (env.upserted t c)

  -- how many upserts of comments the store accepted
  abbrev pub stored : Trace → ℕ
  stored [] = 0
  stored (e ∷ t) = accepted_at t (upsert_in e) + stored t

  -- The action returns, and the store accepts no comment in it.
  record IsQuiet {A : Type 0} (m : M A) : Type 0 where
    returns : (t : Trace) → is_returned (m t).0 ≡ true
    stores : (t : Trace) → stored (m t).1 ≡ stored t

  Quiet-pure : {A : Type 0} (a : A) → IsQuiet (pure a)
  unfolding pure
  Quiet-pure a = record { returns = λ t. refl; stores = λ t. refl }

  Quiet-call :
      {A : Type 0} (e : Event) (answer : Trace → A) → upsert_in e ≡ none → IsQuiet (call e answer)
  unfolding call
  Quiet-call e answer h = record { returns = λ t. refl; stores = λ t. rw h (omega arith) }

  continue_quiet :
      {A B : Type 0} (r : Run A) (f : A → M B) (t : Trace)
      → is_returned r ≡ true
      → ((x : A) → IsQuiet (f x))
      → (is_returned (continue r f t).0 ≡ true) × (stored (continue r f t).1 ≡ stored t)
  continue_quiet (returned x) f t h k = ((k x).returns t, (k x).stores t)
  continue_quiet panicked f t h k = absurd (ground arith)

  Quiet-bind :
      {A B : Type 0} (m : M A) (f : A → M B)
      → IsQuiet m
      → ((x : A) → IsQuiet (f x))
      → IsQuiet (m >>= f)
  unfolding ◌>>=◌
  Quiet-bind m f km kf = record {
    returns = λ t. (continue_quiet (m t).0 f (m t).1 (km.returns t) kf).0;
    stores = λ t. (continue_quiet (m t).0 f (m t).1 (km.returns t) kf).1 ∙ km.stores t;
  }

  Quiet-if :
      {A : Type 0} (b : Bool) (x y : M A) → IsQuiet x → IsQuiet y → IsQuiet (if b then x else y)
  Quiet-if true x y kx ky = kx
  Quiet-if false x y kx ky = ky

  -- The action returns a number that has grown by as much as the store has accepted.
  abbrev Grows : ℕ → Trace → Run ℕ × Trace → Type 0
  Grows n t (returned m, u) = m + stored t ≡ n + stored u
  Grows n t (panicked, u) = ⊥

  -- The action returns how many comments the store accepted, or fails and stored none.
  abbrev pub Reports : Trace → Run (Result ℕ) × Trace → Type 0
  Reports t (returned (ok n), u) = stored u ≡ n + stored t
  Reports t (returned (err e), u) = stored u ≡ stored t
  Reports t (panicked, u) = ⊥

  Reports-later :
      (r : Run (Result ℕ) × Trace) (t u : Trace) → stored u ≡ stored t → Reports u r → Reports t r
  Reports-later (returned (ok n), v) t u e p = omega (arith, e, p)
  Reports-later (returned (err x), v) t u e p = p ∙ e
  Reports-later (panicked, v) t u e p = p

  Reports-continue :
      {A : Type 0} (r : Run A) (f : A → M (Result ℕ)) (t u : Trace)
      → is_returned r ≡ true
      → stored u ≡ stored t
      → ((x : A) (v : Trace) → Reports v (f x v))
      → Reports t (continue r f u)
  Reports-continue (returned x) f t u h e k = Reports-later (f x u) t u e (k x u)
  Reports-continue panicked f t u h e k = absurd (ground arith)

  Reports-rest :
      {A : Type 0} (m : M A) (f : A → M (Result ℕ)) (t : Trace)
      → IsQuiet m
      → ((x : A) (u : Trace) → Reports u (f x u))
      → Reports t ((m >>= f) t)
  unfolding ◌>>=◌
  Reports-rest m f t km k = Reports-continue (m t).0 f t (m t).1 (km.returns t) (km.stores t) k

  Grows-continue :
      (n : ℕ) (t : Trace) (r : Run ℕ × Trace) (f : ℕ → M ℕ)
      → Grows n t r
      → ((k : ℕ) (u : Trace) → Grows k u (f k u))
      → Grows n t (continue r.0 f r.1)
  Grows-continue n t (panicked, u) f g k = g
  Grows-continue n t (returned m, u) f g k = chain (f m u) (k m u)
    where
      chain : (r : Run ℕ × Trace) → Grows m u r → Grows n t r
      chain (returned j, v) p = omega (arith, g, p)
      chain (panicked, v) p = p

  Grows-Reports :
      (t : Trace) (r : Run ℕ × Trace)
      → Grows 0 t r
      → Reports t (continue r.0 (λ n. pure (ok n)) r.1)
  unfolding pure
  Grows-Reports t (returned n, u) g = omega (arith, g)
  Grows-Reports t (panicked, u) g = g

module _ (env : Env) (args : Args) where
  Grows-count : (r : Result Text) (n s : ℕ) → count_ok r n + s ≡ n + (accepted r + s)
  Grows-count (ok id) n s = omega arith
  Grows-count (err e) n s = omega arith

  module _ (pr : ℤ) where
    Grows-upsert_past :
        (vectors : Dict Vector) (c : HumanComment) (n : ℕ) (t : Trace)
        → Grows env n t (upsert_past env args pr vectors c n t)
    Grows-upsert_past vectors c n t = elim (Bool-cases (is_empty (embed_text c))) [
      | inl e ↦ unfold upsert_past pure in rw e refl
      | inr e ↦
          unfold upsert_past ◌>>=◌ call pure in
          rw e (Grows-count (env.upserted t (past_upsert env args pr vectors c)) n (stored env t))
    ]

    Grows-upsert_all :
        (vectors : Dict Vector) (cs : List HumanComment) (n : ℕ) (t : Trace)
        → Grows env n t (upsert_all env args pr vectors cs n t)
    unfolding upsert_all ◌>>=◌
    Grows-upsert_all vectors [] n t = unfold pure in refl
    Grows-upsert_all vectors (c ∷ cs) n t =
        Grows-continue env n t (upsert_past env args pr vectors c n t) _
          (Grows-upsert_past vectors c n t) (Grows-upsert_all vectors cs)

    Quiet-use_vectors :
        (cached : Dict Vector) (todo : List (Text × Text)) (r : Result (List Vector))
        → IsQuiet env (use_vectors env args pr cached todo r)
    unfolding use_vectors
    Quiet-use_vectors cached todo (err e) = search Quiet-pure
    Quiet-use_vectors cached todo (ok vs) = search (Quiet-pure, Quiet-call, Quiet-bind, Quiet-if)

    Quiet-embed_texts :
        (cached : Dict Vector) (todo : List (Text × Text))
        → IsQuiet env (embed_texts env args pr cached todo)
    unfolding embed_texts
    Quiet-embed_texts cached todo =
        search (Quiet-pure, Quiet-call, Quiet-bind, Quiet-if, Quiet-use_vectors)

    Quiet-use_cached :
        (pairs : List (Text × Text)) (r : Result (Dict Vector))
        → IsQuiet env (use_cached env args pr pairs r)
    unfolding use_cached
    Quiet-use_cached pairs (err e) = search Quiet-pure
    Quiet-use_cached pairs (ok cached) = search Quiet-embed_texts

    Quiet-embed_comments :
        (pairs : List (Text × Text)) → IsQuiet env (embed_comments env args pr pairs)
    unfolding embed_comments
    Quiet-embed_comments pairs =
        Quiet-bind env _ _ (Quiet-call env _ _ refl) (Quiet-use_cached pairs)

    Reports-upsert_comments :
        (cs : List HumanComment) (r : Result (Dict Vector)) (t : Trace)
        → Reports env t (upsert_comments env args pr cs r t)
    unfolding upsert_comments ◌>>=◌
    Reports-upsert_comments cs (err e) t = unfold pure in refl
    Reports-upsert_comments cs (ok vectors) t =
        Grows-Reports env t (upsert_all env args pr vectors cs 0 t)
          (Grows-upsert_all vectors cs 0 t)

    Reports-use_comments :
        (r : Result (List HumanComment)) (t : Trace) → Reports env t (use_comments env args pr r t)
    unfolding use_comments
    Reports-use_comments (err e) t = unfold pure in refl
    Reports-use_comments (ok []) t = unfold pure in omega arith
    Reports-use_comments (ok (c ∷ cs)) t =
        Reports-rest env _ _ t (Quiet-embed_comments _) (Reports-upsert_comments (c ∷ cs))

    Reports-process_pr : (t : Trace) → Reports env t (process_pr env args pr t)
    unfolding process_pr
    Reports-process_pr t = Reports-rest env _ _ t (Quiet-call env _ _ refl) Reports-use_comments

  Grows-add :
      (total : ℕ) (t : Trace) (r : Run (Result ℕ) × Trace) (f : Result ℕ → M ℕ)
      → Reports env t r
      → ((x : Result ℕ) (u : Trace) → Grows env (add_ok env args total x) u (f x u))
      → Grows env total t (continue r.0 f r.1)
  Grows-add total t (panicked, u) f p k = p
  Grows-add total t (returned x, u) f p k = chain x (f x u) p (k x u)
    where
      chain :
          (x : Result ℕ) (r : Run ℕ × Trace)
          → Reports env t (returned x, u)
          → Grows env (add_ok env args total x) u r
          → Grows env total t r
      chain (ok n) (returned j, v) p g = omega (arith, p, g)
      chain (ok n) (panicked, v) p g = g
      chain (err e) (returned j, v) p g = omega (arith, p, g)
      chain (err e) (panicked, v) p g = g

  Grows-process_prs :
      (prs : List ℤ) (total : ℕ) (t : Trace) → Grows env total t (process_prs env args prs total t)
  unfolding process_prs ◌>>=◌
  Grows-process_prs [] total t = unfold pure in refl
  Grows-process_prs (pr ∷ prs) total t =
      Grows-add total t (process_pr env args pr t) _ (Reports-process_pr pr t)
        (λ x. Grows-process_prs prs (add_ok env args total x))

  Reports-use_prs : (r : Result (List ℤ)) (t : Trace) → Reports env t (use_prs env args r t)
  unfolding use_prs ◌>>=◌
  Reports-use_prs (err e) t = unfold pure in refl
  Reports-use_prs (ok prs) t =
      Grows-Reports env t (process_prs env args prs 0 t) (Grows-process_prs prs 0 t)

  Quiet-now_of : (now : Option Time) → IsQuiet env (now_of env args now)
  Quiet-now_of (some now) = Quiet-pure env now
  Quiet-now_of none = Quiet-call env _ _ refl

  -- A backfill always returns. When it returns a number, this is how many comments the store
  -- accepted meanwhile, whatever pull requests failed on the way; when it returns an error, the
  -- store accepted none.
  pub run_backfill-Reports : (t : Trace) → Reports env t (run_backfill env args t)
  unfolding run_backfill
  run_backfill-Reports t =
      Reports-rest env _ _ t (Quiet-now_of args.now)
        λ now. λ u. Reports-rest env _ _ u (Quiet-call env _ _ refl) Reports-use_prs

-- ===== src/Adapters/Pushes.antt =====
-- What becomes of a push to Bitbucket, from its event to the index job.
use codereviewer.Prelude.{
  ◌≡◌, refl, sym, ap, ◌∙◌, true, false, List, [], ◌∷◌, ◌++◌, Text, codes, text_eq, text_eq_iff,
  text_eq_refl, All, Bool-cases, inl, inr, some, &&_right,
}
use codereviewer.Ports.{ok, PushPayload, WebhookEvent}
use codereviewer.Exec.{Env}
use codereviewer.Gateway.{
  Gateway, owned_repo, index_job, ensure_repo, publish_index_job, route, route_as, route_push,
}
use codereviewer.Adapters.Bitbucket.{
  BbRepo, BbPushChange, BbPushPayload, default_branch_or, bb_repo, bb_push_event, is_default_change,
  first_change, bb_push,
}

-- what the gateway reads of a push
abbrev pub push_of : BbRepo → BbPushChange → PushPayload
push_of r c = record {
  repo = bb_repo r;
  ref = codes "refs/heads/" ++ c.new_name;
  before_sha = c.old_hash;
  head_sha = c.new_hash;
}

-- the event is that of the first change of the default branch, and the gateway makes it a job
pub record IsFirstChange (r : BbRepo) (cs : List BbPushChange) (e : WebhookEvent) : Type 0 where
  pub before : List BbPushChange
  pub change : BbPushChange
  pub behind : List BbPushChange
  pub splits : cs ≡ before ++ change ∷ behind
  pub skipped :
      All
        (λ c. is_default_change (default_branch_or r.mainbranch_name (codes "main")) c ≡ false)
        before
  pub is_default :
      is_default_change (default_branch_or r.mainbranch_name (codes "main")) change ≡ true
  pub event : e ≡ bb_push_event r change
  pub publishes :
      (env : Env) (gw : Gateway) (provider : Text)
      → route env gw provider e
        ≡ ensure_repo env gw
            (owned_repo gw provider (bb_repo r))
            (publish_index_job env (index_job gw provider (push_of r change)))

first_change_take :
    (r : BbRepo) (c : BbPushChange) (cs : List BbPushChange)
    → is_default_change (default_branch_or r.mainbranch_name (codes "main")) c ≡ true
    → first_change r (c ∷ cs) ≡ ok (bb_push_event r c)
unfolding first_change
first_change_take r c cs h = rw h refl

first_change_skip :
    (r : BbRepo) (c : BbPushChange) (cs : List BbPushChange)
    → is_default_change (default_branch_or r.mainbranch_name (codes "main")) c ≡ false
    → first_change r (c ∷ cs) ≡ first_change r cs
unfolding first_change
first_change_skip r c cs h = rw h refl

is_default_name :
    (branch : Text) (c : BbPushChange) → is_default_change branch c ≡ true → c.new_name ≡ branch
is_default_name branch c h =
    (text_eq_iff c.new_name branch).0
      (&&_right (text_eq c.new_type (codes "branch")) (text_eq c.new_name branch) h)

same_ref : (ref branch name : Text) → name ≡ branch → text_eq (ref ++ name) (ref ++ branch) ≡ true
same_ref ref branch name h = rw h (text_eq_refl (ref ++ branch))

module _ (env : Env) (gw : Gateway) (provider : Text) where
  route_push_take :
      (p : PushPayload)
      → text_eq p.ref (codes "refs/heads/" ++ p.repo.default_branch) ≡ true
      → route_push env gw provider (some p)
        ≡ ensure_repo env gw
            (owned_repo gw provider p.repo)
            (publish_index_job env (index_job gw provider p))
  unfolding route_push
  route_push_take p h = rw h refl

  bb_push_event-publishes :
      (r : BbRepo) (c : BbPushChange)
      → is_default_change (default_branch_or r.mainbranch_name (codes "main")) c ≡ true
      → route env gw provider (bb_push_event r c)
        ≡ ensure_repo env gw
            (owned_repo gw provider (bb_repo r))
            (publish_index_job env (index_job gw provider (push_of r c)))
  unfolding route route_as bb_push_event
  bb_push_event-publishes r c h =
      route_push_take (push_of r c)
        (unfold bb_repo in same_ref (codes "refs/heads/") _ _ (is_default_name _ c h))

module _ (r : BbRepo) (e : WebhookEvent) where
  IsFirstChange-take :
      (c : BbPushChange) (cs : List BbPushChange)
      → is_default_change (default_branch_or r.mainbranch_name (codes "main")) c ≡ true
      → e ≡ bb_push_event r c
      → IsFirstChange r (c ∷ cs) e
  IsFirstChange-take c cs h is = record {
    before = [];
    change = c;
    behind = cs;
    splits = refl;
    skipped = tt;
    is_default = h;
    event = is;
    publishes = λ env gw provider.
        ap (route env gw provider) is ∙ bb_push_event-publishes env gw provider r c h;
  }

  IsFirstChange-skip :
      (c : BbPushChange) (cs : List BbPushChange)
      → is_default_change (default_branch_or r.mainbranch_name (codes "main")) c ≡ false
      → IsFirstChange r cs e
      → IsFirstChange r (c ∷ cs) e
  IsFirstChange-skip c cs h is = record {
    before = c ∷ is.before;
    change = is.change;
    behind = is.behind;
    splits = ap (λ xs. c ∷ xs) is.splits;
    skipped = (h, is.skipped);
    is_default = is.is_default;
    event = is.event;
    publishes = is.publishes;
  }

  first_change-IsFirstChange :
      (cs : List BbPushChange) → first_change r cs ≡ ok e → IsFirstChange r cs e
  first_change-IsFirstChange [] h = unfold first_change in cc
  first_change-IsFirstChange (c ∷ cs) h =
      elim (Bool-cases (is_default_change (default_branch_or r.mainbranch_name (codes "main")) c)) [
        | inl d ↦ let made = first_change_take r c cs d in IsFirstChange-take c cs d cc
        | inr d ↦
            IsFirstChange-skip c cs d
              (first_change-IsFirstChange cs (sym (first_change_skip r c cs d) ∙ h))
      ]

-- A Bitbucket push becomes the event of its first change of the default branch (the changes before
-- it are of other branches), and for that event the gateway records the repository and publishes an
-- index job: a push that is accepted is never dropped as one of another branch.
pub bb_push-IsFirstChange :
    (p : BbPushPayload) (e : WebhookEvent)
    → bb_push (ok p) ≡ ok e
    → IsFirstChange p.repository p.changes e
unfolding bb_push
bb_push-IsFirstChange p e h = first_change-IsFirstChange p.repository e p.changes h

-- ===== src/Schemas/Keys.antt =====
-- What an idempotency key identifies.
use codereviewer.Prelude.{
  ℕ, ◌≡◌, sym, ap, ◌∙◌, Text, codes, ◌∷◌, ◌++◌, ◌↔◌, arith, cut, cut-append, Lacks, print_int,
  print_int-injective, print_int-Lacks,
}
use codereviewer.Schemas.{ReviewJob, review_key, FeedbackJob, feedback_key}

-- Two texts split at their first `c` alike.
append-injective :
    (c : ℕ) (a b : Text) {s t : Text}
    → Lacks c a
    → Lacks c b
    → a ++ c ∷ s ≡ b ++ c ∷ t
    → (a ≡ b) × (s ≡ t)
append-injective c a b {s} {t} ha hb h =
    let same = sym (cut-append a c s ha) ∙ ap (λ u. cut u c) h ∙ cut-append b c t hb in
    (ground (arith, same), ground (arith, same))

-- Where no tenant and no repository has a colon in its name, two review jobs have the same key only
-- if they are about the same tenant, repository, pull request and head.
pub review_key-injective :
    (i j : ReviewJob)
    → Lacks b':' i.pr_ref.tenant_id
    → Lacks b':' j.pr_ref.tenant_id
    → Lacks b':' i.pr_ref.repo_id
    → Lacks b':' j.pr_ref.repo_id
    → review_key i ≡ review_key j
    → (i.pr_ref.tenant_id ≡ j.pr_ref.tenant_id)
      × (i.pr_ref.repo_id ≡ j.pr_ref.repo_id)
      × (i.pr_ref.pr_number ≡ j.pr_ref.pr_number)
      × (i.pr_ref.head_sha ≡ j.pr_ref.head_sha)
unfolding review_key
review_key-injective i j ti tj ri rj h =
    let (tenant, rest) =
      append-injective b':' i.pr_ref.tenant_id j.pr_ref.tenant_id ti tj (drop_title h) in
    let (repo, rest') = append-injective b':' i.pr_ref.repo_id j.pr_ref.repo_id ri rj rest in
    let (number, head) =
      append-injective b':' (print_int i.pr_ref.pr_number) (print_int j.pr_ref.pr_number)
        (print_int-Lacks i.pr_ref.pr_number) (print_int-Lacks j.pr_ref.pr_number) rest' in
    (tenant, repo, print_int-injective i.pr_ref.pr_number j.pr_ref.pr_number number, head)
  where
    drop_title : {a b : Text} → codes "review:" ++ a ≡ codes "review:" ++ b → a ≡ b
    drop_title h = cc

-- Where neither the kind nor the reaction holds a colon, two feedback jobs have the same key exactly
-- if they agree in the kind, the comment, the reaction and the author; the body does not count.
pub feedback_key_iff :
    (i j : FeedbackJob)
    → Lacks b':' i.kind
    → Lacks b':' j.kind
    → Lacks b':' i.reaction
    → Lacks b':' j.reaction
    → (feedback_key i ≡ feedback_key j) ↔ (
        (i.kind ≡ j.kind)
        × (i.comment_external_id ≡ j.comment_external_id)
        × (i.reaction ≡ j.reaction)
        × (i.author_id ≡ j.author_id))
unfolding feedback_key
feedback_key_iff i j ki kj ri rj = (parts, λ same. let (k, c, r, a) = same in cc)
  where
    drop_title : {a b : Text} → codes "feedback:" ++ a ≡ codes "feedback:" ++ b → a ≡ b
    drop_title h = cc

    parts :
        feedback_key i ≡ feedback_key j
        → (i.kind ≡ j.kind)
          × (i.comment_external_id ≡ j.comment_external_id)
          × (i.reaction ≡ j.reaction)
          × (i.author_id ≡ j.author_id)
    parts h =
        let (kind, rest) = append-injective b':' i.kind j.kind ki kj (drop_title h) in
        let (id, rest') =
          append-injective b':' (print_int i.comment_external_id) (print_int j.comment_external_id)
            (print_int-Lacks i.comment_external_id) (print_int-Lacks j.comment_external_id) rest in
        let (reaction, author) = append-injective b':' i.reaction j.reaction ri rj rest' in
        (kind, print_int-injective i.comment_external_id j.comment_external_id id, reaction, author)

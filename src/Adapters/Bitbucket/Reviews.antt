-- ===== src/Adapters/Bitbucket/Reviews.antt =====
-- What becomes of the ids of a review's comments (PostReview of
-- internal/adapters/vcsbitbucket/source.go, and the loop of the review pipeline that stores them).
use codereviewer.Prelude.{
  subst, ℕ, ◌≡◌, refl, ap, ◌∙◌, Bool, true, false, Option, none, some, List, ◌∷◌, Text,
  if◌then◌else◌,
}
use codereviewer.Prelude.Int.{ℤ}
use codereviewer.Ports.{Result, ok, err, PrRef, BotComment, ReviewPayload, PostedReview}
use codereviewer.Exec.{Env, Trace, ◌>>=◌, call, upsert_comment}
use codereviewer.Review.Posting.{upsert_of}
use codereviewer.Review.Publishing.{next_id, later_ids, persist}
use codereviewer.Adapters.Bitbucket.{
  PostAnswers, posted_id, inline_post, post_inline, with_summary, post_to, post_review,
  BbCommentPost,
}

-- where a review was posted, its comment ids are these
abbrev HasIds : List ℤ → Result PostedReview → Type 0
HasIds ids (ok posted) = posted.comment_ids ≡ ids
HasIds ids (err e) = Unit

HasIds-if :
    (b : Bool) (ids : List ℤ) (id : ℤ) (e : Text)
    → HasIds ids (if b then ok (record { review_id = id; comment_ids = ids }) else err e)
HasIds-if true ids id e = refl
HasIds-if false ids id e = tt

module _ (answers : PostAnswers) where
  with_summary-HasIds :
      (ids : List ℤ) (r : Result (ℕ × ℤ)) → HasIds ids (with_summary answers ids r)
  with_summary-HasIds ids (err e) = tt
  with_summary-HasIds ids (ok (status, id)) = HasIds-if _ ids id _

  post_to-HasIds :
      (review : ReviewPayload) (sent : List BbCommentPost) (repo : Option (Text × Text))
      → HasIds (post_inline answers review.comments sent).0 (post_to answers review sent repo)
  post_to-HasIds review sent none = tt
  post_to-HasIds review sent (some repo) =
      let posts = post_inline answers review.comments sent in
      with_summary-HasIds posts.0 (answers posts.1 (record { raw = review.body; inline = none }))

  post_review-HasIds :
      (ref : PrRef) (review : ReviewPayload) (sent : List BbCommentPost)
      → HasIds (post_inline answers review.comments sent).0 (post_review answers ref review sent)
  unfolding post_review
  post_review-HasIds ref review sent = post_to-HasIds review sent _

  post_inline_skip :
      (c : BotComment) (cs : List BotComment) (sent : List BbCommentPost)
      → posted_id (answers sent (inline_post c)) ≡ none
      → (post_inline answers (c ∷ cs) sent).0 ≡ (post_inline answers cs (inline_post c ∷ sent)).0
  unfolding post_inline
  post_inline_skip c cs sent h = rw h refl

  post_inline_take :
      (c : BotComment) (cs : List BotComment) (sent : List BbCommentPost) (id : ℤ)
      → posted_id (answers sent (inline_post c)) ≡ some id
      → (post_inline answers (c ∷ cs) sent).0
        ≡ id ∷ (post_inline answers cs (inline_post c ∷ sent)).0
  unfolding post_inline
  post_inline_take c cs sent id h = rw h refl

persist_next :
    (env : Env) (ref : PrRef) (c : BotComment) (cs : List BotComment) (ids : List ℤ) (t : Trace)
    → persist env ref (c ∷ cs) ids t
      ≡ persist env ref cs (later_ids ids) (upsert_comment (upsert_of ref c (next_id ids)) ∷ t)
unfolding persist ◌>>=◌ call
persist_next env ref c cs ids t = refl

-- When the first inline comment of a review cannot be posted, the second one can, and the review is
-- up, then the review pipeline stores the first comment under the id of the second.
pub persist-misattributes :
    (answers : PostAnswers) (env : Env) (ref : PrRef) (body : Text) (c d : BotComment)
    (cs : List BotComment) (sent : List BbCommentPost) (id : ℤ) (posted : PostedReview) (t : Trace)
    → posted_id (answers sent (inline_post c)) ≡ none
    → posted_id (answers (inline_post c ∷ sent) (inline_post d)) ≡ some id
    → post_review answers ref (record { body = body; comments = c ∷ d ∷ cs }) sent ≡ ok posted
    → persist env ref (c ∷ d ∷ cs) posted.comment_ids t
      ≡ persist env ref
          (d ∷ cs)
          (later_ids posted.comment_ids)
          (upsert_comment (upsert_of ref c (some id)) ∷ t)
persist-misattributes answers env ref body c d cs sent id posted t fails works up =
    let review : ReviewPayload = record { body = body; comments = c ∷ d ∷ cs } in
    let ids =
      subst (HasIds (post_inline answers (c ∷ d ∷ cs) sent).0) up
        (post_review-HasIds answers ref review sent) in
    let first =
      ids
      ∙ post_inline_skip answers c (d ∷ cs) sent fails
      ∙ post_inline_take answers d cs (inline_post c ∷ sent) id works in
    persist_next env ref c (d ∷ cs) posted.comment_ids t
    ∙ ap
        (λ i.
          persist env ref (d ∷ cs) (later_ids posted.comment_ids)
            (upsert_comment (upsert_of ref c i) ∷ t))
        (ap next_id first)

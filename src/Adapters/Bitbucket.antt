-- ===== src/Adapters/Bitbucket.antt =====
-- Bitbucket's webhooks (internal/adapters/vcsbitbucket/events.go and webhook.go) and the reviews
-- that are posted to it (PostReview of internal/adapters/vcsbitbucket/source.go).
pub mod Reviews
use codereviewer.Prelude.{
  ℕ, suc, ◌+◌, Bool, true, false, not, ◌||◌, ◌&&◌, Option, none, some, List, [], ◌∷◌, ◌++◌, map,
  Text, codes, text_eq, is_empty, cut, print_int, itoa, leb, ltb, if◌then◌else◌,
}
use codereviewer.Prelude.Int.{ℤ, pos, eqb_ℤ}
use codereviewer.Ports.{
  Result, ok, err, wrap, PrRef, RepoRef, BotComment, ReviewPayload, PostedReview, pull_request,
  push, review_comment, PullRequestPayload, PushPayload, ReviewCommentPayload, WebhookEvent,
}
use codereviewer.Adapters.Github.{parse_repo_id}
use codereviewer.Adapters.Signature.{Hashing, verify_signature}

pub record BbActor : Type 0 where
  pub display_name : Text
  pub account_id : Text
  pub nickname : Text
  pub type : Text

pub record BbRepo : Type 0 where
  pub full_name : Text
  pub mainbranch_name : Text

pub record BbPrPayload : Type 0 where
  pub repository : BbRepo
  pub id : ℤ
  pub source_hash : Text

pub record BbPushChange : Type 0 where
  pub new_type : Text
  pub new_name : Text
  pub new_hash : Text
  pub old_hash : Text

pub record BbPushPayload : Type 0 where
  pub repository : BbRepo
  pub changes : List BbPushChange

pub record BbCommentPayload : Type 0 where
  pub repository : BbRepo
  pub pr_id : ℤ
  pub source_hash : Text
  pub comment_id : ℤ
  pub raw : Text
  pub user : BbActor
  pub parent_id : Option ℤ

-- encoding/json, on the bodies of events
pub record BbJson : Type 0 where
  pub decode_pr : Text → Result BbPrPayload
  pub decode_push : Text → Result BbPushPayload
  pub decode_comment : Text → Result BbCommentPayload

abbrev pub name_parts : Text → Option (Text × Text) → Text × Text
name_parts full none = (full, [])
name_parts full (some parts) = parts

-- the owner and the name in a full name
unfoldable pub split_full_name : Text → Text × Text
split_full_name full = name_parts full (cut full b'/')

unfoldable pub default_branch_or : Text → Text → Text
default_branch_or v fallback = if is_empty v then fallback else v

unfoldable pub nickname_or : BbActor → Text
nickname_or a =
    if not (is_empty a.nickname)
    then a.nickname
    else if not (is_empty a.account_id)
    then a.account_id
    else a.display_name

unfoldable pub bb_repo : BbRepo → RepoRef
bb_repo r = record {
  tenant_id = [];
  repo_id = r.full_name;
  owner = (split_full_name r.full_name).0;
  name = (split_full_name r.full_name).1;
  default_branch = default_branch_or r.mainbranch_name (codes "main");
  enabled = false;
  provider = [];
}

unfoldable pub bb_ref : BbRepo → ℤ → Text → PrRef
bb_ref r id sha = record {
  tenant_id = [];
  repo_id = r.full_name;
  pr_number = id;
  head_sha = sha;
  provider = [];
}

unfoldable pub bb_pull_request : Text → Result BbPrPayload → Result WebhookEvent
bb_pull_request action (err e) = err (wrap (codes "parse pullrequest") e)
bb_pull_request action (ok p) =
    if eqb_ℤ p.id (pos 0)
    then err (codes "pullrequest payload missing id")
    else ok (record {
      kind = pull_request;
      pull_request_payload = some (record {
        action = action;
        ref = bb_ref p.repository p.id p.source_hash;
        repo = bb_repo p.repository;
        is_draft = false;
      });
      push_payload = none;
      comment_payload = none;
      reaction_payload = none;
    })

unfoldable pub bb_push_event : BbRepo → BbPushChange → WebhookEvent
bb_push_event r c = record {
  kind = push;
  pull_request_payload = none;
  push_payload = some (record {
    repo = bb_repo r;
    ref = codes "refs/heads/" ++ c.new_name;
    before_sha = c.old_hash;
    head_sha = c.new_hash;
  });
  comment_payload = none;
  reaction_payload = none;
}

-- whether a change is one of the default branch
abbrev pub is_default_change : Text → BbPushChange → Bool
is_default_change branch c = text_eq c.new_type (codes "branch") && text_eq c.new_name branch

unfoldable pub first_change : BbRepo → List BbPushChange → Result WebhookEvent
first_change r [] = err (codes "push event had no default-branch change")
first_change r (c ∷ cs) =
    if is_default_change (default_branch_or r.mainbranch_name (codes "main")) c
    then ok (bb_push_event r c)
    else first_change r cs

unfoldable pub bb_push : Result BbPushPayload → Result WebhookEvent
bb_push (err e) = err (wrap (codes "parse push") e)
bb_push (ok p) = first_change p.repository p.changes

abbrev pub id_or_zero : Option ℤ → ℤ
id_or_zero none = pos 0
id_or_zero (some id) = id

unfoldable pub bb_comment : Result BbCommentPayload → Result WebhookEvent
bb_comment (err e) = err (wrap (codes "parse comment") e)
bb_comment (ok p) =
    if eqb_ℤ p.pr_id (pos 0) || eqb_ℤ p.comment_id (pos 0)
    then err (codes "comment payload missing pr id or comment id")
    else ok (record {
      kind = review_comment;
      pull_request_payload = none;
      push_payload = none;
      comment_payload = some (record {
        ref = bb_ref p.repository p.pr_id p.source_hash;
        author_id = nickname_or p.user;
        body = p.raw;
        is_bot = text_eq p.user.type (codes "team");
        in_reply_to_id = id_or_zero p.parent_id;
      });
      reaction_payload = none;
    })

-- the signature, from either header
unfoldable pub signature_header : (Text → Text) → Text
signature_header headers =
    if is_empty (headers (codes "X-Hub-Signature"))
    then headers (codes "X-Event-Hub-Signature")
    else headers (codes "X-Hub-Signature")

module _ (hashing : Hashing) (json : BbJson) (secret : Text) where
  unfoldable pub parse_bb_event : Text → Text → Result WebhookEvent
  parse_bb_event event body =
      if text_eq event (codes "pullrequest:created")
      then bb_pull_request (codes "opened") (json.decode_pr body)
      else if text_eq event (codes "pullrequest:updated")
      then bb_pull_request (codes "synchronize") (json.decode_pr body)
      else if text_eq event (codes "pullrequest:fulfilled")
          || text_eq event (codes "pullrequest:rejected")
      then bb_pull_request (codes "closed") (json.decode_pr body)
      else if text_eq event (codes "repo:push")
      then bb_push (json.decode_push body)
      else if text_eq event (codes "pullrequest:comment_created")
          || text_eq event (codes "pullrequest:comment_updated")
      then bb_comment (json.decode_comment body)
      else if is_empty event
      then err (codes "missing X-Event-Key header")
      else err (codes "unsupported webhook event")

  -- the texts of the errors about the signature are one here
  unfoldable pub verify_bb : (Text → Text) → Text → Result WebhookEvent
  verify_bb headers body =
      if is_empty (signature_header headers)
      then err (codes "invalid webhook signature")
      else if verify_signature hashing secret body (signature_header headers)
      then parse_bb_event (headers (codes "X-Event-Key")) body
      else err (codes "invalid webhook signature")

-- a POST of a comment: its text, and its file and line if it is inline
pub record BbCommentPost : Type 0 where
  pub raw : Text
  pub inline : Option (Text × ℤ)

-- what the API answers to a POST after earlier ones, newest first: a status and an id, or an error
abbrev pub PostAnswers : Type 0
PostAnswers = List BbCommentPost → BbCommentPost → Result (ℕ × ℤ)

abbrev pub is_success : ℕ → Bool
is_success status = leb 200 status && ltb status 300

-- the id of a comment that was posted
abbrev pub posted_id : Result (ℕ × ℤ) → Option ℤ
posted_id (err e) = none
posted_id (ok (status, id)) = if is_success status then some id else none

abbrev pub add_id : Option ℤ → List ℤ → List ℤ
add_id none ids = ids
add_id (some id) ids = id ∷ ids

abbrev pub inline_post : BotComment → BbCommentPost
inline_post c = record { raw = c.body; inline = some (c.file, c.end_line) }

module _ (answers : PostAnswers) where
  -- the ids of the inline comments that were posted, and the POSTs made, newest first
  unfoldable pub post_inline : List BotComment → List BbCommentPost → List ℤ × List BbCommentPost
  post_inline [] sent = ([], sent)
  post_inline (c ∷ cs) sent =
      let rest = post_inline cs (inline_post c ∷ sent) in
      (add_id (posted_id (answers sent (inline_post c))) rest.0, rest.1)

  abbrev pub with_summary : List ℤ → Result (ℕ × ℤ) → Result PostedReview
  with_summary ids (err e) = err (wrap (codes "post summary") e)
  with_summary ids (ok (status, id)) =
      if is_success status
      then ok (record { review_id = id; comment_ids = ids })
      else err (codes "post summary: status " ++ itoa status)

  abbrev pub post_all : ReviewPayload → List ℤ × List BbCommentPost → Result PostedReview
  post_all review (ids, after) =
      with_summary ids (answers after (record { raw = review.body; inline = none }))

  abbrev pub post_to :
      ReviewPayload → List BbCommentPost → Option (Text × Text) → Result PostedReview
  post_to review sent none = err (codes "invalid repo_id")
  post_to review sent (some repo) = post_all review (post_inline review.comments sent)

  -- the repository is parsed, then come the inline comments and the summary
  unfoldable pub post_review : PrRef → ReviewPayload → List BbCommentPost → Result PostedReview
  post_review ref review sent = post_to review sent (parse_repo_id ref.repo_id)

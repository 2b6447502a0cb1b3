-- ===== src/Examples/Adapters.antt =====
-- Events and reviews of the adapters, on concrete inputs.
use codereviewer.Prelude.{
  ◌≡◌, refl, some, [], ◌∷◌, ◌++◌, Text, codes, text_eq, is_empty, cut, if◌then◌else◌,
}
use codereviewer.Prelude.Int.{ℤ, pos}
use codereviewer.Ports.{ok, err, PrRef, BotComment}
use codereviewer.Exec.{upsert_comment}
use codereviewer.Adapters.Signature.{Hashing, verify_signature}
use codereviewer.Adapters.Github.{parse_repo_id, GithubJson, verify_github}
use codereviewer.Adapters.Bitbucket.{
  BbPushChange, BbPushPayload, BbJson, PostAnswers, bb_push_event, first_change, default_branch_or,
  bb_push, signature_header, verify_bb, post_inline, post_review,
}
use codereviewer.Adapters.Bitbucket.Reviews.{persist-misattributes}
use codereviewer.Adapters.Pushes.{IsFirstChange, bb_push-IsFirstChange}
use codereviewer.Adapters.Events.{IsAccepted, verify-IsAccepted}
use codereviewer.Review.Posting.{upsert_of}
use codereviewer.Review.Publishing.{persist}
use codereviewer.Examples.World.{world, pull_request_ref}

-- a hash that puts the secret before the body, and hexadecimal notation that is the bytes
abbrev plain_hashing : Hashing
plain_hashing = record { hmac_sha256 = λ secret body. secret ++ body; decode_hex = λ s. ok s }

abbrev github_json : GithubJson
github_json = record {
  decode_pull_request = λ body. err (codes "none");
  decode_push = λ body. ok (record {
    ref = body;
    before = [];
    after = [];
    repository = record {
      name = codes "widgets";
      owner_login = codes "acme";
      default_branch = codes "main";
    };
  });
  decode_comment = λ body. err (codes "none");
  decode_reaction = λ body. err (codes "none");
}

abbrev change : Text → BbPushChange
change name = record {
  new_type = codes "branch";
  new_name = name;
  new_hash = codes "f00d";
  old_hash = codes "beef";
}

abbrev pushed : BbPushPayload
pushed = record {
  repository = record { full_name = codes "acme/widgets"; mainbranch_name = [] };
  changes = change (codes "topic") ∷ change (codes "main") ∷ [];
}

abbrev bb_json : BbJson
bb_json = record {
  decode_pr = λ body. err (codes "none");
  decode_push = λ body. ok pushed;
  decode_comment = λ body. err (codes "none");
}

abbrev headers : Text → Text
headers name =
    if text_eq name (codes "X-GitHub-Event")
    then codes "push"
    else if text_eq name (codes "X-Event-Key")
    then codes "repo:push"
    else codes "sha256=kb"

verify-IsAccepted_example :
    IsAccepted
      (verify_signature plain_hashing
        (codes "k")
        (codes "b")
        (headers (codes "X-Hub-Signature-256")))
      (verify_github plain_hashing github_json (codes "k") headers (codes "b"))
    × IsAccepted
        (verify_signature plain_hashing (codes "k") (codes "b") (signature_header headers))
        (verify_bb plain_hashing bb_json (codes "k") headers (codes "b"))
verify-IsAccepted_example =
    verify-IsAccepted plain_hashing (codes "k") github_json bb_json headers (codes "b")

pushed_event : bb_push (ok pushed) ≡ ok (bb_push_event pushed.repository (change (codes "main")))
unfolding bb_push first_change default_branch_or is_empty text_eq
pushed_event = refl

bb_push-IsFirstChange_example :
    IsFirstChange pushed.repository pushed.changes
      (bb_push_event pushed.repository (change (codes "main")))
bb_push-IsFirstChange_example =
    bb_push-IsFirstChange pushed (bb_push_event pushed.repository (change (codes "main")))
      pushed_event

abbrev on_line : ℤ → BotComment
on_line n = record {
  file = codes "main.go";
  start_line = n;
  end_line = n;
  body = codes "nit";
  category = codes "style";
  severity = codes "low";
}

abbrev widgets_ref : PrRef
widgets_ref = record pull_request_ref { repo_id = codes "acme/widgets" }

-- the first POST fails, the later ones get the ids 41
abbrev flaky : PostAnswers
flaky [] post = ok (500, pos 0)
flaky (p ∷ sent) post = ok (201, pos 41)

flaky_review :
    post_review flaky widgets_ref
      (record { body = codes "two"; comments = on_line (pos 1) ∷ on_line (pos 2) ∷ [] })
      []
    ≡ ok (record { review_id = pos 41; comment_ids = pos 41 ∷ [] })
unfolding post_review post_inline parse_repo_id cut is_empty
flaky_review = refl

persist-misattributes_example :
    persist world widgets_ref (on_line (pos 1) ∷ on_line (pos 2) ∷ []) (pos 41 ∷ []) []
    ≡ persist world widgets_ref
        (on_line (pos 2) ∷ [])
        []
        (upsert_comment (upsert_of widgets_ref (on_line (pos 1)) (some (pos 41))) ∷ [])
persist-misattributes_example =
    persist-misattributes flaky world widgets_ref (codes "two") (on_line (pos 1)) (on_line (pos 2))
      [] [] (pos 41) (record { review_id = pos 41; comment_ids = pos 41 ∷ [] }) [] refl refl
      flaky_review

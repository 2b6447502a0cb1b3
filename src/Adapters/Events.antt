-- ===== src/Adapters/Events.antt =====
-- What the gateway may rely on in an event that an adapter has verified.
use codereviewer.Prelude.{
  ◌≡◌, refl, Bool, true, false, ◌||◌, List, [], ◌∷◌, Text, codes, is_empty, is_some, if◌then◌else◌,
}
use codereviewer.Prelude.Int.{pos, eqb_ℤ}
use codereviewer.Ports.{
  Result, ok, err, WebhookEvent, WebhookEventKind, pull_request, push, review_comment, reaction,
  check_run, ping,
}
use codereviewer.Adapters.Signature.{Hashing, verify_signature}
use codereviewer.Adapters.Github.{
  GithubPullRequestEvent, GithubPushEvent, GithubReviewCommentEvent, GithubReactionEvent,
  GithubJson, github_pull_request, github_push, github_comment, github_reaction, github_ping,
  parse_github_event, verify_github,
}
use codereviewer.Adapters.Bitbucket.{
  BbRepo, BbPrPayload, BbPushChange, BbPushPayload, BbCommentPayload, BbJson, default_branch_or,
  bb_pull_request, bb_push_event, is_default_change, first_change, bb_push, bb_comment,
  signature_header, parse_bb_event, verify_bb,
}

abbrev OnePayload : WebhookEvent → Bool → Bool → Bool → Bool → Type 0
OnePayload e a b c d =
    (is_some e.pull_request_payload ≡ a)
    × (is_some e.push_payload ≡ b)
    × (is_some e.comment_payload ≡ c)
    × (is_some e.reaction_payload ≡ d)

-- the payload of the event's kind is there, and no other; a ping has none
abbrev pub IsMatched : WebhookEventKind → WebhookEvent → Type 0
IsMatched pull_request e = OnePayload e true false false false
IsMatched push e = OnePayload e false true false false
IsMatched review_comment e = OnePayload e false false true false
IsMatched reaction e = OnePayload e false false false true
IsMatched check_run e = ⊥
IsMatched ping e = OnePayload e false false false false

abbrev Matched : Result WebhookEvent → Type 0
Matched (err e) = Unit
Matched (ok e) = IsMatched e.kind e

-- where the result is an event, it is matched
record OkMatched (r : Result WebhookEvent) : Type 0 where
  holds : Matched r

OkMatched-err : (e : Text) → OkMatched (err e)
OkMatched-err e = record { holds = tt }

OkMatched-ping : OkMatched (ok github_ping)
OkMatched-ping = record { holds = (refl, refl, refl, refl) }

OkMatched-if :
    (b : Bool) (x y : Result WebhookEvent)
    → OkMatched x
    → OkMatched y
    → OkMatched (if b then x else y)
OkMatched-if true x y p q = p
OkMatched-if false x y p q = q

github_pull_request-OkMatched :
    (r : Result GithubPullRequestEvent) → OkMatched (github_pull_request r)
unfolding github_pull_request
github_pull_request-OkMatched (err e) = record { holds = tt }
github_pull_request-OkMatched (ok p) = record { holds = (refl, refl, refl, refl) }

github_push-OkMatched : (r : Result GithubPushEvent) → OkMatched (github_push r)
unfolding github_push
github_push-OkMatched (err e) = record { holds = tt }
github_push-OkMatched (ok p) = record { holds = (refl, refl, refl, refl) }

github_comment-OkMatched : (r : Result GithubReviewCommentEvent) → OkMatched (github_comment r)
unfolding github_comment
github_comment-OkMatched (err e) = record { holds = tt }
github_comment-OkMatched (ok p) = record { holds = (refl, refl, refl, refl) }

github_reaction-OkMatched : (r : Result GithubReactionEvent) → OkMatched (github_reaction r)
unfolding github_reaction
github_reaction-OkMatched (err e) = record { holds = tt }
github_reaction-OkMatched (ok p) = record { holds = (refl, refl, refl, refl) }

bb_pull_request-OkMatched :
    (action : Text) (r : Result BbPrPayload) → OkMatched (bb_pull_request action r)
unfolding bb_pull_request
bb_pull_request-OkMatched action (err e) = record { holds = tt }
bb_pull_request-OkMatched action (ok p) =
    OkMatched-if (eqb_ℤ p.id (pos 0)) _ _ (record { holds = tt })
      (record { holds = (refl, refl, refl, refl) })

first_change-OkMatched : (r : BbRepo) (cs : List BbPushChange) → OkMatched (first_change r cs)
unfolding first_change
first_change-OkMatched r [] = record { holds = tt }
first_change-OkMatched r (c ∷ cs) =
    OkMatched-if (is_default_change (default_branch_or r.mainbranch_name (codes "main")) c) _ _
      (unfold bb_push_event in record { holds = (refl, refl, refl, refl) })
      (first_change-OkMatched r cs)

bb_push-OkMatched : (r : Result BbPushPayload) → OkMatched (bb_push r)
unfolding bb_push
bb_push-OkMatched (err e) = record { holds = tt }
bb_push-OkMatched (ok p) = first_change-OkMatched p.repository p.changes

bb_comment-OkMatched : (r : Result BbCommentPayload) → OkMatched (bb_comment r)
unfolding bb_comment
bb_comment-OkMatched (err e) = record { holds = tt }
bb_comment-OkMatched (ok p) =
    OkMatched-if (eqb_ℤ p.pr_id (pos 0) || eqb_ℤ p.comment_id (pos 0)) _ _ (record { holds = tt })
      (record { holds = (refl, refl, refl, refl) })

ruleset matched_rules = (
  OkMatched-if, OkMatched-err, OkMatched-ping, github_pull_request-OkMatched, github_push-OkMatched,
  github_comment-OkMatched, github_reaction-OkMatched, bb_pull_request-OkMatched, bb_push-OkMatched,
  bb_comment-OkMatched,
)

-- an event that is accepted is signed, and has the payload of its kind
abbrev pub IsAccepted : Bool → Result WebhookEvent → Type 0
IsAccepted signed (err e) = Unit
IsAccepted signed (ok e) = (signed ≡ true) × IsMatched e.kind e

accept :
    (b : Bool) (r : Result WebhookEvent) (e : Text)
    → OkMatched r
    → IsAccepted b (if b then r else err e)
accept true (err x) e m = tt
accept true (ok x) e m = (refl, m.holds)
accept false r e m = tt

accept_unless :
    (b signed : Bool) (e : Text) (r : Result WebhookEvent)
    → IsAccepted signed r
    → IsAccepted signed (if b then err e else r)
accept_unless true signed e r a = tt
accept_unless false signed e r a = a

module _ (hashing : Hashing) (secret : Text) where
  parse_github_event-OkMatched :
      (json : GithubJson) (event body : Text)
      → OkMatched (parse_github_event hashing json secret event body)
  unfolding parse_github_event
  parse_github_event-OkMatched json event body = search matched_rules depth 9

  parse_bb_event-OkMatched :
      (json : BbJson) (event body : Text)
      → OkMatched (parse_bb_event hashing json secret event body)
  unfolding parse_bb_event
  parse_bb_event-OkMatched json event body = search matched_rules depth 9

  -- What either adapter accepts as an event of its provider has a header that signs the body with the
  -- secret, and the event has exactly the payload of its kind (none for a ping), whatever the
  -- decoders and the body.
  pub verify-IsAccepted :
      (github_json : GithubJson) (bb_json : BbJson) (headers : Text → Text) (body : Text)
      → IsAccepted
          (verify_signature hashing secret body (headers (codes "X-Hub-Signature-256")))
          (verify_github hashing github_json secret headers body)
        × IsAccepted
            (verify_signature hashing secret body (signature_header headers))
            (verify_bb hashing bb_json secret headers body)
  unfolding verify_github verify_bb
  verify-IsAccepted github_json bb_json headers body = (
    accept_unless (is_empty (headers (codes "X-Hub-Signature-256"))) _ _ _
        (accept _ _ _ (parse_github_event-OkMatched github_json _ body)),
    accept_unless (is_empty (signature_header headers)) _ _ _
        (accept _ _ _ (parse_bb_event-OkMatched bb_json _ body)),
  )

-- ===== src/Examples/Feedback.antt =====
-- The feedback pipeline on concrete inputs.
use codereviewer.Prelude.{
  ◌+◌, ◌≤◌, ◌≡◌, refl, true, [], tally, if◌then◌else◌, text_eq, is_empty, trim_space, has_prefix,
  has_suffix,
}
use codereviewer.Ports.{ok}
use codereviewer.Exec.{is_settled}
use codereviewer.Exec.Counting.{is_returned}
use codereviewer.Conversation.{
  maybe_reply, is_asked, matches_trigger, starts_with_one, ends_with_one, is_bot_reply,
}
use codereviewer.Feedback.{consume, classify, is_one_of, is_bot}
use codereviewer.Feedback.Signals.{is_append, is_recorded, consume-answers_once, consume-records}
use codereviewer.Conversation.Gates.{is_chat, is_reply, may_ask, may_answer, reaches_cap, is_spent}
use codereviewer.Conversation.Replies.{maybe_reply-asks}
use codereviewer.Examples.World.{world, conversation, bot_comment_row, question}

consume-answers_once_example :
    (is_returned (consume world conversation (ok question) []).0 ≡ true)
    × (tally is_settled (consume world conversation (ok question) []).1 ≡ 1 + 0)
consume-answers_once_example = consume-answers_once world conversation (ok question) []

consume-records_example :
    tally is_append (consume world conversation (ok question) []).1
    ≡ (if is_recorded world (ok question) [] then 1 else 0) + 0
consume-records_example = consume-records world conversation (ok question) []

is_recorded_test : is_recorded world (ok question) [] ≡ true
unfolding classify is_one_of text_eq is_bot
is_recorded_test = refl

maybe_reply-asks_example :
    (is_returned (maybe_reply world conversation bot_comment_row question []).0 ≡ true)
    × (tally is_chat (maybe_reply world conversation bot_comment_row question []).1
        ≡ (if may_ask world conversation bot_comment_row question [] then 1 else 0) + 0)
    × (tally is_reply (maybe_reply world conversation bot_comment_row question []).1
        ≤ (if may_ask world conversation bot_comment_row question [] then 1 else 0) + 0)
maybe_reply-asks_example = maybe_reply-asks world conversation bot_comment_row question []

may_ask_test : may_ask world conversation bot_comment_row question [] ≡ true
unfolding may_answer is_asked matches_trigger starts_with_one ends_with_one text_eq is_empty
    trim_space has_prefix has_suffix is_spent reaches_cap is_bot_reply
may_ask_test = refl

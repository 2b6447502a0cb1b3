-- ===== src/Review/Posting.antt =====
-- The LLM's comments as the bot posts them: those that name lines of the diff, and whether one of
-- them blocks the merge.
pub mod Comments
use codereviewer.Prelude.{
  ℕ, Bool, true, false, ◌||◌, Option, none, some, List, [], ◌∷◌, ◌++◌, Text, codes, text_eq, itoa,
  length, ◌==◌, if◌then◌else◌,
}
use codereviewer.Prelude.Int.{ℤ}
use codereviewer.Dict.{Dict}
use codereviewer.Ports.{PrRef, RawComment, BotComment, CommentUpsert, unset}
use codereviewer.Review.Diff.{Lines, comment_lines_valid}

unfoldable pub blocks : RawComment → Bool
blocks c =
    text_eq c.category (codes "bug")
    || (text_eq c.category (codes "security") || text_eq c.severity (codes "high"))

unfoldable pub bot_comment : RawComment → BotComment
bot_comment c = record {
  file = c.file;
  start_line = c.start_line;
  end_line = c.end_line;
  body = c.comment;
  category = c.category;
  severity = c.severity;
}

pub record Placed : Type 0 where
  pub comments : List BotComment
  pub has_blocker : Bool

unfoldable pub place_one : Dict Lines → Placed → RawComment → Placed
place_one valid p c =
    if comment_lines_valid valid c.file c.start_line c.end_line
    then record {
      comments = p.comments ++ bot_comment c ∷ [];
      has_blocker = if blocks c then true else p.has_blocker;
    }
    else p

-- the loop over the LLM's comments
unfoldable pub place_from : Dict Lines → Placed → List RawComment → Placed
place_from valid p [] = p
place_from valid p (c ∷ cs) = place_from valid (place_one valid p c) cs

unfoldable pub place : Dict Lines → List RawComment → Placed
place valid raw = place_from valid (record { comments = []; has_blocker = false }) raw

unfoldable pub summary_body : ℕ → Bool → Text
summary_body n has_blocker =
    if n == 0
    then codes "Reviewed; no comments."
    else if has_blocker
    then codes "Reviewed; "
      ++ (itoa n ++ codes " comments (bug/security or high-severity flagged).")
    else codes "Reviewed; " ++ (itoa n ++ codes " comments.")

unfoldable pub upsert_of : PrRef → BotComment → Option ℤ → CommentUpsert
upsert_of ref c id = record {
  tenant_id = ref.tenant_id;
  repo_id = ref.repo_id;
  pr_number = ref.pr_number;
  source = codes "bot";
  github_id = id;
  file_path = c.file;
  start_line = c.start_line;
  end_line = c.end_line;
  diff_hunk = [];
  comment_text = c.body;
  category = c.category;
  outcome = unset;
  outcome_signal = none;
  embedding = [];
}

-- ===== src/Examples/Review.antt =====
-- The review pipeline on concrete inputs.
use codereviewer.Prelude.{
  some, List, sym, subst, ◌↔◌, ℕ, ◌+◌, ◌≡◌, refl, true, false, not, ◌&&◌, ◌||◌, [], ◌∷◌, arith,
  Text, codes, tally, keep, All, Lacks-any_of, if◌then◌else◌, text_eq, ◌==◌, has_prefix, trim_space,
  is_empty,
}
use codereviewer.Prelude.Int.{ℤ, pos}
use codereviewer.Dict
use codereviewer.Dict.{empty, put}
use codereviewer.Ports.{
  provider_or_default, RawComment, PrRun, posted, failed_open, Result, ok, err, ChatResponse,
}
use codereviewer.Exec.{Env, is_settled}
use codereviewer.Exec.Counting.{is_returned}
use codereviewer.Review.Process.{previous_head, is_disabled, process, handle}
use codereviewer.Review.Process.Runs.{
  disabled_now, begin_trace, opens_run, skipped_trace, process-skips, handle-answers_once,
}
use codereviewer.Review.Diff.{Scan, scan_lines, valid_right_lines, comment_lines_valid}
use codereviewer.Review.Diff.Files.{AreDistinct}
use codereviewer.Review.Diff.Render.{
  context, added, shows_line, print_lines, patches_show, patch_paths, IsPlainPatch,
}
use codereviewer.Review.Diff.RoundTrip.{print_diff, comment_lines_valid-print_diff}
use codereviewer.Review.Diff.Scanning.{is_marked, IsAt}
use codereviewer.Review.Diff.Misread.{misnumbered}
use codereviewer.Review.Posting.{blocks, place}
use codereviewer.Review.Posting.Comments.{
  ArePosted, HasBlocker, IsBlocker, blocks_iff, place-ArePosted,
}
use codereviewer.Review.Context.{Scored, sift, insertion_sort, by_priority}
use codereviewer.Review.Context.Sorting.{IsFalling, has_priority, by_priority-IsStableSort}
use codereviewer.Core.LlmOutput.{parse_output, strip_fences}
use codereviewer.Core.LlmOutput.Valid.{parse_output_iff}
use codereviewer.Core.Budgets.{exceeds_daily_cap}
use codereviewer.Review.Process.Verdicts.{is_failure, IsHarmless, process-passes}
use codereviewer.Review.Process.Spending.{stopped_trace, process-over_budget}
use codereviewer.Review.Process.Heads.{IsPrevious, previous_head-IsPrevious}
use codereviewer.Examples.World.{
  world, deps, review_job, pull_request_ref, patch, finding, chat_response,
}

is_known : world.registered (provider_or_default pull_request_ref) ≡ true
unfolding text_eq provider_or_default is_empty
is_known = refl

opens_run_test : opens_run world deps review_job [] ≡ true
unfolding is_disabled
opens_run_test = refl

-- the store has seen the job before
abbrev replayed : Env
replayed = record world { began = λ t args. ok (codes "run-1", true) }

is_replayed : opens_run replayed deps review_job [] ≡ false
unfolding is_disabled
is_replayed = refl

process-skips_example :
    (is_returned (process replayed deps review_job []).0 ≡ true)
    × ((process replayed deps review_job []).1 ≡ skipped_trace replayed deps review_job [])
process-skips_example = process-skips replayed deps review_job [] is_replayed

handle-answers_once_example :
    (is_returned (handle world deps (ok review_job) []).0 ≡ true)
    × (tally is_settled (handle world deps (ok review_job) []).1 ≡ 1 + 0)
handle-answers_once_example = handle-answers_once world deps (ok review_job) [] is_known

patch-IsPlain : All IsPlainPatch (patch ∷ [])
unfolding has_prefix trim_space is_empty
patch-IsPlain = (
  record {
    old_path = Lacks-any_of b'\n' (codes "main.go") refl;
    path = Lacks-any_of b'\n' (codes "main.go") refl;
    named = refl;
    trimmed = refl;
    hunks = (
      record {
        old_range = (Lacks-any_of b'+' (codes "1,2") refl, Lacks-any_of b'\n' (codes "1,2") refl);
        tail = Lacks-any_of b'\n' (codes "3 @@") refl;
        fits = omega arith;
        body = (
          Lacks-any_of b'\n' (codes "package main") refl,
          (
            (Lacks-any_of b'\n' (codes "var x int") refl, refl),
            (Lacks-any_of b'\n' (codes "var y int") refl, tt),
          ),
        );
      },
      tt,
    );
  },
  tt,
)

-- the one patch is for a path that no other is for
abbrev one_patch : AreDistinct (patch_paths (patch ∷ []))
one_patch = (refl, tt)

comment_lines_valid-print_diff_example :
    comment_lines_valid
      (valid_right_lines (print_diff (patch ∷ [])))
      (codes "main.go")
      (pos 1)
      (pos 2)
    ≡ ((not (2 == 0) && patches_show (patch ∷ []) (codes "main.go") 2)
        && (1 == 0 || (1 == 2 || patches_show (patch ∷ []) (codes "main.go") 1)))
comment_lines_valid-print_diff_example =
    comment_lines_valid-print_diff (patch ∷ []) (codes "main.go") 1 2 one_patch patch-IsPlain

-- a scan that has entered line 5 of a file
abbrev mid_file : Scan
mid_file = record { out = put empty (codes "main.go") []; path = codes "main.go"; line = pos 5 }

mid_file-IsAt : IsAt (codes "main.go") 5 mid_file
unfolding put empty Dict.get text_eq
mid_file-IsAt = record { path = refl; line = refl; known = refl }

is_named : is_empty (codes "main.go") ≡ false
unfolding is_empty
is_named = refl

misnumbered_example :
    (shows_line 5 (added (codes "++i") ∷ context (codes "x") ∷ []) 6 ≡ true)
    × (is_marked
          (scan_lines mid_file (print_lines (added (codes "++i") ∷ context (codes "x") ∷ []))).out
          (codes "main.go")
          6
        ≡ is_marked mid_file.out (codes "main.go") 6)
misnumbered_example =
    misnumbered (codes "main.go") 5 mid_file b'i' [] (codes "x") is_named mid_file-IsAt
      (omega arith)

place-ArePosted_example :
    ArePosted
      (valid_right_lines (print_diff (patch ∷ [])))
      (finding ∷ [])
      (place (valid_right_lines (print_diff (patch ∷ []))) (finding ∷ [])).comments
    × (((place (valid_right_lines (print_diff (patch ∷ []))) (finding ∷ [])).has_blocker ≡ true)
        ↔ HasBlocker (valid_right_lines (print_diff (patch ∷ []))) (finding ∷ []))
place-ArePosted_example =
    place-ArePosted (valid_right_lines (print_diff (patch ∷ []))) (finding ∷ [])

abbrev scored : ℕ → Text → Scored
scored n title = record {
  section = record { source = codes "jira"; title = title; body = title };
  priority = pos n;
}

by_priority-IsStableSort_example :
    IsFalling
      (by_priority (scored 1 (codes "a") ∷ scored 3 (codes "b") ∷ scored 1 (codes "c") ∷ []))
    × ((k : ℤ)
        → keep
            (has_priority k)
            (by_priority (scored 1 (codes "a") ∷ scored 3 (codes "b") ∷ scored 1 (codes "c") ∷ []))
          ≡ keep
              (has_priority k)
              (scored 1 (codes "a") ∷ scored 3 (codes "b") ∷ scored 1 (codes "c") ∷ []))
by_priority-IsStableSort_example =
    by_priority-IsStableSort
      (scored 1 (codes "a") ∷ scored 3 (codes "b") ∷ scored 1 (codes "c") ∷ [])

by_priority_test :
    by_priority (scored 1 (codes "a") ∷ scored 3 (codes "b") ∷ scored 1 (codes "c") ∷ [])
    ≡ scored 3 (codes "b") ∷ scored 1 (codes "a") ∷ scored 1 (codes "c") ∷ []
unfolding by_priority insertion_sort sift
by_priority_test = refl

-- a comment on a matter of style
abbrev style_comment : RawComment
style_comment = record finding { category = codes "style" }

abbrev decode_review : Text → Result (List RawComment)
decode_review content =
    if text_eq content (codes "style") then ok (style_comment ∷ []) else ok (finding ∷ [])

abbrev style_response : ChatResponse
style_response = record chat_response { content = codes "style" }

-- the same world, where the LLM only finds a matter of style
abbrev mild : Env
mild = record world { answer = λ t req. ok style_response; decode_output = decode_review }

-- a text that the LLM does not answer would parse to a finding that blocks the merge
decode_review_test : decode_review (codes "bug") ≡ ok (finding ∷ [])
unfolding text_eq
decode_review_test = refl

is_style : blocks style_comment ≡ false
unfolding blocks text_eq
is_style = refl

AreHarmless : Result (List RawComment) → Type 0
AreHarmless (ok raw) = All (λ c. ¬ IsBlocker c) raw
AreHarmless (err e) = Unit

style-AreHarmless : AreHarmless (decode_review (strip_fences (trim_space (codes "style"))))
unfolding text_eq strip_fences trim_space has_prefix AreHarmless
style-AreHarmless = ((λ b. ground (arith, (blocks_iff style_comment).1 b, is_style)), tt)

mild-IsHarmless : IsHarmless mild
unfolding AreHarmless
mild-IsHarmless asked req resp raw answer parsed =
    let same : style_response ≡ resp = cc in
    let decoded =
      ((parse_output_iff decode_review (codes "style") raw).0
        (subst (λ r. parse_output decode_review r.content ≡ ok raw) (sym same) parsed)).0 in
    subst AreHarmless decoded style-AreHarmless

process-passes_example : tally is_failure (process mild deps review_job []).1 ≡ 0
process-passes_example = process-passes mild mild-IsHarmless deps review_job [] is_known

-- the same world at the end of a day
abbrev spent_world : Env
spent_world = record world { spend = λ t tenant repo. ok (pos 100) }

is_enabled : disabled_now spent_world deps review_job [] ≡ false
unfolding is_disabled
is_enabled = refl

is_over : exceeds_daily_cap (pos 100) (pos 100) ≡ true
unfolding exceeds_daily_cap
is_over = refl

process-over_budget_example :
    (process spent_world deps review_job []).1
    ≡ stopped_trace spent_world deps pull_request_ref
        (codes "run-1")
        (begin_trace spent_world deps review_job [])
process-over_budget_example =
    process-over_budget spent_world deps review_job (codes "run-1")
      (record { daily_usd_cap = pos 100; per_pr_token_cap = pos 16000 }) (pos 100) [] is_known
      is_enabled refl refl refl is_over

-- a run that failed for the head "beef", after one that was posted for "cafe"
abbrev past_runs : List PrRun
past_runs =
    record {
      run_id = codes "run-3";
      ref = record pull_request_ref { head_sha = codes "beef" };
      status = failed_open;
    }
    ∷ record {
      run_id = codes "run-2";
      ref = record pull_request_ref { head_sha = codes "cafe" };
      status = posted;
    }
    ∷ []

previous_head-IsPrevious_example :
    IsPrevious (codes "f00d") past_runs (previous_head (codes "f00d") past_runs)
previous_head-IsPrevious_example = previous_head-IsPrevious (codes "f00d") past_runs

previous_head_test : previous_head (codes "f00d") past_runs ≡ some (codes "cafe")
unfolding previous_head is_empty text_eq
previous_head_test = refl

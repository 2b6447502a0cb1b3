-- ===== src/Examples/Backfill.antt =====
-- The backfill on concrete inputs.
use codereviewer.Prelude.{none, List, [], ◌∷◌, Text, codes}
use codereviewer.Prelude.Int.{ℤ, pos}
use codereviewer.Ports.{ok, HumanComment}
use codereviewer.Exec.{Env}
use codereviewer.Backfill.{Args, run_backfill}
use codereviewer.Backfill.Totals.{Reports, run_backfill-Reports}
use codereviewer.Examples.World.{world, embedding_world}

abbrev args : Args
args = record {
  tenant_id = codes "acme";
  repo_id = codes "widgets";
  window_days = pos 0;
  now = none;
}

abbrev comment : ℤ → Text → HumanComment
comment id body = record {
  external_id = id;
  body = body;
  path = codes "main.go";
  diff_hunk = [];
  start_line = pos 1;
  end_line = pos 1;
  reactions_plus_one = pos 1;
  reactions_minus_one = pos 0;
}

-- two comments with the same text, and one without any
abbrev past_comments : List HumanComment
past_comments =
    comment (pos 1) (codes "nit") ∷ comment (pos 2) [] ∷ comment (pos 3) (codes "nit") ∷ []

abbrev commented : Env
commented = record world {
  human_comments = λ t ref. ok past_comments;
  embedded_many = λ t texts. ok ((1 ∷ []) ∷ []);
}

run_backfill-Reports_example : Reports commented [] (run_backfill commented args [])
run_backfill-Reports_example = run_backfill-Reports commented args []

abbrev embedding : Env
embedding = record embedding_world { human_comments = λ t ref. ok past_comments }

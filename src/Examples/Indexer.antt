-- ===== src/Examples/Indexer.antt =====
-- The indexer on concrete inputs.
use codereviewer.Prelude.{
  ◌+◌, ◌≡◌, refl, true, List, [], ◌∷◌, Text, codes, text_eq, is_empty, tally,
}
use codereviewer.Prelude.Int.{pos}
use codereviewer.Ports.{ok, ChangedFile, CodeChunkUpsert}
use codereviewer.Schemas.{IndexJob}
use codereviewer.Exec.{list_changed_files, is_settled}
use codereviewer.Exec.Counting.{is_returned}
use codereviewer.Indexer.{index_provider, process_push, handle_push}
use codereviewer.Indexer.Chunks.{all_chunks, after_files}
use codereviewer.Indexer.Upserts.{Upserts, process_push-Upserts}
use codereviewer.Indexer.Success.{IsWorking, Stores, process_push-Stores}
use codereviewer.Indexer.Answers.{handle_push-answers_once}
use codereviewer.Examples.World.{world, embedding_world, embedding_world-IsEmbedding}

abbrev push : IndexJob
push = record {
  tenant_id = codes "acme";
  repo_id = codes "widgets";
  provider = [];
  ref = codes "refs/heads/main";
  before_sha = codes "c0";
  head_sha = codes "c1";
}

abbrev changed : List ChangedFile
changed = record { path = codes "main.go"; status = codes "modified" } ∷ []

provider_known : world.registered (index_provider push) ≡ true
unfolding index_provider text_eq is_empty
provider_known = refl

process_push-Upserts_example :
    Upserts world push
      (all_chunks world push changed
        (list_changed_files (codes "widgets") (codes "c0") (codes "c1") ∷ []))
      (after_files world push changed
        (list_changed_files (codes "widgets") (codes "c0") (codes "c1") ∷ []))
      (process_push world push [])
process_push-Upserts_example = process_push-Upserts world push changed [] provider_known refl

embedding_world-IsWorking : IsWorking embedding_world
embedding_world-IsWorking = record {
  embedding = embedding_world-IsEmbedding;
  stores = λ t batch. tt;
}

process_push-Stores_example :
    Stores embedding_world push
      (all_chunks embedding_world push changed
        (list_changed_files (codes "widgets") (codes "c0") (codes "c1") ∷ []))
      (after_files embedding_world push changed
        (list_changed_files (codes "widgets") (codes "c0") (codes "c1") ∷ []))
      (process_push embedding_world push [])
process_push-Stores_example =
    process_push-Stores embedding_world push embedding_world-IsWorking changed [] provider_known
      refl

handle_push-answers_once_example :
    (is_returned (handle_push world (ok push) []).0 ≡ true)
    × (tally is_settled (handle_push world (ok push) []).1 ≡ 1 + 0)
handle_push-answers_once_example = handle_push-answers_once world (ok push) []

-- two chunks with the same content, and a third
abbrev chunk : Text → CodeChunkUpsert
chunk content = record {
  tenant_id = codes "acme";
  repo_id = codes "widgets";
  file_path = codes "main.go";
  symbol_name = [];
  symbol_kind = [];
  start_line = pos 1;
  end_line = pos 1;
  content = content;
  content_hash = content;
  commit_sha = codes "c1";
  embedding = [];
}

abbrev chunks : List CodeChunkUpsert
chunks = chunk (codes "a") ∷ chunk (codes "b") ∷ chunk (codes "a") ∷ []

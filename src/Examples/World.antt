-- ===== src/Examples/World.antt =====
-- A world for the examples: GitHub is the one provider, the stores are empty but for one comment of
-- the bot, the diff adds a line to one file, and the LLM answers with one comment on it.
use codereviewer.Prelude.{
  true, false, none, some, [], ◌∷◌, codes, text_eq, length, length-map, map, refl, Text,
}
use codereviewer.Prelude.Int.{pos}
use codereviewer.Ports.{
  ok, err, PrRef, pr_opened, RawComment, ChatResponse, Comment, ConversationConfig, github,
}
use codereviewer.Dict
use codereviewer.Schemas.{ReviewJob, FeedbackJob}
use codereviewer.Exec.{Env, failed}
use codereviewer.Exec.Working.{IsEmbedding}
use codereviewer.Review.Process.{Deps}
use codereviewer.Review.Diff.Render.{context, added, removed, FilePatch}
use codereviewer.Review.Diff.RoundTrip.{print_diff}
use codereviewer.Conversation.{Conversation}

abbrev pub pull_request_ref : PrRef
pull_request_ref = record {
  tenant_id = codes "acme";
  repo_id = codes "widgets";
  pr_number = pos 7;
  head_sha = codes "f00d";
  provider = [];
}

abbrev pub patch : FilePatch
patch = record {
  old_path = codes "main.go";
  path = codes "main.go";
  hunks =
      record {
        old_range = codes "1,2";
        start = 1;
        one_line = false;
        tail = codes "3 @@";
        body =
            context (codes "package main")
            ∷ added (codes "var x int")
            ∷ removed (codes "var y int")
            ∷ [];
      }
      ∷ [];
}

abbrev pub finding : RawComment
finding = record {
  file = codes "main.go";
  start_line = pos 2;
  end_line = pos 2;
  comment = codes "x is unused";
  category = codes "bug";
  severity = codes "low";
}

abbrev pub bot_comment_row : Comment
bot_comment_row = record {
  comment_id = codes "c1";
  tenant_id = codes "acme";
  repo_id = codes "widgets";
  pr_number = pos 7;
  source = codes "bot";
  github_id = some (pos 101);
  comment_text = codes "x is unused";
}

abbrev pub conversation_config : ConversationConfig
conversation_config = record {
  enabled = true;
  max_replies_per_pr = pos 2;
  trigger_suffixes = codes "?" ∷ [];
  trigger_prefixes = codes "/explain" ∷ [];
  max_output_tokens = pos 300;
}

abbrev pub chat_response : ChatResponse
chat_response = record {
  content = codes "[]";
  tokens_in = pos 50;
  tokens_out = pos 20;
  cost_usd = pos 1;
  model_used = codes "primary";
}

abbrev pub world : Env
world = record {
  registered = λ p. text_eq p github;
  clock = λ t. length t;
  repo = λ t id. ok none;
  began = λ t args. ok (codes "run-1", false);
  finished = λ t id r. ok tt;
  recent = λ t repo pr limit. ok [];
  effective =
      λ t tenant repo. ok (record { daily_usd_cap = pos 100; per_pr_token_cap = pos 16000 });
  spend = λ t tenant repo. ok (pos 0);
  recorded = λ t tenant repo usd at. ok tt;
  diff = λ t ref. ok (print_diff (patch ∷ []));
  diff_between = λ t repo base head. ok [];
  posted = λ t ref review. ok (record { review_id = pos 9; comment_ids = pos 101 ∷ [] });
  checked = λ t ref r. ok tt;
  replied = λ t repo pr parent body. ok (pos 102);
  cached = λ t key. ok none;
  put = λ t key v. ok tt;
  embedded = λ t model text. ok ((1 ∷ []) ∷ []);
  estimate_tokens = λ text model. length text;
  truncate = λ text model. text;
  answer = λ t req. ok chat_response;
  cancelled = λ t. false;
  code = λ t repo v file k. ok [];
  comments = λ t repo v k. ok [];
  rules = λ t repo paths. ok [];
  fetched = λ t i ref. failed;
  upserted = λ t c. ok (codes "c1");
  by_github_id = λ t id. ok (some bot_comment_row);
  appended = λ t e. ok tt;
  updated = λ t id outcome signal. ok tt;
  pr_comments = λ t ref. ok [];
  token_cap = λ t. pos 0;
  conversation_config = λ t. conversation_config;
  verified = λ t provider header body. err (codes "bad signature");
  ensured = λ t repo. ok tt;
  context_appended = λ t item. ok tt;
  review_published = λ t key job. ok tt;
  index_published = λ t key job. ok tt;
  feedback_published = λ t key job. ok tt;
  rules_fetched = λ t. ok (record { commit_sha = codes "c0"; files = [] });
  changed_files =
      λ t repo base head. ok (record { path = codes "main.go"; status = codes "modified" } ∷ []);
  file_at = λ t repo sha path. ok (codes "package main");
  supports = λ path. true;
  parse_chunks = λ path content. ok (
      record {
        symbol_name = codes "main";
        symbol_kind = codes "function";
        start_line = pos 1;
        end_line = pos 1;
        content = content;
      }
      ∷ []);
  chunks_upserted = λ t chunks. ok tt;
  map_order = λ t. 1 ∷ [];
  closed_prs = λ t repo since. ok (pos 7 ∷ []);
  human_comments = λ t ref. ok [];
  cached_many = λ t hashes. ok Dict.empty;
  embedded_many = λ t texts. ok [];
  put_many = λ t entries. ok tt;
  rules_upserted = λ t sha rules. ok tt;
  tombstoned = λ t sha ids. ok 0;
  decode_front_matter = λ text. ok (record { scope = []; title = text });
  content_hash = λ text. text;
  acked = λ t. ok tt;
  nacked = λ t reason. ok tt;
  decode_output = λ content. ok (finding ∷ []);
}

abbrev pub deps : Deps
deps = record {
  repos = true;
  pr_runs = true;
  code_chunks = true;
  comments = true;
  rules = true;
  embedding_cache = true;
  context_providers = 1;
  system_prompt = codes "review";
  embedding_model = codes "embedding";
}

abbrev pub review_job : ReviewJob
review_job = record { pr_ref = pull_request_ref; trigger = pr_opened }

abbrev pub conversation : Conversation
conversation = record { wired = true; cost_caps = true; system_prompt = codes "clarify" }

abbrev pub question : FeedbackJob
question = record {
  tenant_id = codes "acme";
  repo_id = codes "widgets";
  provider = [];
  kind = codes "reply";
  comment_external_id = pos 101;
  reaction = [];
  author_id = codes "alice";
  body = codes "why?";
  pr_number = pos 7;
}

-- a world whose LLM embeds each text as its length
abbrev pub embedding_world : Env
embedding_world = record world {
  embedded_many = λ t texts. ok (map (λ (s : Text). length s ∷ []) texts);
}

pub embedding_world-IsEmbedding : IsEmbedding embedding_world
embedding_world-IsEmbedding = record {
  finds = λ t hashes. tt;
  embeds = λ t texts. (map (λ (s : Text). length s ∷ []) texts, refl, length-map _ texts);
}

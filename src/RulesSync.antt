-- ===== src/RulesSync.antt =====
-- The sync of review rules from their repository (internal/core/pipelines/rulessync/pipeline.go):
-- each rule file is parsed, embedded through the cache and upserted, and rules that are gone are
-- switched off. Logging is left out.
pub mod Embeddings
pub mod Origins
pub mod Files
pub mod Runs
use codereviewer.Prelude.{
  ℕ, Bool, true, false, not, ◌&&◌, ◌||◌, Option, none, some, List, [], ◌∷◌, ◌++◌, map, Text, codes,
  is_empty, strip_prefix, has_prefix, trim_prefix, trim_space, nonempty, is_some, length, itoa,
  ◌==◌, if◌then◌else◌,
}
use codereviewer.Dict
use codereviewer.Dict.{Dict}
use codereviewer.Ports.{
  Vector, Result, ok, err, wrap, RawRuleFile, RulesSnapshot, FrontMatter, RuleUpsert,
}
use codereviewer.Exec.{
  Env, M, ◌>>=◌, ◌>>◌, pure, call, fetch_rules, cache_get_many, embed_many, cache_put_many,
  upsert_rules, tombstone_missing,
}

-- the byte order mark, one code point
unfoldable pub strip_bom : Text → Text
strip_bom content = trim_prefix content (0xfeff ∷ [])

unfoldable pub extend : ℕ → Option (Text × Text) → Option (Text × Text)
extend c none = none
extend c (some (before, behind)) = some (c ∷ before, behind)

unfoldable pub at_separator : Option Text → Option (Text × Text) → Option (Text × Text)
at_separator (some behind) later = some ([], behind)
at_separator none later = later

-- s[:i] and s[i+len(sep):] for i = strings.Index(s, sep), or `none` if i < 0; `sep` is not empty
unfoldable pub cut_text : Text → Text → Option (Text × Text)
cut_text [] sep = none
cut_text (c ∷ s) sep = at_separator (strip_prefix (c ∷ s) sep) (extend c (cut_text s sep))

-- strings.TrimLeft(body, "\r\n")
unfoldable pub trim_newlines : Text → Text
trim_newlines [] = []
trim_newlines (c ∷ s) =
    let rest = trim_newlines s in if c == b'\r' || c == b'\n' then rest else c ∷ s

unfoldable pub titled : Text → Result FrontMatter → Result (FrontMatter × Text)
titled body (err e) = err (wrap (codes "yaml") e)
titled body (ok fm) =
    if is_empty (trim_space fm.title)
    then err (codes "title is required")
    else ok (fm, trim_space body)

unfoldable pub split_front :
    (Text → Result FrontMatter) → Option (Text × Text) → Result (FrontMatter × Text)
split_front decode none = err (codes "unterminated frontmatter")
split_front decode (some (front, behind)) = titled (trim_newlines behind) (decode front)

unfoldable pub parse_rule : (Text → Result FrontMatter) → Text → Result (FrontMatter × Text)
parse_rule decode content =
    let s = strip_bom content in
    if has_prefix s (codes "---\n") || has_prefix s (codes "---\r\n")
    then split_front decode
        (cut_text (trim_prefix (trim_prefix s (codes "---\n")) (codes "---\r\n")) (codes "\n---"))
    else err (codes "no frontmatter")

unfoldable pub add_rule :
    Text → Text → Result (FrontMatter × Text) → List (RuleUpsert × Text) → List (RuleUpsert × Text)
add_rule tenant path (err e) rest = rest
add_rule tenant path (ok (fm, body)) rest =
    (
      record {
        rule_id = path;
        tenant_id = tenant;
        scope = fm.scope;
        title = fm.title;
        description = body;
        embedding = [];
      },
      fm.title ++ b'\n' ∷ body,
    )
    ∷ rest

-- the rules of the files that parse, each with the text to embed
unfoldable pub parse_files :
    (Text → Result FrontMatter) → List RawRuleFile → Text → List (RuleUpsert × Text)
parse_files decode [] tenant = []
parse_files decode (f ∷ fs) tenant =
    add_rule tenant f.path (parse_rule decode f.content) (parse_files decode fs tenant)

-- the hashes that the cache does not have, with their texts
unfoldable pub missing : Dict Vector → List (Text × Text) → List (Text × Text)
missing cached [] = []
missing cached ((h, text) ∷ rest) =
    let later = missing cached rest in
    if is_some (Dict.get cached h) then later else (h, text) ∷ later

-- `cached` with the results for the missing hashes
unfoldable pub fill : Dict Vector → List (Text × Text) → List Vector → Dict Vector
fill cached ((h, text) ∷ todo) (v ∷ vs) = fill (Dict.put cached h v) todo vs
fill cached [] vs = cached
fill cached (t ∷ todo) [] = cached

unfoldable pub entries : List (Text × Text) → List Vector → List (Text × Vector)
entries ((h, text) ∷ todo) (v ∷ vs) = (h, v) ∷ entries todo vs
entries [] vs = []
entries (t ∷ todo) [] = []

abbrev pub vector_or_nil : Option Vector → Vector
vector_or_nil none = []
vector_or_nil (some v) = v

unfoldable pub with_embedding : (Text → Text) → Dict Vector → RuleUpsert × Text → RuleUpsert
with_embedding hash cached (rule, text) = record rule {
  embedding = vector_or_nil (Dict.get cached (hash text));
}

unfoldable pub hashed : (Text → Text) → RuleUpsert × Text → Text × Text
hashed hash (rule, text) = (hash text, text)

module _ (env : Env) where
  -- the embeddings are there, or that failed
  unfoldable pub use_results :
      Dict Vector → List (Text × Text) → Result (List Vector) → M (Result (Dict Vector))
  use_results cached todo (err e) = pure (err (wrap (codes "embed") e))
  use_results cached todo (ok vs) =
      if length vs == length todo
      then (do
        call (cache_put_many (entries todo vs)) (λ t. env.put_many t (entries todo vs))
        pure (ok (fill cached todo vs)))
      else pure (
          err (
            codes "embed length mismatch: "
            ++ (itoa (length vs) ++ (codes " vs " ++ itoa (length todo)))))

  unfoldable pub embed_todo : Dict Vector → List (Text × Text) → M (Result (Dict Vector))
  embed_todo cached todo =
      if nonempty todo
      then (do
        r ← call (embed_many (map (λ x. x.1) todo)) (λ t. env.embedded_many t (map (λ x. x.1) todo))
        use_results cached todo r)
      else pure (ok cached)

  unfoldable pub use_cache : List (Text × Text) → Result (Dict Vector) → M (Result (Dict Vector))
  use_cache pairs (err e) = pure (err (wrap (codes "cache lookup") e))
  use_cache pairs (ok cached) = embed_todo cached (missing cached pairs)

  -- the vectors of the texts, by hash
  unfoldable pub embed : List (Text × Text) → M (Result (Dict Vector))
  embed pairs = do
    cached ←
        call (cache_get_many (map (λ x. x.0) pairs)) (λ t. env.cached_many t (map (λ x. x.0) pairs))
    use_cache pairs cached

  -- the rules are stored, or that failed: switch those off that are gone
  unfoldable pub tombstone : Text → List RuleUpsert → Result (Unit {0}) → M (Result ℕ)
  tombstone sha rules (err e) = pure (err (wrap (codes "upsert") e))
  tombstone sha rules (ok _) = do
    call (tombstone_missing sha (map (λ r. r.rule_id) rules))
        (λ t. env.tombstoned t sha (map (λ r. r.rule_id) rules))
    pure (ok (length rules))

  unfoldable pub upsert : Text → List (RuleUpsert × Text) → Result (Dict Vector) → M (Result ℕ)
  upsert sha parsed (err e) = pure (err e)
  upsert sha parsed (ok cached) = do
    let rules = map (with_embedding env.content_hash cached) parsed
    r ← call (upsert_rules sha rules) (λ t. env.rules_upserted t sha rules)
    tombstone sha rules r

  unfoldable pub sync : Text → List (RuleUpsert × Text) → M (Result ℕ)
  sync sha [] = pure (ok 0)
  sync sha (p ∷ ps) = do
    cached ← embed (map (hashed env.content_hash) (p ∷ ps))
    upsert sha (p ∷ ps) cached

  unfoldable pub use_snapshot : Text → Result RulesSnapshot → M (Result ℕ)
  use_snapshot tenant (err e) = pure (err (wrap (codes "fetch") e))
  use_snapshot tenant (ok snap) =
      sync snap.commit_sha (parse_files env.decode_front_matter snap.files tenant)

  -- how many rules were upserted
  unfoldable pub run : Text → M (Result ℕ)
  run tenant = do snap ← call fetch_rules env.rules_fetched; use_snapshot tenant snap

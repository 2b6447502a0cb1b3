-- ===== src/Examples/RulesSync.antt =====
-- The sync of rules on concrete inputs.
use codereviewer.Prelude.{
  ◌≡◌, refl, List, [], ◌∷◌, ◌++◌, Text, codes, Lacks-any_of, has_prefix, trim_prefix, All,
  strip_prefix, is_empty, trim_space,
}
use codereviewer.Ports.{Result, ok, FrontMatter, RulesSnapshot}
use codereviewer.Exec.{Env}
use codereviewer.RulesSync.{
  strip_bom, parse_rule, cut_text, at_separator, extend, split_front, titled, trim_newlines, embed,
  run,
}
use codereviewer.RulesSync.Embeddings.{Covers, embed-Covers}
use codereviewer.RulesSync.Files.{fence, IsFrontLine, print_lines, parse_rule_lem}
use codereviewer.RulesSync.Runs.{IsSynced, rule_paths, run-IsSynced}
use codereviewer.Examples.World.{world, embedding_world}

abbrev pairs : List (Text × Text)
pairs = (codes "h1", codes "no globals") ∷ (codes "h2", codes "no gotos") ∷ []

embed-Covers_example : Covers pairs (embed world pairs []).0
embed-Covers_example = embed-Covers world pairs []

abbrev decode : Text → Result FrontMatter
decode text = ok (record { scope = []; title = text })

front_lines : All IsFrontLine (codes "title: Globals" ∷ codes "scope: go" ∷ [])
unfolding has_prefix
front_lines = (
  (Lacks-any_of b'\n' (codes "title: Globals") refl, refl),
  ((Lacks-any_of b'\n' (codes "scope: go") refl, refl), tt),
)

parse_rule_lem_example :
    parse_rule decode (
      codes "---\n"
      ++ ((codes "title: Globals" ++ print_lines (codes "scope: go" ∷ []))
          ++ (fence ++ codes "\nNone.\n")))
    ≡ titled
        (trim_newlines (codes "\nNone.\n"))
        (decode (codes "title: Globals" ++ print_lines (codes "scope: go" ∷ [])))
parse_rule_lem_example =
    parse_rule_lem decode (codes "title: Globals") (codes "scope: go" ∷ []) (codes "\nNone.\n")
      front_lines

-- a repository with one rule, and a file that is none
abbrev rule_files : RulesSnapshot
rule_files = record {
  commit_sha = codes "c0";
  files =
      record { path = codes "README.md"; content = codes "Rules" }
      ∷ record { path = codes "globals.md"; content = codes "---\nGlobals\n---\nNone." }
      ∷ [];
}

abbrev stocked : Env
stocked = record embedding_world { rules_fetched = λ t. ok rule_files }

run-IsSynced_example : IsSynced stocked [] (run stocked (codes "acme") [])
run-IsSynced_example = run-IsSynced stocked (codes "acme") []

rule_paths_test : rule_paths stocked.decode_front_matter rule_files.files ≡ codes "globals.md" ∷ []
unfolding parse_rule strip_bom has_prefix trim_prefix strip_prefix cut_text at_separator extend
    split_front trim_newlines titled is_empty trim_space
rule_paths_test = refl

-- ===== src/Gateway/Commands.antt =====
-- How slash commands are read.
use codereviewer.Prelude.{
  ◌≡◌, ◌≢◌, refl, ◌∙◌, true, ◌∷◌, ◌++◌, map, arith, Text, codes, has_prefix, trim_space, cut-append,
  cut-none, Lacks, All-append,
}
use codereviewer.Gateway.{to_lower, first_line, before_cut, command_of, parse_slash_command}

is_slash : (s : Text) → has_prefix (b'/' ∷ s) (codes "/") ≡ true
unfolding has_prefix
is_slash s = refl

first_line-cut : (line below : Text) → Lacks b'\n' line → first_line (line ++ b'\n' ∷ below) ≡ line
unfolding first_line before_cut
first_line-cut line below h = rw (cut-append line b'\n' below h) refl

first_line-whole : (line : Text) → Lacks b'\n' line → first_line line ≡ line
unfolding first_line before_cut
first_line-whole line h = rw (cut-none line b'\n' h) refl

parse_line :
    (body name rest : Text)
    → Lacks b' ' name
    → has_prefix body (codes "/") ≡ true
    → first_line body ≡ name ++ b' ' ∷ rest
    → parse_slash_command body ≡ (map to_lower name, trim_space rest)
unfolding parse_slash_command command_of
parse_line body name rest h slash first = rw (slash, first, cut-append name b' ' rest h) refl

lower_slash :
    (name rest : Text)
    → ◌≡◌ {A = Text × Text}
        (map to_lower (b'/' ∷ name), trim_space rest)
        (b'/' ∷ map to_lower name, trim_space rest)
unfolding to_lower
lower_slash name rest = refl

-- A comment that begins with a slash, a name without a space, a space and more text in the same
-- line is read as the command of that name in lower case, with the text trimmed; the lines below do
-- not matter.
pub parse_slash_command_lem :
    (name rest below : Text)
    → Lacks b' ' name
    → Lacks b'\n' name
    → Lacks b'\n' rest
    → (parse_slash_command (b'/' ∷ name ++ b' ' ∷ rest)
        ≡ (b'/' ∷ map to_lower name, trim_space rest))
      × (parse_slash_command ((b'/' ∷ name ++ b' ' ∷ rest) ++ b'\n' ∷ below)
          ≡ (b'/' ∷ map to_lower name, trim_space rest))
parse_slash_command_lem name rest below hs hn hr =
    let slash_hs : Lacks b' ' (b'/' ∷ name) = (omega arith, hs) in
    let line_lacks : Lacks b'\n' (b'/' ∷ name ++ b' ' ∷ rest) =
      (omega arith, All-append (λ c. c ≢ b'\n') name (b' ' ∷ rest) hn (omega arith, hr)) in
    (
      parse_line _ (b'/' ∷ name) rest slash_hs (is_slash _) (first_line-whole _ line_lacks)
          ∙ lower_slash name rest,
      parse_line _ (b'/' ∷ name) rest slash_hs (is_slash _) (first_line-cut _ below line_lacks)
          ∙ lower_slash name rest,
    )

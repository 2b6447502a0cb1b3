-- ===== src/Overlay/Expansion.antt =====
-- What the expansion of variables leaves alone, and what it replaces.
use codereviewer.Prelude.{
  ℕ, ◌≡◌, ◌≢◌, refl, sym, ap, subst, ◌∙◌, true, false, [], ◌∷◌, ◌++◌, arith, Text, Lacks, nonempty,
  ◌==◌, append_assoc, append-nil,
}
use codereviewer.Overlay.{is_name_char, outside, inside, expand_from, expand_env}

copy_char :
    (getenv : Text → Text) (c : ℕ) (s : Text)
    → c ≢ b'$'
    → expand_from getenv outside (c ∷ s) ≡ c ∷ expand_from getenv outside s
unfolding expand_from
copy_char getenv c s plain = ground arith

expand_outside :
    (getenv : Text → Text) (s rest : Text)
    → Lacks b'$' s
    → expand_from getenv outside (s ++ rest) ≡ s ++ expand_from getenv outside rest
expand_outside getenv [] rest _ = refl
expand_outside getenv (c ∷ s) rest (plain, h) =
    copy_char getenv c (s ++ rest) plain ∙ ap (λ t. c ∷ t) (expand_outside getenv s rest h)

-- Behind `name`, the characters go on it.
abbrev pub GoesOn : Text → Text → Type 0
GoesOn name [] = Unit
GoesOn name (c ∷ s) = (is_name_char name c ≡ true) × GoesOn (name ++ c ∷ []) s

not_brace : (name : Text) (c : ℕ) → is_name_char name c ≡ true → (c == b'}') ≡ false
not_brace name c h = ground arith

longer :
    (getenv : Text → Text) (name : Text) (c : ℕ) (s : Text)
    → is_name_char name c ≡ true
    → expand_from getenv (inside name) (c ∷ s) ≡ expand_from getenv (inside (name ++ c ∷ [])) s
unfolding expand_from
longer getenv name c s h = rw (not_brace name c h, h) refl

closed :
    (getenv : Text → Text) (name rest : Text)
    → nonempty name ≡ true
    → expand_from getenv (inside name) (b'}' ∷ rest)
      ≡ getenv name ++ expand_from getenv outside rest
unfolding expand_from
closed getenv name rest h = rw h refl

expand_name :
    (getenv : Text → Text) (name more rest : Text)
    → GoesOn name more
    → nonempty (name ++ more) ≡ true
    → expand_from getenv (inside name) (more ++ b'}' ∷ rest)
      ≡ getenv (name ++ more) ++ expand_from getenv outside rest
expand_name getenv name [] rest _ h =
    closed getenv name rest (subst (λ n. nonempty n ≡ true) (append-nil name) h)
    ∙ ap (λ n. getenv n ++ expand_from getenv outside rest) (sym (append-nil name))
expand_name getenv name (c ∷ more) rest (goes, on) h =
    longer getenv name c (more ++ b'}' ∷ rest) goes
    ∙ expand_name getenv (name ++ c ∷ []) more rest on
        (subst (λ n. nonempty n ≡ true) (sym (append_assoc name (c ∷ []) more)) h)
    ∙ ap (λ n. getenv n ++ expand_from getenv outside rest) (append_assoc name (c ∷ []) more)

-- a name of a variable: letters, digits and underscores, with no digit first
abbrev pub IsName : Text → Type 0
IsName name = GoesOn [] name × (nonempty name ≡ true)

-- Text without "$" is left alone.
pub expand_env-plain : (getenv : Text → Text) (s : Text) → Lacks b'$' s → expand_env getenv s ≡ s
unfolding expand_env
expand_env-plain getenv s h =
    ap (expand_from getenv outside) (sym (append-nil s))
    ∙ expand_outside getenv s [] h
    ∙ (unfold expand_from in append-nil s)

-- Behind text without "$", a reference ${NAME} is replaced by the variable's value, and the
-- expansion goes on behind it; what the value holds is not expanded again.
pub expand_env-reference :
    (getenv : Text → Text) (before name behind : Text)
    → Lacks b'$' before
    → IsName name
    → expand_env getenv (before ++ (b'$' ∷ b'{' ∷ name ++ b'}' ∷ behind))
      ≡ before ++ (getenv name ++ expand_env getenv behind)
unfolding expand_env
expand_env-reference getenv before name behind plain (goes, full) =
    expand_outside getenv before (b'$' ∷ b'{' ∷ name ++ b'}' ∷ behind) plain
    ∙ ap (λ t. before ++ t)
        (opened (name ++ b'}' ∷ behind) ∙ expand_name getenv [] name behind goes full)
  where
    opened :
        (s : Text) → expand_from getenv outside (b'$' ∷ b'{' ∷ s) ≡ expand_from getenv (inside []) s
    opened s = unfold expand_from in refl

-- ===== src/Prelude/Strings.antt =====
-- Go strings as lists of code points, and the functions of `strings` and `strconv` that the
-- program calls.
use Prim.Native.Nat.{ℕ, zero, suc, ◌+◌, ◌-◌, ◌*◌, ◌/◌, ◌%◌}
use Prim.Native.Char.{code}
use Prim.Native.String.{String}
use mathlib.Core.Path.{◌≡◌, refl}
use mathlib.Core.Logic.{◌↔◌, ◌≢◌}
use mathlib.Core.Bool.{Bool, true, false, ◌&&◌, ◌||◌}
use mathlib.Core.Option.{Option, none, some}
use mathlib.Core.List.{List, [], ◌∷◌, ◌++◌, reverse}
use native.Mathlib.Omega.{arith}
use codereviewer.Prelude.Tests.{ltb, leb, ◌==◌, if◌then◌else◌, is_some}
use codereviewer.Prelude.Lists.{All}
use codereviewer.Prelude.Int.{ℤ, pos, negsuc, max_int64}

abbrev pub Text : Type 0
Text = List ℕ

-- a string literal
abbrev pub codes : String → Text
codes String.[] = []
codes (String.◌∷◌ c s) = code c ∷ codes s

-- s == t
unfoldable pub text_eq : Text → Text → Bool
text_eq [] [] = true
text_eq [] (d ∷ t) = false
text_eq (c ∷ s) [] = false
text_eq (c ∷ s) (d ∷ t) = c == d && text_eq s t

pub text_eq_iff : (s t : Text) → (text_eq s t ≡ true) ↔ (s ≡ t)
unfolding text_eq
text_eq_iff [] [] = ground arith
text_eq_iff [] (d ∷ t) = ground arith
text_eq_iff (c ∷ s) [] = ground arith
text_eq_iff (c ∷ s) (d ∷ t) = ground (arith, text_eq_iff s t)

pub text_eq_refl : (s : Text) → text_eq s s ≡ true
text_eq_refl s = (text_eq_iff s s).1 refl

-- s == ""
unfoldable pub is_empty : Text → Bool
is_empty [] = true
is_empty (c ∷ s) = false

-- what follows the prefix, if `s` has it
unfoldable pub strip_prefix : Text → Text → Option Text
strip_prefix s [] = some s
strip_prefix [] (p ∷ ps) = none
strip_prefix (c ∷ s) (p ∷ ps) = if c == p then strip_prefix s ps else none

-- strings.HasPrefix(s, prefix)
unfoldable pub has_prefix : Text → Text → Bool
unfolding strip_prefix
has_prefix s prefix = is_some (strip_prefix s prefix)

abbrev or_else : Text → Option Text → Text
or_else s none = s
or_else s (some t) = t

-- strings.TrimPrefix(s, prefix)
unfoldable pub trim_prefix : Text → Text → Text
unfolding strip_prefix
trim_prefix s prefix = or_else s (strip_prefix s prefix)

-- strings.HasSuffix(s, suffix)
unfoldable pub has_suffix : Text → Text → Bool
unfolding has_prefix
has_suffix s suffix = has_prefix (reverse s) (reverse suffix)

-- strings.TrimSuffix(s, suffix)
unfoldable pub trim_suffix : Text → Text → Text
unfolding trim_prefix
trim_suffix s suffix = reverse (trim_prefix (reverse s) (reverse suffix))

-- unicode.IsSpace
unfoldable pub is_space : ℕ → Bool
is_space c =
    (leb 9 c && leb c 13)
    || c == 32
    || c == 0x85
    || c == 0xa0
    || c == 0x1680
    || (leb 0x2000 c && leb c 0x200a)
    || c == 0x2028
    || c == 0x2029
    || c == 0x202f
    || c == 0x205f
    || c == 0x3000

-- strings.TrimLeftFunc(s, unicode.IsSpace)
unfoldable pub trim_left : Text → Text
unfolding is_space
trim_left [] = []
trim_left (c ∷ s) = let rest = trim_left s in if is_space c then rest else c ∷ s

-- strings.TrimSpace(s)
unfoldable pub trim_space : Text → Text
unfolding trim_left
trim_space s = reverse (trim_left (reverse (trim_left s)))

-- every line with a newline behind it
unfoldable pub unlines : List Text → Text
unlines [] = []
unlines (l ∷ ls) = l ++ b'\n' ∷ unlines ls

abbrev push_char : ℕ → List Text → List Text
push_char c [] = (c ∷ []) ∷ []
push_char c (w ∷ ws) = (c ∷ w) ∷ ws

-- strings.Split(s, sep) at a separator of one character: at least one part
unfoldable pub split : Text → ℕ → List Text
split [] sep = [] ∷ []
split (c ∷ s) sep = let rest = split s sep in if c == sep then [] ∷ rest else push_char c rest

-- s cut at its first character of a kind: the text before it and the text behind it, or `none`
-- if there is no such character
unfoldable pub cut_where : Text → (ℕ → Bool) → Option (Text × Text)
cut_where [] p = none
cut_where (c ∷ s) p =
    let rest = cut_where s p in
    if p c then some ([], s) else elim rest [ none ↦ none | some (a, b) ↦ some (c ∷ a, b) ]

-- s[:i] and s[i+1:] for i = strings.IndexByte(s, sep), or `none` if i < 0
unfoldable pub cut : Text → ℕ → Option (Text × Text)
unfolding cut_where
cut s sep = cut_where s (λ c. c == sep)

-- strings.ToLower, strings.ToUpper on ASCII letters
abbrev pub lower_char : ℕ → ℕ
lower_char c = if leb b'A' c && leb c b'Z' then c + 32 else c

abbrev pub upper_char : ℕ → ℕ
upper_char c = if leb b'a' c && leb c b'z' then c - 32 else c

abbrev pub is_digit : ℕ → Bool
is_digit c = leb b'0' c && leb c b'9'

-- the number that digits spell behind `n`, or `none` at another character
unfoldable pub read_digits : Text → ℕ → Option ℕ
read_digits [] n = some n
read_digits (c ∷ s) n = if is_digit c then read_digits s (n * 10 + (c - b'0')) else none

-- an unsigned number of at least one digit
unfoldable pub read_number : Text → Option ℕ
unfolding read_digits
read_number [] = none
read_number (c ∷ s) = read_digits (c ∷ s) 0

abbrev in_range : Bool → Option ℕ → Option ℤ
in_range minus none = none
in_range true (some n) =
    if n == 0 then some (pos 0) else if leb n (max_int64 + 1) then some (negsuc (n - 1)) else none
in_range false (some n) = if leb n max_int64 then some (pos n) else none

-- strconv.Atoi(s): an optional sign, one digit or more, and a value that fits an int64
unfoldable pub atoi : Text → Option ℤ
unfolding read_number
atoi [] = none
atoi (c ∷ s) =
    if c == b'-'
    then in_range true (read_number s)
    else if c == b'+'
    then in_range false (read_number s)
    else in_range false (read_number (c ∷ s))

-- the digits of `n` before `out`; the fuel is above `n`
unfoldable pub write_digits : ℕ → ℕ → Text → Text
write_digits zero n out = out
write_digits (suc f) n out =
    let rest = write_digits f (n / 10) ((b'0' + n % 10) ∷ out) in
    if ltb n 10 then (b'0' + n) ∷ out else rest

-- strconv.Itoa(n), and `%d`, of a number that is not negative
unfoldable pub itoa : ℕ → Text
unfolding write_digits
itoa n = write_digits (suc n) n []

abbrev pub Lacks : ℕ → Text → Type 0
Lacks b = All (λ c. c ≢ b)

itoa_test : itoa 1207 ≡ codes "1207"
unfolding itoa
itoa_test = refl

atoi_test : atoi (codes "-12") ≡ some (negsuc 11)
unfolding atoi
atoi_test = refl

trim_test : trim_space (codes " \ta b\n ") ≡ codes "a b"
unfolding trim_space
trim_test = refl

split_test : split (codes "a,,b") b',' ≡ codes "a" ∷ [] ∷ codes "b" ∷ []
unfolding split
split_test = refl

-- `%d` of an int
unfoldable pub print_int : ℤ → Text
unfolding itoa
print_int (pos n) = itoa n
print_int (negsuc n) = b'-' ∷ itoa (n + 1)

-- ===== src/Review/Posting/Comments.antt =====
-- Which of the LLM's comments are posted, with what verdict.
use codereviewer.Prelude.{
  ◌≡◌, refl, Bool, true, false, ◌||◌, List, [], ◌∷◌, ◌++◌, map, arith, keep, any_of, Bool-cases,
  inl, inr, if◌then◌else◌, append_assoc, append-nil, ◌⊎◌, ◌↔◌, codes, text_eq_iff,
}
use codereviewer.Dict.{Dict}
use codereviewer.Ports.{RawComment, BotComment}
use codereviewer.Review.Diff.{Lines, comment_lines_valid}
use codereviewer.Review.Posting.{blocks, bot_comment, Placed, place_one, place_from, place}

-- the comment names lines of the diff
abbrev pub is_in_diff : Dict Lines → RawComment → Bool
is_in_diff valid c = comment_lines_valid valid c.file c.start_line c.end_line

or_if : (b d : Bool) → (b || d) ≡ (if d then true else b)
or_if b true = ground arith
or_if b false = ground arith

or_assoc : (a b c : Bool) → ((a || b) || c) ≡ (a || (b || c))
or_assoc true b c = refl
or_assoc false b c = refl

place_one-true :
    (valid : Dict Lines) (cs : List BotComment) (b : Bool) (c : RawComment)
    → is_in_diff valid c ≡ true
    → place_one valid (record { comments = cs; has_blocker = b }) c
      ≡ record { comments = cs ++ bot_comment c ∷ []; has_blocker = b || blocks c }
unfolding place_one
place_one-true valid cs b c h = rw (h, or_if b (blocks c)) refl

place_one-false :
    (valid : Dict Lines) (p : Placed) (c : RawComment)
    → is_in_diff valid c ≡ false
    → place_one valid p c ≡ p
unfolding place_one
place_one-false valid p c h = rw h refl

place_from_lem :
    (valid : Dict Lines) (cs : List BotComment) (b : Bool) (raw : List RawComment)
    → place_from valid (record { comments = cs; has_blocker = b }) raw ≡ record {
      comments = cs ++ map bot_comment (keep (is_in_diff valid) raw);
      has_blocker = b || any_of blocks (keep (is_in_diff valid) raw);
    }
unfolding place_from
place_from_lem valid cs b [] = rw (append-nil cs, or_if b false) refl
place_from_lem valid cs b (c ∷ raw) = elim (Bool-cases (is_in_diff valid c)) [
  | inl e ↦
      rw
        (
          e,
          place_one-true valid cs b c e,
          place_from_lem valid (cs ++ bot_comment c ∷ []) (b || blocks c) raw,
          append_assoc cs (bot_comment c ∷ []) (map bot_comment (keep (is_in_diff valid) raw)),
          or_assoc b (blocks c) (any_of blocks (keep (is_in_diff valid) raw)),
        )
        refl
  | inr e ↦
      rw (e, place_one-false valid (record { comments = cs; has_blocker = b }) c e)
        (place_from_lem valid cs b raw)
]

-- the comments that are kept, by the functions of the code
pub place-keep :
    (valid : Dict Lines) (raw : List RawComment)
    → ((place valid raw).comments ≡ map bot_comment (keep (is_in_diff valid) raw))
      × ((place valid raw).has_blocker ≡ any_of blocks (keep (is_in_diff valid) raw))
unfolding place
place-keep valid raw = rw (place_from_lem valid [] false raw) (refl, refl)

-- the comment is about a bug or about security, or it has high severity
abbrev pub IsBlocker : RawComment → Type 0
IsBlocker c =
    (c.category ≡ codes "bug") ⊎ ((c.category ≡ codes "security") ⊎ (c.severity ≡ codes "high"))

pub blocks_iff : (c : RawComment) → (blocks c ≡ true) ↔ IsBlocker c
unfolding blocks
blocks_iff c = ground (
  arith,
  text_eq_iff c.category (codes "bug"),
  text_eq_iff c.category (codes "security"),
  text_eq_iff c.severity (codes "high"),
)

-- the comment that is posted says what the LLM's comment says, for the same lines
pub record IsPostOf (c : RawComment) (b : BotComment) : Type 0 where
  pub file : b.file ≡ c.file
  pub first : b.start_line ≡ c.start_line
  pub last : b.end_line ≡ c.end_line
  pub body : b.body ≡ c.comment
  pub category : b.category ≡ c.category
  pub severity : b.severity ≡ c.severity

-- Going through the LLM's comments, one is posted for each that names lines of the diff, and none
-- for the others.
pub data ArePosted (valid : Dict Lines) : List RawComment → List BotComment → Type 0 where
  no_more : ArePosted valid [] []
  posted :
      {c : RawComment} {b : BotComment} {cs : List RawComment} {bs : List BotComment}
      → is_in_diff valid c ≡ true
      → IsPostOf c b
      → ArePosted valid cs bs
      → ArePosted valid (c ∷ cs) (b ∷ bs)
  dropped :
      {c : RawComment} {cs : List RawComment} {bs : List BotComment}
      → is_in_diff valid c ≡ false
      → ArePosted valid cs bs
      → ArePosted valid (c ∷ cs) bs

-- some comment that names lines of the diff is a blocker
abbrev pub HasBlocker : Dict Lines → List RawComment → Type 0
HasBlocker valid [] = ⊥
HasBlocker valid (c ∷ cs) = ((is_in_diff valid c ≡ true) × IsBlocker c) ⊎ HasBlocker valid cs

bot_comment-IsPostOf : (c : RawComment) → IsPostOf c (bot_comment c)
unfolding bot_comment
bot_comment-IsPostOf c = record {
  file = refl;
  first = refl;
  last = refl;
  body = refl;
  category = refl;
  severity = refl;
}

keep-ArePosted :
    (valid : Dict Lines) (raw : List RawComment)
    → ArePosted valid raw (map bot_comment (keep (is_in_diff valid) raw))
keep-ArePosted valid [] = no_more
keep-ArePosted valid (c ∷ raw) = elim (Bool-cases (is_in_diff valid c)) [
  | inl e ↦ rw e (posted e (bot_comment-IsPostOf c) (keep-ArePosted valid raw))
  | inr e ↦ rw e (dropped e (keep-ArePosted valid raw))
]

keep-HasBlocker :
    (valid : Dict Lines) (raw : List RawComment)
    → (any_of blocks (keep (is_in_diff valid) raw) ≡ true) ↔ HasBlocker valid raw
keep-HasBlocker valid [] = ground arith
keep-HasBlocker valid (c ∷ raw) = elim (Bool-cases (is_in_diff valid c)) [
  | inl e ↦ rw e (ground (arith, blocks_iff c, keep-HasBlocker valid raw))
  | inr e ↦ rw e (ground (arith, keep-HasBlocker valid raw))
]

-- The bot posts, in the LLM's order, one comment with the same file, lines, text, category and
-- severity for each of the LLM's comments that names lines of the diff, and no other; and it holds
-- the review to be blocking exactly when one of those is about a bug or security or has high
-- severity.
pub place-ArePosted :
    (valid : Dict Lines) (raw : List RawComment)
    → ArePosted valid raw (place valid raw).comments
      × (((place valid raw).has_blocker ≡ true) ↔ HasBlocker valid raw)
place-ArePosted valid raw =
    let (comments, blocker) = place-keep valid raw in
    rw (comments, blocker) (keep-ArePosted valid raw, keep-HasBlocker valid raw)

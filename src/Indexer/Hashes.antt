-- ===== src/Indexer/Hashes.antt =====
-- Which hashes the indexer sends to the LLM: each missing one, once.
use mathlib.Core.List.{Mem, Nodup, Nodup-cons, mem-cons, Mem-prop, mem-cons_of_mem}
use mathlib.Core.List.{Pairwise}
use mathlib.Core.List.Perm
use mathlib.Core.Logic.Or
use codereviewer.Prelude.{
  ℕ, ◌≡◌, refl, inl, inr, true, false, List, [], ◌∷◌, map, arith, Text, text_eq_refl, All,
  Bool-cases, is_some, nonempty,
}
use codereviewer.Dict
use codereviewer.Dict.{Dict}
use codereviewer.Ports.{Vector, CodeChunkUpsert}
use codereviewer.RulesSync.Embeddings.{IsKnown}
use codereviewer.Walks.{walk, walk-Perm}
use codereviewer.Indexer.{Groups, add_chunks, group_of, to_embed, split_for_embedding, hash_of}
use codereviewer.Indexer.Groups.{IsGroup, hashes_of, add_chunks-Nodup, IsKnownGroup}

split_known :
    (h : Text) (hs : List Text) (groups : Groups) (cached : Dict Vector)
    → is_some (Dict.get cached h) ≡ true
    → split_for_embedding (h ∷ hs) groups cached ≡ split_for_embedding hs groups cached
unfolding split_for_embedding
split_known h hs groups cached e = rw e refl

split_new :
    (h : Text) (hs : List Text) (groups : Groups) (cached : Dict Vector)
    → is_some (Dict.get cached h) ≡ false
    → split_for_embedding (h ∷ hs) groups cached
      ≡ to_embed h (group_of groups h) (split_for_embedding hs groups cached)
unfolding split_for_embedding
split_new h hs groups cached e = rw e refl

abbrev todo_hashes : List (Text × Text) → List Text
todo_hashes = map (λ p. p.0)

mem-to_embed :
    (h x : Text) (group : List CodeChunkUpsert) (later : List (Text × Text))
    → Mem x (todo_hashes (to_embed h group later))
    → Mem x (h ∷ todo_hashes later)
unfolding to_embed
mem-to_embed h x [] later m = mem-cons_of_mem h m
mem-to_embed h x (c ∷ group) later m = m

mem-split :
    (hs : List Text) (groups : Groups) (cached : Dict Vector) (x : Text)
    → Mem x (todo_hashes (split_for_embedding hs groups cached))
    → Mem x hs
mem-split [] groups cached x m = unfold split_for_embedding in m
mem-split (h ∷ hs) groups cached x m = elim (Bool-cases (is_some (Dict.get cached h))) [
  | inl e ↦
      mem-cons_of_mem h (mem-split hs groups cached x (rw (split_known h hs groups cached e) at m))
  | inr e ↦
      Or.elim Mem-prop
        (mem-cons.0
          (mem-to_embed h x (group_of groups h) _ (rw (split_new h hs groups cached e) at m)))
        (λ own. mem-cons.1 (∣ inl own ∣₁)) (λ r. mem-cons_of_mem h (mem-split hs groups cached x r))
]

to_embed-Nodup :
    (h : Text) (group : List CodeChunkUpsert) (later : List (Text × Text))
    → ¬ Mem h (todo_hashes later)
    → Nodup (todo_hashes later)
    → Nodup (todo_hashes (to_embed h group later))
unfolding to_embed
to_embed-Nodup h [] later fresh d = d
to_embed-Nodup h (c ∷ group) later fresh d = Nodup-cons.1 (fresh, d)

split-Nodup :
    (hs : List Text) (groups : Groups) (cached : Dict Vector)
    → Nodup hs
    → Nodup (todo_hashes (split_for_embedding hs groups cached))
split-Nodup [] groups cached d = unfold split_for_embedding in d
split-Nodup (h ∷ hs) groups cached d =
    let (fresh, rest) = Nodup-cons.0 d in
    elim (Bool-cases (is_some (Dict.get cached h))) [
      | inl e ↦ rw (split_known h hs groups cached e) (split-Nodup hs groups cached rest)
      | inr e ↦ rw (split_new h hs groups cached e) (
          to_embed-Nodup h (group_of groups h) _ (λ m. fresh (mem-split hs groups cached h m))
            (split-Nodup hs groups cached rest))
    ]

-- Whatever the chunks of a push, the order of the walk and the cache, no hash is sent to the LLM
-- twice.
pub split_for_embedding-Nodup :
    (cs : List CodeChunkUpsert) (choices : List ℕ) (cached : Dict Vector)
    → Nodup (
        map
          (λ p. p.0)
          (split_for_embedding
            (map hash_of (walk choices (add_chunks [] cs)))
            (add_chunks [] cs)
            cached))
split_for_embedding-Nodup cs choices cached = split-Nodup _ (add_chunks [] cs) cached (
    Perm.nodup (Perm.symm (Perm.map hash_of (walk-Perm choices (add_chunks [] cs))))
      (add_chunks-Nodup [] cs Pairwise.nil))

-- the groups that are looked up have a first chunk
abbrev pub IsFull : Groups → Text × List CodeChunkUpsert → Type 0
IsFull groups g = nonempty (group_of groups g.0) ≡ true

full_more :
    (k : Text) (group : List CodeChunkUpsert) (rest : Groups) (h : Text)
    → nonempty group ≡ true
    → nonempty (group_of rest h) ≡ true
    → nonempty (group_of ((k, group) ∷ rest) h) ≡ true
unfolding group_of
full_more k group rest h own later = ground arith

full_own :
    (k : Text) (group : List CodeChunkUpsert) (rest : Groups)
    → nonempty group ≡ true
    → nonempty (group_of ((k, group) ∷ rest) k) ≡ true
unfolding group_of
full_own k group rest own = rw text_eq_refl own

IsFull-later :
    (k : Text) (group : List CodeChunkUpsert) (rest gs : Groups)
    → nonempty group ≡ true
    → All (IsFull rest) gs
    → All (IsFull ((k, group) ∷ rest)) gs
IsFull-later k group rest [] own _ = tt
IsFull-later k group rest ((h, g) ∷ gs) own (now, later) =
    (full_more k group rest h own now, IsFull-later k group rest gs own later)

pub group_of-All : (groups : Groups) → All IsGroup groups → All (IsFull groups) groups
group_of-All [] _ = tt
group_of-All ((h, group) ∷ rest) ((_, full), good) =
    (full_own h group rest full, IsFull-later h group rest rest full (group_of-All rest good))

to_embed_full :
    (d : Dict Vector) (h : Text) (group : List CodeChunkUpsert) (later : List (Text × Text))
    → nonempty group ≡ true
    → All (IsKnown d) (to_embed h group later)
    → (is_some (Dict.get d h) ≡ true) × All (IsKnown d) later
unfolding to_embed
to_embed_full d h [] later full a = absurd (ground arith)
to_embed_full d h (c ∷ group) later full a = a

-- when the missing hashes are known, all are
pub split_lem :
    (c d : Dict Vector) (groups gs : Groups)
    → ((h : Text) → is_some (Dict.get c h) ≡ true → is_some (Dict.get d h) ≡ true)
    → All (IsFull groups) gs
    → All (IsKnown d) (split_for_embedding (hashes_of gs) groups c)
    → All (IsKnownGroup d) gs
split_lem c d groups [] k full a = tt
split_lem c d groups ((h, group) ∷ gs) k (own, full) a =
    elim (Bool-cases (is_some (Dict.get c h))) [
      | inl e ↦ (
        k h e,
        split_lem c d groups gs k full (rw (split_known h (hashes_of gs) groups c e) at a),
      )
      | inr e ↦
          let (now, later) =
            to_embed_full d h (group_of groups h) _ own
              (rw (split_new h (hashes_of gs) groups c e) at a) in
          (now, split_lem c d groups gs k full later)
    ]

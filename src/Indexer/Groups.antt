-- ===== src/Indexer/Groups.antt =====
-- How the indexer groups chunks by the hash of their content: no chunk is lost or doubled, whatever
-- the order of the walks, and no hash is embedded twice.
use mathlib.Core.List.{
  Mem, Perm, Nodup, Nodup-cons, perm_middle, mem-cons, not-mem-nil, Mem-prop, mem-cons_of_mem,
  perm_append_comm, map-append,
}
use mathlib.Core.List.Perm
use mathlib.Core.Logic.Or
use codereviewer.Prelude.{
  ℕ, zero, suc, ◌≡◌, refl, sym, ap, subst, ◌∙◌, true, false, Option, none, some, List, [], ◌∷◌,
  ◌++◌, map, arith, Text, text_eq, All, Bool-cases, inl, inr, is_some, append_assoc, append-nil,
  nonempty, All-append, text_eq_iff, ◌≢◌,
}
use codereviewer.Dict
use codereviewer.Dict.{Dict}
use codereviewer.Ports.{Vector, CodeChunkUpsert}
use codereviewer.RulesSync.{vector_or_nil}
use codereviewer.Walks.{insert_at, walk}
use codereviewer.Indexer.{
  Groups, add_chunk, add_chunks, use_vector, upserts_of, embedded_as, hash_of,
}

-- all chunks of the groups
abbrev pub chunks_of : Groups → List CodeChunkUpsert
chunks_of [] = []
chunks_of ((h, group) ∷ rest) = group ++ chunks_of rest

-- chunks of two groups change places
swap_chunks : (a b c : List CodeChunkUpsert) → Perm (b ++ (a ++ c)) (a ++ (b ++ c))
swap_chunks a b c =
    rw (← append_assoc b a c, ← append_assoc a b c) (Perm.append_right c (perm_append_comm b a))

chunks_of-insert_at :
    (n : ℕ) (g : Text × List CodeChunkUpsert) (gs : Groups)
    → Perm (chunks_of (insert_at n g gs)) (g.1 ++ chunks_of gs)
unfolding insert_at
chunks_of-insert_at n (h, group) [] = Perm.refl _
chunks_of-insert_at zero (h, group) ((k, other) ∷ gs) = Perm.refl _
chunks_of-insert_at (suc n) (h, group) ((k, other) ∷ gs) =
    Perm.trans (Perm.append_left other (chunks_of-insert_at n (h, group) gs))
      (swap_chunks group other (chunks_of gs))

pub chunks_of-walk :
    (choices : List ℕ) (gs : Groups) → Perm (chunks_of (walk choices gs)) (chunks_of gs)
unfolding walk
chunks_of-walk choices [] = Perm.refl []
chunks_of-walk [] ((h, group) ∷ gs) = Perm.append_left group (chunks_of-walk [] gs)
chunks_of-walk (n ∷ choices) ((h, group) ∷ gs) =
    Perm.trans (chunks_of-insert_at n (h, group) (walk choices gs))
      (Perm.append_left group (chunks_of-walk choices gs))

add_chunk-Perm :
    (groups : Groups) (c : CodeChunkUpsert)
    → Perm (chunks_of (add_chunk groups c)) (c ∷ chunks_of groups)
unfolding add_chunk
add_chunk-Perm [] c = Perm.refl (c ∷ [])
add_chunk-Perm ((h, group) ∷ rest) c = elim (Bool-cases (text_eq h c.content_hash)) [
  | inl e ↦ rw (e, append_assoc) (perm_middle group (chunks_of rest))
  | inr e ↦ rw e (
      Perm.trans (Perm.append_left group (add_chunk-Perm rest c))
        (perm_middle group (chunks_of rest)))
]

pub add_chunks-Perm :
    (groups : Groups) (cs : List CodeChunkUpsert)
    → Perm (chunks_of (add_chunks groups cs)) (chunks_of groups ++ cs)
unfolding add_chunks
add_chunks-Perm groups [] = rw (append-nil (chunks_of groups)) (Perm.refl _)
add_chunks-Perm groups (c ∷ cs) = Perm.trans (add_chunks-Perm (add_chunk groups c) cs) (
    Perm.trans (Perm.append_right cs (add_chunk-Perm groups c))
      (Perm.symm (perm_middle (chunks_of groups) cs)))

-- A group has chunks, and they have its hash.
abbrev pub IsGroup : Text × List CodeChunkUpsert → Type 0
IsGroup g = All (λ c. c.content_hash ≡ g.0) g.1 × (nonempty g.1 ≡ true)

nonempty_more :
    (group : List CodeChunkUpsert) (c : CodeChunkUpsert) → nonempty (group ++ c ∷ []) ≡ true
nonempty_more [] c = refl
nonempty_more (b ∷ group) c = refl

add_chunk-IsGroup :
    (groups : Groups) (c : CodeChunkUpsert) → All IsGroup groups → All IsGroup (add_chunk groups c)
unfolding add_chunk
add_chunk-IsGroup [] c _ = (((refl, tt), refl), tt)
add_chunk-IsGroup ((h, group) ∷ rest) c ((same, full), later) =
    elim (Bool-cases (text_eq h c.content_hash)) [
      | inl e ↦
          let own : c.content_hash ≡ h = sym ((text_eq_iff h c.content_hash).0 e) in
          rw e (
            (
              All-append (λ x. x.content_hash ≡ h) group (c ∷ []) same (own, tt),
              nonempty_more group c,
            ),
            later,
          )
      | inr e ↦ rw e ((same, full), add_chunk-IsGroup rest c later)
    ]

pub add_chunks-IsGroup :
    (groups : Groups) (cs : List CodeChunkUpsert)
    → All IsGroup groups
    → All IsGroup (add_chunks groups cs)
unfolding add_chunks
add_chunks-IsGroup groups [] good = good
add_chunks-IsGroup groups (c ∷ cs) good =
    add_chunks-IsGroup (add_chunk groups c) cs (add_chunk-IsGroup groups c good)

abbrev pub hashes_of : Groups → List Text
hashes_of = map hash_of

mem-add_chunk :
    (groups : Groups) (c : CodeChunkUpsert) (x : Text)
    → x ≢ c.content_hash
    → Mem x (hashes_of (add_chunk groups c))
    → Mem x (hashes_of groups)
unfolding add_chunk
mem-add_chunk [] c x n m = Or.elim Mem-prop (mem-cons.0 m) (λ e. absurd (n e)) (λ r. r)
mem-add_chunk ((h, group) ∷ rest) c x n m = elim (Bool-cases (text_eq h c.content_hash)) [
  | inl e ↦ rw e at m
  | inr e ↦
      Or.elim Mem-prop (mem-cons.0 (rw e at m)) (λ own. mem-cons.1 (∣ inl own ∣₁))
        (λ r. mem-cons_of_mem h (mem-add_chunk rest c x n r))
]

add_chunk-Nodup :
    (groups : Groups) (c : CodeChunkUpsert)
    → Nodup (hashes_of groups)
    → Nodup (hashes_of (add_chunk groups c))
unfolding add_chunk
add_chunk-Nodup [] c d = Nodup-cons.1 (not-mem-nil, d)
add_chunk-Nodup ((h, group) ∷ rest) c d = elim (Bool-cases (text_eq h c.content_hash)) [
  | inl e ↦ rw e d
  | inr e ↦
      let (fresh, later) = Nodup-cons.0 d in
      let other : h ≢ c.content_hash =
        λ same. ground (arith, (text_eq_iff h c.content_hash).1 same) in
      rw e
        (Nodup-cons.1 (λ m. fresh (mem-add_chunk rest c h other m), add_chunk-Nodup rest c later))
]

-- The hashes of the groups stay distinct as chunks are added.
pub add_chunks-Nodup :
    (groups : Groups) (cs : List CodeChunkUpsert)
    → Nodup (hashes_of groups)
    → Nodup (hashes_of (add_chunks groups cs))
unfolding add_chunks
add_chunks-Nodup groups [] d = d
add_chunks-Nodup groups (c ∷ cs) d =
    add_chunks-Nodup (add_chunk groups c) cs (add_chunk-Nodup groups c d)

-- the chunk with the vector of its hash
abbrev pub with_vector : Dict Vector → CodeChunkUpsert → CodeChunkUpsert
with_vector vectors c = record c { embedding = vector_or_nil (Dict.get vectors c.content_hash) }

-- the group has a vector
abbrev pub IsKnownGroup : Dict Vector → Text × List CodeChunkUpsert → Type 0
IsKnownGroup vectors g = is_some (Dict.get vectors g.0) ≡ true

embed_group :
    (vectors : Dict Vector) (h : Text) (group : List CodeChunkUpsert)
    → All (λ c. c.content_hash ≡ h) group
    → map (embedded_as (vector_or_nil (Dict.get vectors h))) group ≡ map (with_vector vectors) group
embed_group vectors h [] _ = refl
embed_group vectors h (c ∷ group) (own, rest) = rw (own, embed_group vectors h group rest) refl

known_vector :
    (group later : List CodeChunkUpsert) (found : Option Vector)
    → is_some found ≡ true
    → use_vector group found later ≡ map (embedded_as (vector_or_nil found)) group ++ later
unfolding use_vector
known_vector group later none h = absurd (ground arith)
known_vector group later (some v) h = refl

-- Where all groups have vectors, each chunk is upserted with the vector of its hash.
pub upserts_of_lem :
    (vectors : Dict Vector) (gs : Groups)
    → All IsGroup gs
    → All (IsKnownGroup vectors) gs
    → upserts_of vectors gs ≡ map (with_vector vectors) (chunks_of gs)
unfolding upserts_of
upserts_of_lem vectors [] _ _ = refl
upserts_of_lem vectors ((h, group) ∷ gs) ((own, _), good) (known, rest) =
    known_vector group (upserts_of vectors gs) (Dict.get vectors h) known
    ∙ ap (λ l. l ++ upserts_of vectors gs) (embed_group vectors h group own)
    ∙ ap (λ l. map (with_vector vectors) group ++ l) (upserts_of_lem vectors gs good rest)
    ∙ sym (map-append (with_vector vectors) group (chunks_of gs))

-- the chunk's hash has a vector
abbrev pub HasVector : Dict Vector → CodeChunkUpsert → Type 0
HasVector vectors c = is_some (Dict.get vectors c.content_hash) ≡ true

add_chunk_own :
    (h : Text) (group : List CodeChunkUpsert) (rest : Groups) (c : CodeChunkUpsert)
    → text_eq h c.content_hash ≡ true
    → add_chunk ((h, group) ∷ rest) c ≡ (h, group ++ c ∷ []) ∷ rest
unfolding add_chunk
add_chunk_own h group rest c e = rw e refl

add_chunk_other :
    (h : Text) (group : List CodeChunkUpsert) (rest : Groups) (c : CodeChunkUpsert)
    → text_eq h c.content_hash ≡ false
    → add_chunk ((h, group) ∷ rest) c ≡ (h, group) ∷ add_chunk rest c
unfolding add_chunk
add_chunk_other h group rest c e = rw e refl

add_chunk-known :
    (vectors : Dict Vector) (groups : Groups) (c : CodeChunkUpsert)
    → All (IsKnownGroup vectors) (add_chunk groups c)
    → HasVector vectors c × All (IsKnownGroup vectors) groups
add_chunk-known vectors [] c a = unfold add_chunk in a
add_chunk-known vectors ((h, group) ∷ rest) c a = elim (Bool-cases (text_eq h c.content_hash)) [
  | inl e ↦
      let (now, later) = subst (All (IsKnownGroup vectors)) (add_chunk_own h group rest c e) a in
      let same : h ≡ c.content_hash = (text_eq_iff h c.content_hash).0 e in
      (subst (λ k. is_some (Dict.get vectors k) ≡ true) same now, (now, later))
  | inr e ↦
      let (now, more) = subst (All (IsKnownGroup vectors)) (add_chunk_other h group rest c e) a in
      let (own, later) = add_chunk-known vectors rest c more in (own, (now, later))
]

-- When the groups of chunks have vectors, the chunks do.
pub add_chunks-known :
    (vectors : Dict Vector) (groups : Groups) (cs : List CodeChunkUpsert)
    → All (IsKnownGroup vectors) (add_chunks groups cs)
    → All (HasVector vectors) cs × All (IsKnownGroup vectors) groups
add_chunks-known vectors groups [] a = unfold add_chunks in (tt, a)
add_chunks-known vectors groups (c ∷ cs) a =
    let (later, more) = add_chunks-known vectors (add_chunk groups c) cs (unfold add_chunks in a) in
    let (own, before) = add_chunk-known vectors groups c more in ((own, later), before)

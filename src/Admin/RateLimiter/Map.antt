-- ===== src/Admin/RateLimiter/Map.antt =====
-- The limiter's map of buckets: lookup after a write and after the sweep.
use codereviewer.Prelude.{
  ℕ, ◌+◌, ◌*◌, ◌≡◌, refl, sym, subst, ◌∙◌, inl, inr, Bool, true, false, Option, none, some, [], ◌∷◌,
  arith, Text, text_eq, text_eq_iff, text_eq_refl, Bool-cases, ltb, if◌then◌else◌,
}
use codereviewer.Ports.{Time}
use codereviewer.Admin.RateLimiter.{IpBucket, Buckets, find, put, gc_old}

-- an address has one entry at most
abbrev pub IsMap : Buckets → Type 0
IsMap [] = Unit
IsMap ((k, b) ∷ bs) = (find bs k ≡ none) × IsMap bs

find-put :
    (bs : Buckets) (ip k : Text) (b : IpBucket)
    → find (put bs ip b) k ≡ (if text_eq ip k then some b else find bs k)
unfolding find put
find-put [] ip k b = refl
find-put ((j, old) ∷ bs) ip k b = elim (Bool-cases (text_eq j ip)) [
  | inl e ↦ rw (e, (text_eq_iff j ip).0 e) (hidden (text_eq ip k))
  | inr e ↦ rw (e, find-put bs ip k b) (other (text_eq j k) (text_eq ip k) (apart e))
]
  where
    hidden :
        (h : Bool)
        → (if h then some b else find bs k)
          ≡ (if h then some b else if h then some old else find bs k)
    hidden true = refl
    hidden false = refl

    apart : text_eq j ip ≡ false → (text_eq j k ≡ true) → text_eq ip k ≡ false
    apart e p = ground (arith, text_eq_iff j k, text_eq_iff ip k, text_eq_refl j)

    other :
        (p q : Bool)
        → (p ≡ true → q ≡ false)
        → (if p then some old else if q then some b else find bs k)
          ≡ (if q then some b else if p then some old else find bs k)
    other true true h = absurd (ground (arith, h refl))
    other true false h = refl
    other false q h = refl

other_text : (a b : Text) → text_eq a b ≡ false → text_eq b a ≡ false
other_text a b e = ground (arith, text_eq_iff a b, text_eq_iff b a)

pub find-put_other :
    (bs : Buckets) (ip k : Text) (b : IpBucket)
    → text_eq ip k ≡ false
    → find (put bs ip b) k ≡ find bs k
find-put_other bs ip k b e = find-put bs ip k b ∙ (rw e refl)

pub find-put_self : (bs : Buckets) (ip : Text) (b : IpBucket) → find (put bs ip b) ip ≡ some b
find-put_self bs ip b = find-put bs ip ip b ∙ (rw (text_eq_refl ip) refl)

put_same :
    (j ip : Text) (old b : IpBucket) (bs : Buckets)
    → text_eq j ip ≡ true
    → put ((j, old) ∷ bs) ip b ≡ (j, b) ∷ bs
unfolding put
put_same j ip old b bs e = rw e refl

put_other :
    (j ip : Text) (old b : IpBucket) (bs : Buckets)
    → text_eq j ip ≡ false
    → put ((j, old) ∷ bs) ip b ≡ (j, old) ∷ put bs ip b
unfolding put
put_other j ip old b bs e = rw e refl

pub put-IsMap : (bs : Buckets) (ip : Text) (b : IpBucket) → IsMap bs → IsMap (put bs ip b)
put-IsMap [] ip b _ = unfold put find in (refl, tt)
put-IsMap ((j, old) ∷ bs) ip b (fresh, m) = elim (Bool-cases (text_eq j ip)) [
  | inl e ↦ rw (put_same j ip old b bs e) (fresh, m)
  | inr e ↦
      rw (put_other j ip old b bs e)
        (find-put_other bs ip j b (other_text j ip e) ∙ fresh, put-IsMap bs ip b m)
]

-- what the sweep leaves of an entry
abbrev pub swept : ℕ → Time → Option IpBucket → Option IpBucket
swept w now none = none
swept w now (some b) = if ltb (b.window_start + 2 * w) now then none else some b

find_head :
    (j k : Text) (b : IpBucket) (bs : Buckets) → text_eq j k ≡ true → find ((j, b) ∷ bs) k ≡ some b
unfolding find
find_head j k b bs e = rw e refl

find_tail :
    (j k : Text) (b : IpBucket) (bs : Buckets)
    → text_eq j k ≡ false
    → find ((j, b) ∷ bs) k ≡ find bs k
unfolding find
find_tail j k b bs e = rw e refl

gc_keep :
    (w : ℕ) (now : Time) (j : Text) (b : IpBucket) (bs : Buckets)
    → ltb (b.window_start + 2 * w) now ≡ false
    → gc_old w now ((j, b) ∷ bs) ≡ (j, b) ∷ gc_old w now bs
unfolding gc_old
gc_keep w now j b bs e = rw e refl

gc_drop :
    (w : ℕ) (now : Time) (j : Text) (b : IpBucket) (bs : Buckets)
    → ltb (b.window_start + 2 * w) now ≡ true
    → gc_old w now ((j, b) ∷ bs) ≡ gc_old w now bs
unfolding gc_old
gc_drop w now j b bs e = rw e refl

gc-none :
    (w : ℕ) (now : Time) (bs : Buckets) (k : Text)
    → find bs k ≡ none
    → find (gc_old w now bs) k ≡ none
gc-none w now [] k h = unfold gc_old in h
gc-none w now ((j, b) ∷ bs) k h = elim (Bool-cases (text_eq j k)) [
  | inl e ↦ absurd (clash (sym (find_head j k b bs e) ∙ h))
  | inr e ↦
      let later = gc-none w now bs k (sym (find_tail j k b bs e) ∙ h) in
      elim (Bool-cases (ltb (b.window_start + 2 * w) now)) [
        | inl old ↦ rw (gc_drop w now j b bs old) later
        | inr young ↦ rw (gc_keep w now j b bs young) (find_tail j k b _ e ∙ later)
      ]
]
  where
    clash : some b ≡ none → ⊥
    clash p = ground arith

pub find-gc :
    (w : ℕ) (now : Time) (bs : Buckets) (k : Text)
    → IsMap bs
    → find (gc_old w now bs) k ≡ swept w now (find bs k)
find-gc w now [] k _ = unfold gc_old find in refl
find-gc w now ((j, b) ∷ bs) k (fresh, m) = elim (Bool-cases (text_eq j k)) [
  | inl e ↦ elim (Bool-cases (ltb (b.window_start + 2 * w) now)) [
    | inl old ↦
        rw (gc_drop w now j b bs old, find_head j k b bs e, old)
          (gc-none w now bs k (subst (λ x. find bs x ≡ none) ((text_eq_iff j k).0 e) fresh))
    | inr young ↦
        rw (gc_keep w now j b bs young, find_head j k b bs e, find_head j k b _ e, young) refl
  ]
  | inr e ↦ elim (Bool-cases (ltb (b.window_start + 2 * w) now)) [
    | inl old ↦ rw (gc_drop w now j b bs old, find_tail j k b bs e) (find-gc w now bs k m)
    | inr young ↦
        rw (gc_keep w now j b bs young, find_tail j k b bs e, find_tail j k b _ e)
          (find-gc w now bs k m)
  ]
]

pub gc-IsMap : (w : ℕ) (now : Time) (bs : Buckets) → IsMap bs → IsMap (gc_old w now bs)
gc-IsMap w now [] _ = unfold gc_old in tt
gc-IsMap w now ((j, b) ∷ bs) (fresh, m) = elim (Bool-cases (ltb (b.window_start + 2 * w) now)) [
  | inl old ↦ rw (gc_drop w now j b bs old) (gc-IsMap w now bs m)
  | inr young ↦ rw (gc_keep w now j b bs young) (gc-none w now bs j fresh, gc-IsMap w now bs m)
]

-- ===== src/Admin/RateLimiter/Window.antt =====
-- What the limiter lets through: its answers to one address are those of that address's own window,
-- so neither other addresses nor the sweep of old windows show.
use codereviewer.Prelude.{
  ℕ, ◌+◌, ◌*◌, ◌≤◌, ◌≡◌, refl, sym, ap, subst, ◌∙◌, ◌⊎◌, inl, inr, Bool, true, false, Option, none,
  some, List, [], ◌∷◌, arith, Text, text_eq, text_eq_iff, Bool-cases, ltb, leb, if◌then◌else◌,
}
use codereviewer.Prelude.Int.{ℤ, pos, leb_ℤ}
use codereviewer.Ports.{Time}
use codereviewer.Admin.RateLimiter.{IpBucket, find, RateLimiter, mint, use_count, allow}
use codereviewer.Admin.RateLimiter.Map.{
  IsMap, find-put_other, find-put_self, put-IsMap, swept, find-gc, gc-IsMap,
}

abbrev pub fresh : Time → IpBucket
fresh now = record { count = 1; window_start = now }

module _ (w : ℕ) (limit : ℤ) where
  -- one address alone: its window, if one has begun, and whether a request passes
  abbrev pub serve_one : Option IpBucket → Time → Option IpBucket × Bool
  serve_one none now = (some (fresh now), true)
  serve_one (some b) now =
      if leb (b.window_start + w) now
      then (some (fresh now), true)
      else if leb_ℤ limit (pos b.count)
      then (some b, false)
      else (some (record b { count = b.count + 1 }), true)

  abbrev pub serve_all : Option IpBucket → List Time → List Bool
  serve_all s [] = []
  serve_all s (now ∷ ts) = (serve_one s now).1 ∷ serve_all (serve_one s now).0 ts

is_leb : (a b : ℕ) → a ≤ b → leb a b ≡ true
is_leb a b h = ground arith

-- what the limiter keeps of an address's window: all, or nothing once it is over
abbrev IsLike : ℕ → Time → Option IpBucket → Option IpBucket → Type 0
IsLike w now kept s =
    (kept ≡ s) ⊎ ((kept ≡ none) × (b : IpBucket) × (s ≡ some b) × (b.window_start + w ≤ now))

later-IsLike :
    (w : ℕ) (last now : Time) (kept s : Option IpBucket)
    → last ≤ now
    → IsLike w last kept s
    → IsLike w now kept s
later-IsLike w last now kept s le (inl e) = inl e
later-IsLike w last now kept s le (inr (gone, b, e, over)) =
    inr (gone, b, e, omega (arith, over, le))

swept-IsLike :
    (w : ℕ) (now : Time) (kept s : Option IpBucket)
    → IsLike w now kept s
    → IsLike w now (swept w now kept) s
swept-IsLike w now none s h = h
swept-IsLike w now (some b) s (inl e) = elim (Bool-cases (ltb (b.window_start + 2 * w) now)) [
  | inl old ↦ rw old (inr (refl, b, sym e, ground (arith, old)))
  | inr young ↦ rw young (inl e)
]
swept-IsLike w now (some b) s (inr (gone, _, _, _)) = absurd (clash gone)
  where
    clash : some b ≡ none → ⊥
    clash p = ground arith

-- the limiter after one step, seen from one address
record Agrees (r next : RateLimiter) (ip : Text) (now : Time) (s : Option IpBucket) : Type 0 where
  map_kept : IsMap next.buckets
  window_kept : next.window ≡ r.window
  limit_kept : next.limit ≡ r.limit
  like : IsLike r.window now (find next.buckets ip) s

module _ (r : RateLimiter) (is_map : IsMap r.buckets) (now : Time) where
  mint_self : (ip : Text) → Agrees r (mint r ip now) ip now (some (fresh now))
  unfolding mint
  mint_self ip = record {
    map_kept = gc-IsMap r.window now _ (put-IsMap r.buckets ip (fresh now) is_map);
    window_kept = refl;
    limit_kept = refl;
    like =
        rw (find-gc r.window now _ ip (put-IsMap r.buckets ip (fresh now) is_map))
          (swept-IsLike r.window now _ _ (inl (find-put_self r.buckets ip (fresh now))));
  }

  mint_other :
      (k ip : Text) (s : Option IpBucket)
      → text_eq k ip ≡ false
      → IsLike r.window now (find r.buckets ip) s
      → Agrees r (mint r k now) ip now s
  unfolding mint
  mint_other k ip s e h = record {
    map_kept = gc-IsMap r.window now _ (put-IsMap r.buckets k (fresh now) is_map);
    window_kept = refl;
    limit_kept = refl;
    like = rw (find-gc r.window now _ ip (put-IsMap r.buckets k (fresh now) is_map)) (
        swept-IsLike r.window now _ s (
          subst (λ x. IsLike r.window now x s) (sym (find-put_other r.buckets k ip (fresh now) e))
            h));
  }

  count_other :
      (k ip : Text) (s found : Option IpBucket)
      → text_eq k ip ≡ false
      → IsLike r.window now (find r.buckets ip) s
      → Agrees r (use_count r k now found).0 ip now s
  count_other k ip s none e h = unfold use_count in mint_other k ip s e h
  count_other k ip s (some b) e h = elim (Bool-cases (leb (b.window_start + r.window) now)) [
    | inl over ↦ unfold use_count in rw over (mint_other k ip s e h)
    | inr open_still ↦ elim (Bool-cases (leb_ℤ r.limit (pos b.count))) [
      | inl full ↦
          unfold use_count in
          rw (open_still, full)
            (record { map_kept = is_map; window_kept = refl; limit_kept = refl; like = h })
      | inr free ↦
          unfold use_count in
          rw (open_still, free)
            (record {
              map_kept = put-IsMap r.buckets k (record b { count = b.count + 1 }) is_map;
              window_kept = refl;
              limit_kept = refl;
              like =
                  subst (λ x. IsLike r.window now x s)
                    (sym (find-put_other r.buckets k ip (record b { count = b.count + 1 }) e)) h;
            })
    ]
  ]

  -- the answer and the next window are those of the address alone
  abbrev Follows : Text → Option IpBucket → RateLimiter × Bool → Type 0
  Follows ip s out =
      (out.1 ≡ (serve_one r.window r.limit s now).1)
      × Agrees r out.0 ip now (serve_one r.window r.limit s now).0

  count_self :
      (ip : Text) (found : Option IpBucket)
      → find r.buckets ip ≡ found
      → Follows ip found (use_count r ip now found)
  count_self ip none h = unfold use_count in (refl, mint_self ip)
  count_self ip (some b) h = elim (Bool-cases (leb (b.window_start + r.window) now)) [
    | inl over ↦ unfold use_count in rw over (refl, mint_self ip)
    | inr open_still ↦ elim (Bool-cases (leb_ℤ r.limit (pos b.count))) [
      | inl full ↦
          unfold use_count in
          rw (open_still, full)
            (
              refl,
              record { map_kept = is_map; window_kept = refl; limit_kept = refl; like = inl h },
            )
      | inr free ↦
          unfold use_count in
          rw (open_still, free)
            (
              refl,
              record {
                map_kept = put-IsMap r.buckets ip (record b { count = b.count + 1 }) is_map;
                window_kept = refl;
                limit_kept = refl;
                like = inl (find-put_self r.buckets ip (record b { count = b.count + 1 }));
              },
            )
    ]
  ]

  -- a window that is over is as none
  over_as_none :
      (b : IpBucket)
      → b.window_start + r.window ≤ now
      → serve_one r.window r.limit (some b) now ≡ serve_one r.window r.limit none now
  over_as_none b h = rw (is_leb (b.window_start + r.window) now h) refl

  allow_self :
      (ip : Text) (s : Option IpBucket)
      → IsLike r.window now (find r.buckets ip) s
      → Follows ip s (allow r ip now)
  unfolding allow
  allow_self ip s (inl e) =
      subst (λ x. Follows ip x (use_count r ip now (find r.buckets ip))) e
        (count_self ip (find r.buckets ip) refl)
  allow_self ip s (inr (gone, b, e, over)) =
      rw (e, over_as_none b over, gone) (count_self ip none gone)

  allow_other :
      (k ip : Text) (s : Option IpBucket)
      → text_eq k ip ≡ false
      → IsLike r.window now (find r.buckets ip) s
      → Agrees r (allow r k now).0 ip now s
  unfolding allow
  allow_other k ip s e h = count_other k ip s (find r.buckets k) e h

-- the answers to the requests of one address among those of all
unfoldable pub answers_to : Text → RateLimiter → List (Text × Time) → List Bool
answers_to ip r [] = []
answers_to ip r ((k, now) ∷ reqs) =
    let rest = answers_to ip (allow r k now).0 reqs in
    if text_eq k ip then (allow r k now).1 ∷ rest else rest

abbrev pub times_of : Text → List (Text × Time) → List Time
times_of ip [] = []
times_of ip ((k, now) ∷ reqs) =
    let rest = times_of ip reqs in if text_eq k ip then now ∷ rest else rest

-- the requests come in the order of time
abbrev pub IsTimed : Time → List (Text × Time) → Type 0
IsTimed last [] = Unit
IsTimed last ((k, now) ∷ reqs) = (last ≤ now) × IsTimed now reqs

next-IsLike :
    (r next : RateLimiter) (ip : Text) (now : Time) (s : Option IpBucket)
    → Agrees r next ip now s
    → IsLike next.window now (find next.buckets ip) s
next-IsLike r next ip now s a =
    subst (λ w. IsLike w now (find next.buckets ip) s) (sym a.window_kept) a.like

same_service :
    (r next : RateLimiter) (ip : Text) (now : Time) (s t : Option IpBucket) (ts : List Time)
    → Agrees r next ip now t
    → serve_all next.window next.limit s ts ≡ serve_all r.window r.limit s ts
same_service r next ip now s t ts a = λ i. serve_all (a.window_kept i) (a.limit_kept i) s ts

answers_lem :
    (ip : Text) (r : RateLimiter) (last : Time) (s : Option IpBucket) (reqs : List (Text × Time))
    → IsMap r.buckets
    → IsLike r.window last (find r.buckets ip) s
    → IsTimed last reqs
    → answers_to ip r reqs ≡ serve_all r.window r.limit s (times_of ip reqs)
unfolding answers_to
answers_lem ip r last s [] m h _ = refl
answers_lem ip r last s ((k, now) ∷ reqs) m h (le, timed) = elim (Bool-cases (text_eq k ip)) [
  | inl e ↦
      let same : k ≡ ip = (text_eq_iff k ip).0 e in
      let here = later-IsLike r.window last now (find r.buckets ip) s le h in
      let (answer, a) = allow_self r m now ip s here in
      let next = (serve_one r.window r.limit s now).0 in
      rw (e, same, answer)
        (ap (λ l. (serve_one r.window r.limit s now).1 ∷ l)
          (answers_lem ip (allow r ip now).0 now next reqs a.map_kept
              (next-IsLike r (allow r ip now).0 ip now next a) timed
            ∙ same_service r (allow r ip now).0 ip now next next (times_of ip reqs) a))
  | inr e ↦
      let here = later-IsLike r.window last now (find r.buckets ip) s le h in
      let a = allow_other r m now k ip s e here in
      rw e (
        answers_lem ip (allow r k now).0 now s reqs a.map_kept
          (next-IsLike r (allow r k now).0 ip now s a) timed
        ∙ same_service r (allow r k now).0 ip now s s (times_of ip reqs) a)
]

-- From a limiter whose addresses have one bucket each, requests of any addresses in the order of time:
-- the answers to one address are those of a window of its own, which no other request and no sweep of
-- old windows changes.
pub answers_to-serve_all :
    (ip : Text) (r : RateLimiter) (last : Time) (reqs : List (Text × Time))
    → IsMap r.buckets
    → IsTimed last reqs
    → answers_to ip r reqs ≡ serve_all r.window r.limit (find r.buckets ip) (times_of ip reqs)
answers_to-serve_all ip r last reqs m timed =
    answers_lem ip r last (find r.buckets ip) reqs m (inl refl) timed

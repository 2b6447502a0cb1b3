-- ===== src/Gateway/Limiter/Window.antt =====
-- How many requests of a client pass within a second.
use codereviewer.Prelude.{
  ℕ, zero, suc, ◌+◌, ◌≡◌, refl, ◌∙◌, ap, Bool, true, false, some, List, [], ◌∷◌, arith, Text,
  text_eq, text_eq_iff, text_eq_refl, tally, Bool-cases, inl, inr, ltb, leb, if◌then◌else◌, All,
}
use codereviewer.Prelude.Int.{ℤ, pos}
use codereviewer.Dict
use codereviewer.Dict.{Dict, get-put}
use codereviewer.Ports.{Time}
use codereviewer.Gateway.Limiter.{
  second, WebhookBucket, pred_ℤ, refill, take_token, use_bucket, allow, serve, passes, within,
}

-- whether a request is of the client
unfoldable pub is_from : Text → Text × Time → Bool
is_from ip (other, now) = text_eq other ip

-- a bucket with `n` tokens, last filled at `fill`
abbrev pub bucket_of : ℕ → Time → WebhookBucket
bucket_of n fill = record { tokens = pos n; last_fill = fill }

abbrev pub lesser : ℕ → ℕ → ℕ
lesser a b = if leb a b then a else b

lesser_zero : (a : ℕ) → lesser a 0 ≡ lesser (suc a) 0
lesser_zero a = ground arith

suc-lesser : (a n : ℕ) → suc (lesser a n) ≡ lesser (suc a) (suc n)
suc-lesser a n = ground arith

no_refill :
    (per_second : ℤ) (now : Time) (n fill : ℕ)
    → ltb now (fill + second) ≡ true
    → refill per_second now (bucket_of n fill) ≡ bucket_of n fill
unfolding refill
no_refill per_second now n fill h =
    let early : leb (fill + second) now ≡ false = ground arith in rw early refl

take_one : (n fill : ℕ) → take_token (bucket_of (suc n) fill) ≡ (true, bucket_of n fill)
unfolding take_token pred_ℤ
take_one n fill = ground arith

take_none : (fill : ℕ) → take_token (bucket_of 0 fill) ≡ (false, bucket_of 0 fill)
unfolding take_token
take_none fill = refl

module _ (per_second : ℤ) (ip : Text) (fill : ℕ) where
  abbrev HasBucket : ℕ → Dict WebhookBucket → Type 0
  HasBucket n buckets = Dict.get buckets ip ≡ some (bucket_of n fill)

  allow_other :
      (n : ℕ) (buckets : Dict WebhookBucket) (other : Text) (now : Time)
      → text_eq other ip ≡ false
      → HasBucket n buckets
      → HasBucket n (allow per_second buckets other now).1
  unfolding allow
  allow_other n buckets other now e h = rw (get-put, e) h

  allow_own :
      (n : ℕ) (buckets : Dict WebhookBucket) (other : Text) (now : Time)
      → text_eq other ip ≡ true
      → ltb now (fill + second) ≡ true
      → HasBucket (suc n) buckets
      → ((allow per_second buckets other now).0 ≡ true)
        × HasBucket n (allow per_second buckets other now).1
  unfolding allow use_bucket
  allow_own n buckets other now e early h =
      rw
        (
          (text_eq_iff other ip).0 e,
          h,
          no_refill per_second now (suc n) fill early,
          take_one n fill,
          get-put,
          text_eq_refl,
        )
        (refl, refl)

  allow_exhausted :
      (buckets : Dict WebhookBucket) (other : Text) (now : Time)
      → text_eq other ip ≡ true
      → ltb now (fill + second) ≡ true
      → HasBucket 0 buckets
      → ((allow per_second buckets other now).0 ≡ false)
        × HasBucket 0 (allow per_second buckets other now).1
  unfolding allow use_bucket
  allow_exhausted buckets other now e early h =
      rw
        (
          (text_eq_iff other ip).0 e,
          h,
          no_refill per_second now 0 fill early,
          take_none fill,
          get-put,
          text_eq_refl,
        )
        (refl, refl)

  within_own :
      (other : Text) (now : Time)
      → text_eq other ip ≡ true
      → within ip fill (other, now) ≡ true
      → ltb now (fill + second) ≡ true
  unfolding within
  within_own other now e h = ground (arith, e, h)

  abbrev Passes : ℕ → Dict WebhookBucket → List (Text × Time) → Type 0
  Passes n buckets requests =
      tally (passes ip) (serve per_second buckets requests) ≡ lesser (tally (is_from ip) requests) n

  -- what one request adds to the count of those of the client, and of those that pass
  count_own :
      (other : Text) (now : Time) (rest : List (Text × Time))
      → text_eq other ip ≡ true
      → tally (is_from ip) ((other, now) ∷ rest) ≡ suc (tally (is_from ip) rest)
  unfolding is_from
  count_own other now rest e = rw e refl

  count_other :
      (other : Text) (now : Time) (rest : List (Text × Time))
      → text_eq other ip ≡ false
      → tally (is_from ip) ((other, now) ∷ rest) ≡ tally (is_from ip) rest
  unfolding is_from
  count_other other now rest e = rw e refl

  serve_own :
      (buckets : Dict WebhookBucket) (other : Text) (now : Time) (rest : List (Text × Time))
      → text_eq other ip ≡ true
      → tally (passes ip) (serve per_second buckets ((other, now) ∷ rest)) ≡ (
          if (allow per_second buckets other now).0
          then suc
              (tally (passes ip) (serve per_second (allow per_second buckets other now).1 rest))
          else tally (passes ip) (serve per_second (allow per_second buckets other now).1 rest))
  unfolding serve passes
  serve_own buckets other now rest e = rw e refl

  serve_other :
      (buckets : Dict WebhookBucket) (other : Text) (now : Time) (rest : List (Text × Time))
      → text_eq other ip ≡ false
      → tally (passes ip) (serve per_second buckets ((other, now) ∷ rest))
        ≡ tally (passes ip) (serve per_second (allow per_second buckets other now).1 rest)
  unfolding serve passes
  serve_other buckets other now rest e = rw e refl

  others :
      (n : ℕ) (buckets : Dict WebhookBucket) (other : Text) (now : Time) (rest : List (Text × Time))
      → text_eq other ip ≡ false
      → Passes n (allow per_second buckets other now).1 rest
      → Passes n buckets ((other, now) ∷ rest)
  others n buckets other now rest e later =
      rw (serve_other buckets other now rest e, count_other other now rest e) later

  -- a request of the client itself, given the result for those behind it
  own :
      (n : ℕ) (buckets : Dict WebhookBucket) (other : Text) (now : Time) (rest : List (Text × Time))
      → text_eq other ip ≡ true
      → ltb now (fill + second) ≡ true
      → HasBucket n buckets
      → ((m : ℕ) (later : Dict WebhookBucket) → HasBucket m later → Passes m later rest)
      → Passes n buckets ((other, now) ∷ rest)
  own zero buckets other now rest e early h next =
      let (refused, kept) = allow_exhausted buckets other now e early h in
      let later = next 0 (allow per_second buckets other now).1 kept in
      rw (serve_own buckets other now rest e, refused, count_own other now rest e)
        (later ∙ lesser_zero (tally (is_from ip) rest))
  own (suc n) buckets other now rest e early h next =
      let (allowed, left) = allow_own n buckets other now e early h in
      let later = next n (allow per_second buckets other now).1 left in
      rw (serve_own buckets other now rest e, allowed, count_own other now rest e)
        (ap suc later ∙ suc-lesser (tally (is_from ip) rest) n)

  -- When the bucket of a client has `n` tokens, then of its requests within the second after the
  -- last filling as many pass as there are, but at most `n`, however they are mixed with requests
  -- of others.
  pub serve-passes :
      (n : ℕ) (buckets : Dict WebhookBucket) (requests : List (Text × Time))
      → Dict.get buckets ip ≡ some (bucket_of n fill)
      → All (λ r. within ip fill r ≡ true) requests
      → tally (passes ip) (serve per_second buckets requests)
        ≡ lesser (tally (is_from ip) requests) n
  serve-passes n buckets [] h _ = unfold serve in ground arith
  serve-passes n buckets ((other, now) ∷ rest) h (early, hs) =
      elim (Bool-cases (text_eq other ip)) [
        | inr e ↦ others n buckets other now rest e (
            serve-passes n (allow per_second buckets other now).1 rest
              (allow_other n buckets other now e h) hs)
        | inl e ↦
            own n buckets other now rest e (within_own other now e early) h
              (λ m later h'. serve-passes m later rest h' hs)
      ]

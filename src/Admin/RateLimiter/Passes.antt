-- ===== src/Admin/RateLimiter/Passes.antt =====
-- How many requests of one address the limiter lets pass.
use codereviewer.Prelude.{
  ℕ, suc, ◌+◌, ◌-◌, ◌*◌, ◌≤◌, ◌<◌, ◌≡◌, sym, ap, subst, ◌∙◌, inl, inr, Bool, true, false, Option,
  none, some, List, [], ◌∷◌, arith, Text, All, Bool-cases, leb, tally,
}
use codereviewer.Prelude.Int.{pos, leb_ℤ}
use codereviewer.Ports.{Time}
use codereviewer.Admin.RateLimiter.{IpBucket, find, RateLimiter}
use codereviewer.Admin.RateLimiter.Map.{IsMap}
use codereviewer.Admin.RateLimiter.Window.{
  fresh, serve_all, answers_to, times_of, IsTimed, answers_to-serve_all,
}

-- how many requests pass
abbrev pub passes : List Bool → ℕ
passes = tally (λ b. b)

module _ (w n a : ℕ) where
  abbrev pub IsWithin : Time → Type 0
  IsWithin t = (a ≤ t) × (t < a + w)

  -- in a window that began within the span
  passes_begun :
      (b : IpBucket) (ts : List Time)
      → a ≤ b.window_start
      → All IsWithin ts
      → passes (serve_all w (pos n) (some b) ts) ≤ n - b.count
  passes_begun b [] h _ = omega arith
  passes_begun b (t ∷ ts) h ((_, before), rest) = elim (Bool-cases (leb n b.count)) [
    | inl full ↦ rw (not_over, full_here full) (passes_begun b ts h rest)
    | inr free ↦
        rw (not_over, free_here free)
          (ground (arith, free, passes_begun (record b { count = b.count + 1 }) ts h rest))
  ]
    where
      not_over : leb (b.window_start + w) t ≡ false
      not_over = ground (arith, h, before)

      full_here : leb n b.count ≡ true → leb_ℤ (pos n) (pos b.count) ≡ true
      full_here e = ground (arith, e)

      free_here : leb n b.count ≡ false → leb_ℤ (pos n) (pos b.count) ≡ false
      free_here e = ground (arith, e)

  begin_passes :
      (t : Time) (ts : List Time)
      → 1 ≤ n
      → a ≤ t
      → All IsWithin ts
      → suc (passes (serve_all w (pos n) (some (fresh t)) ts)) ≤ n
  begin_passes t ts some_pass h rest = omega (arith, passes_begun (fresh t) ts h rest)

  passes_kept :
      (b : IpBucket) (ts : List Time)
      → 1 ≤ n
      → All IsWithin ts
      → passes (serve_all w (pos n) (some b) ts) ≤ (n - b.count) + n
  passes_kept b [] some_pass _ = omega arith
  passes_kept b (t ∷ ts) some_pass ((from, before), rest) =
      elim (Bool-cases (leb (b.window_start + w) t)) [
        | inl over ↦ rw over (omega (arith, begin_passes t ts some_pass from rest))
        | inr going ↦ elim (Bool-cases (leb_ℤ (pos n) (pos b.count))) [
          | inl full ↦ rw (going, full) (passes_kept b ts some_pass rest)
          | inr free ↦
              rw (going, free)
                (ground
                  (arith, free, passes_kept (record b { count = b.count + 1 }) ts some_pass rest))
        ]
      ]

  passes_any :
      (s : Option IpBucket) (ts : List Time)
      → 1 ≤ n
      → All IsWithin ts
      → passes (serve_all w (pos n) s ts) ≤ 2 * n
  passes_any none [] some_pass _ = omega arith
  passes_any none (t ∷ ts) some_pass ((from, _), rest) =
      omega (arith, begin_passes t ts some_pass from rest)
  passes_any (some b) ts some_pass h = omega (arith, passes_kept b ts some_pass h)

-- With a positive limit, of requests of any addresses that come in the order of time within less than
-- one window, those that pass from one address are twice the limit at most.
pub answers_to-passes :
    (ip : Text) (r : RateLimiter) (n : ℕ) (start last : Time) (reqs : List (Text × Time))
    → IsMap r.buckets
    → IsTimed last reqs
    → r.limit ≡ pos n
    → 1 ≤ n
    → All (IsWithin r.window n start) (times_of ip reqs)
    → passes (answers_to ip r reqs) ≤ 2 * n
answers_to-passes ip r n start last reqs m timed limit some_pass within =
    subst (λ l. passes l ≤ 2 * n)
      (sym (
        answers_to-serve_all ip r last reqs m timed
        ∙ ap (λ x. serve_all r.window x (find r.buckets ip) (times_of ip reqs)) limit))
      (passes_any r.window n start (find r.buckets ip) (times_of ip reqs) some_pass within)

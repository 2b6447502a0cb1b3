-- ===== src/Gateway/Limiter.antt =====
-- The limiter of the gateway: for each client a bucket of tokens that is full again when a second
-- has passed since it was last filled. The clock is a number of nanoseconds, read once per request.
pub mod Window
use codereviewer.Prelude.{
  ℕ, zero, suc, ◌+◌, ◌-◌, ◌≤◌, ◌<◌, ◌≡◌, refl, ◌∙◌, ap, Bool, true, false, ◌&&◌, Option, none, some,
  List, [], ◌∷◌, arith, Text, text_eq, text_eq_iff, text_eq_refl, tally, Bool-cases, inl, inr, ltb,
  leb, if◌then◌else◌, length, All,
}
use codereviewer.Prelude.Int.{ℤ, pos, negsuc, leb_ℤ}
use codereviewer.Dict
use codereviewer.Dict.{Dict, get-put}
use codereviewer.Ports.{Time}

abbrev pub second : Time
second = 1000000000

pub record WebhookBucket : Type 0 where
  pub tokens : ℤ
  pub last_fill : Time

-- `n - 1` on an int that is not the smallest
unfoldable pub pred_ℤ : ℤ → ℤ
pred_ℤ (pos n) = if leb n 0 then negsuc 0 else pos (n - 1)
pred_ℤ (negsuc n) = negsuc (suc n)

-- a full bucket when a second has passed
unfoldable pub refill : ℤ → Time → WebhookBucket → WebhookBucket
refill per_second now b =
    if leb (b.last_fill + second) now then record { tokens = per_second; last_fill = now } else b

-- whether a request passes, and the bucket it leaves
unfoldable pub take_token : WebhookBucket → Bool × WebhookBucket
take_token b =
    if leb_ℤ b.tokens (pos 0) then (false, b) else (true, record b { tokens = pred_ℤ b.tokens })

unfoldable pub use_bucket : ℤ → Time → Option WebhookBucket → Bool × WebhookBucket
use_bucket per_second now none = (true, record { tokens = pred_ℤ per_second; last_fill = now })
use_bucket per_second now (some b) = take_token (refill per_second now b)

unfoldable pub allow : ℤ → Dict WebhookBucket → Text → Time → Bool × Dict WebhookBucket
allow per_second buckets ip now =
    let r = use_bucket per_second now (Dict.get buckets ip) in (r.0, Dict.put buckets ip r.1)

-- the answers to requests, each the client's address and the time, in order
unfoldable pub serve : ℤ → Dict WebhookBucket → List (Text × Time) → List (Text × Bool)
serve per_second buckets [] = []
serve per_second buckets ((ip, now) ∷ rest) =
    let r = allow per_second buckets ip now in (ip, r.0) ∷ serve per_second r.1 rest

-- an answer that lets a request of the client pass
unfoldable pub passes : Text → Text × Bool → Bool
passes ip (other, allowed) = text_eq other ip && allowed

-- every request of the client comes within a second of time `fill`
unfoldable pub within : Text → Time → Text × Time → Bool
within ip fill (other, now) = if text_eq other ip then ltb now (fill + second) else true

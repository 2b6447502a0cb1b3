-- ===== src/Admin/RateLimiter.antt =====
-- The limit on login attempts (internal/admin/ratelimit.go): for each client address a counter over a
-- fixed window, with a sweep of old counters. Each call is one step, since the lock is held. Times and
-- the window are in nanoseconds.
pub mod Map
pub mod Window
pub mod Passes
use codereviewer.Prelude.{
  ℕ, suc, ◌+◌, ◌*◌, Bool, true, false, not, Option, none, some, List, [], ◌∷◌, Text, text_eq,
  is_empty, trim_space, cut, keep, ltb, leb, nonempty, if◌then◌else◌,
}
use codereviewer.Prelude.Int.{ℤ, pos, leb_ℤ}
use codereviewer.Ports.{Time, Result, ok, err}

pub record IpBucket : Type 0 where
  pub count : ℕ
  pub window_start : Time

abbrev pub Buckets : Type 0
Buckets = List (Text × IpBucket)

unfoldable pub find : Buckets → Text → Option IpBucket
find [] ip = none
find ((k, b) ∷ bs) ip = if text_eq k ip then some b else find bs ip

unfoldable pub put : Buckets → Text → IpBucket → Buckets
put [] ip b = (ip, b) ∷ []
put ((k, old) ∷ bs) ip b =
    let later = (k, old) ∷ put bs ip b in if text_eq k ip then (k, b) ∷ bs else later

pub record RateLimiter : Type 0 where
  pub buckets : Buckets
  pub limit : ℤ
  pub window : ℕ

unfoldable pub new_rate_limiter : ℤ → ℕ → RateLimiter
new_rate_limiter limit window = record { buckets = []; limit = limit; window = window }

-- the bucket's window began more than two windows ago
abbrev pub is_old : ℕ → Time → Text × IpBucket → Bool
is_old window now e = ltb (e.1.window_start + 2 * window) now

unfoldable pub gc_old : ℕ → Time → Buckets → Buckets
gc_old window now bs = keep (λ e. not (is_old window now e)) bs

-- a new window for the address, and the sweep
unfoldable pub mint : RateLimiter → Text → Time → RateLimiter
mint r ip now = record r {
  buckets = gc_old r.window now (put r.buckets ip (record { count = 1; window_start = now }));
}

unfoldable pub use_count : RateLimiter → Text → Time → Option IpBucket → RateLimiter × Bool
use_count r ip now none = (mint r ip now, true)
use_count r ip now (some b) =
    if leb (b.window_start + r.window) now
    then (mint r ip now, true)
    else if leb_ℤ r.limit (pos b.count)
    then (r, false)
    else (record r { buckets = put r.buckets ip (record b { count = b.count + 1 }) }, true)

-- whether a request from the address passes, and the limiter after it
unfoldable pub allow : RateLimiter → Text → Time → RateLimiter × Bool
allow r ip now = use_count r ip now (find r.buckets ip)

abbrev pub host_or : Text → Result Text → Text
host_or remote (ok host) = host
host_or remote (err e) = remote

-- what stands before the first comma, where there is something
abbrev pub first_part : Text → Option (Text × Text) → Text
first_part xff none = xff
first_part xff (some (before, after)) = if nonempty before then before else xff

-- the address of a request, by its X-Forwarded-For header and its remote address, which
-- net.SplitHostPort takes apart
unfoldable pub client_ip : (Text → Result Text) → Text → Text → Text
client_ip split_host_port xff remote =
    if is_empty xff
    then host_or remote (split_host_port remote)
    else trim_space (first_part xff (cut xff b','))

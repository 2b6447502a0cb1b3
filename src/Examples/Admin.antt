-- ===== src/Examples/Admin.antt =====
-- The login limiter on concrete requests, the janitor with concrete windows, a login.
use codereviewer.Prelude.{
  ◌≡◌, refl, true, false, some, ◌≤◌, ◌*◌, ◌+◌, ◌-◌, ap, ◌++◌, map, leb, Lacks, List, [], ◌∷◌, Text,
  text_eq, codes, arith,
}
use codereviewer.Prelude.Int.{pos}
use codereviewer.Ports.{Time, ok}
use codereviewer.Schemas.Config.{RetentionConfig}
use codereviewer.Admin.Janitor.{
  Janitor, retention, delete_runs_before, delete_feedback_before, delete_pr_context_before, day,
  sweep_caches, sweep,
}
use codereviewer.Admin.Sessions.{
  Signing, unix_second, sign_session, require_session, Server, logged_in, handle_login,
}
use codereviewer.Admin.Sessions.Logins.{IsBase64, whole_seconds, handle_login-opens}
use codereviewer.Admin.Janitor.Cutoffs.{cutoff_at, sweep-cutoff_at}
use codereviewer.Admin.RateLimiter.{RateLimiter, find, use_count, allow}
use codereviewer.Admin.RateLimiter.Passes.{passes, answers_to-passes}
use codereviewer.Admin.RateLimiter.Window.{answers_to, serve_all, times_of, answers_to-serve_all}

abbrev limiter : RateLimiter
limiter = record { buckets = []; limit = pos 1; window = 10 }

abbrev requests : List (Text × Time)
requests =
    (codes "10.0.0.1", 3)
    ∷ (codes "10.0.0.2", 4)
    ∷ (codes "10.0.0.1", 5)
    ∷ (codes "10.0.0.1", 12)
    ∷ []

answers_to-serve_all_example :
    answers_to (codes "10.0.0.1") limiter requests
    ≡ serve_all 10 (pos 1) (find [] (codes "10.0.0.1")) (times_of (codes "10.0.0.1") requests)
answers_to-serve_all_example =
    answers_to-serve_all (codes "10.0.0.1") limiter 3 requests tt
      (omega arith, (omega arith, (omega arith, (omega arith, tt))))

answers_to-passes_example : passes (answers_to (codes "10.0.0.1") limiter requests) ≤ 2 * 1
unfolding text_eq
answers_to-passes_example =
    answers_to-passes (codes "10.0.0.1") limiter 1 3 3 requests tt
      (omega arith, (omega arith, (omega arith, (omega arith, tt)))) refl (omega arith)
      ((omega arith, omega arith), ((omega arith, omega arith), ((omega arith, omega arith), tt)))

abbrev janitor : Janitor
janitor = record {
  pr_runs = true;
  feedback = true;
  context = true;
  embedding_cache = false;
  export_dir = [];
  pr_runs_days = pos 0;
  feedback_days = pos 0;
  pr_context_days = pos 0;
  cache_max_rows = pos 0;
  export_max_files = pos 0;
  interval = pos 0;
}

-- runs are kept for 300 years
abbrev windows : RetentionConfig
windows = record {
  pr_runs_days = pos 109_500;
  feedback_events_days = pos 730;
  pr_context_items_days = pos 90;
  embedding_cache_max_rows = pos 100;
  auto_export_max_files = pos 30;
  janitor_interval_hours = pos 6;
  janitor_enabled = true;
}

sweep-cutoff_at_example :
    sweep janitor (some windows) (100_000 * day)
    ≡ delete_runs_before (cutoff_at (100_000 * day) 109_500)
      ∷ delete_feedback_before (cutoff_at (100_000 * day) 730)
      ∷ delete_pr_context_before (cutoff_at (100_000 * day) 90)
      ∷ sweep_caches janitor (retention janitor (some windows))
sweep-cutoff_at_example =
    sweep-cutoff_at janitor windows (100_000 * day) 109_500 730 90 (refl, refl, refl)
      (refl, refl, refl)
      ((omega arith, omega arith), (omega arith, omega arith), (omega arith, omega arith))

-- base64 that moves each character up by 100
abbrev shifting : Signing
shifting = record {
  encode = map (λ c. c + 100);
  decode = λ s. ok (map (λ c. c - 100) s);
  hmac_sha256 = λ secret s. secret ++ s;
}

shifted_back : (s : Text) → map (λ c. c - 100) (map (λ c. c + 100) s) ≡ s
shifted_back [] = refl
shifted_back (c ∷ s) = let back : c + 100 - 100 ≡ c = omega arith in λ i. back i ∷ shifted_back s i

no_dot : (s : Text) → Lacks b'.' (map (λ c. c + 100) s)
no_dot [] = tt
no_dot (c ∷ s) = (omega arith, no_dot s)

shifting-IsBase64 : IsBase64 shifting
shifting-IsBase64 = record { decode-encode = λ s. ap ok (shifted_back s); encode-Lacks = no_dot }

abbrev server : Server
server = record { password = codes "hunter2"; secret = codes "k"; session_ttl = 60 * unix_second }

abbrev cookie : Text
cookie =
    sign_session shifting (codes "k")
      (record { subject = codes "password"; expires_at = 5 * unix_second + 60 * unix_second })

logs_in :
    (handle_login shifting server limiter
      (codes "10.0.0.1")
      (5 * unix_second)
      (ok (codes "hunter2"))).0
    ≡ logged_in cookie
unfolding handle_login text_eq allow use_count find
logs_in = refl

handle_login-opens_example :
    ((allow limiter (codes "10.0.0.1") (5 * unix_second)).1 ≡ true)
    × (ok (codes "hunter2") ≡ ok server.password)
    × (require_session shifting server.secret (some cookie) (30 * unix_second)
        ≡ leb (30 * unix_second) (whole_seconds (5 * unix_second + server.session_ttl)))
handle_login-opens_example =
    handle_login-opens shifting shifting-IsBase64 server (5 * unix_second) (30 * unix_second)
      limiter (codes "10.0.0.1") (ok (codes "hunter2")) cookie (omega arith) logs_in

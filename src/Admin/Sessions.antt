-- ===== src/Admin/Sessions.antt =====
-- The sessions of the admin interface: the signed cookie (internal/admin/session.go), the login with
-- the password and the gate of the pages (handleLoginPOST and requireSession of
-- internal/admin/server.go). Texts stand for bytes, and times are not before the epoch.
pub mod Logins
use codereviewer.Prelude.{
  ℕ, ◌+◌, ◌*◌, ◌/◌, Bool, true, false, Option, none, some, List, ◌∷◌, ◌++◌, Text, codes, text_eq,
  cut, atoi, itoa, ltb, if◌then◌else◌,
}
use codereviewer.Prelude.Int.{ℤ, pos, negsuc}
use codereviewer.Ports.{Time, Result, ok, err, wrap}
use codereviewer.Admin.RateLimiter.{RateLimiter, allow}

-- base64 without padding, and HMAC-SHA256 of a secret and a text
pub record Signing : Type 0 where
  pub encode : Text → Text
  pub decode : Text → Result Text
  pub hmac_sha256 : Text → Text → Text

pub record Session : Type 0 where
  pub subject : Text
  pub expires_at : Time

abbrev pub unix_second : ℕ
unix_second = 1_000_000_000

abbrev pub payload_of : Session → Text
payload_of s = s.subject ++ b'|' ∷ itoa (s.expires_at / unix_second)

-- the session, unless it has expired
unfoldable pub unexpired : Text → Time → Option ℤ → Result Session
unexpired subject now none = err (codes "parse expiry")
unexpired subject now (some (negsuc n)) = err (codes "session expired")
unexpired subject now (some (pos n)) =
    if ltb (n * unix_second) now
    then err (codes "session expired")
    else ok (record { subject = subject; expires_at = n * unix_second })

abbrev pub use_payload : Time → Option (Text × Text) → Result Session
use_payload now none = err (codes "malformed payload")
use_payload now (some (subject, exp)) = unexpired subject now (atoi exp)

abbrev pub is_verified : Result Session → Bool
is_verified (ok s) = true
is_verified (err e) = false

module _ (signing : Signing) (secret : Text) where
  unfoldable pub sign_session : Session → Text
  sign_session s =
      signing.encode (payload_of s)
      ++ b'.' ∷ signing.encode (signing.hmac_sha256 secret (payload_of s))

  abbrev pub use_signature : Time → Text → Result Text → Result Session
  use_signature now payload (err e) = err (wrap (codes "decode signature") e)
  use_signature now payload (ok sig) =
      if text_eq (signing.hmac_sha256 secret payload) sig
      then use_payload now (cut payload b'|')
      else err (codes "bad signature")

  abbrev pub use_payload_bytes : Time → Text → Result Text → Result Session
  use_payload_bytes now sig (err e) = err (wrap (codes "decode payload") e)
  use_payload_bytes now sig (ok payload) = use_signature now payload (signing.decode sig)

  abbrev pub use_parts : Time → Option (Text × Text) → Result Session
  use_parts now none = err (codes "malformed cookie")
  use_parts now (some (payload, sig)) = use_payload_bytes now sig (signing.decode payload)

  unfoldable pub verify_session : Text → Time → Result Session
  verify_session cookie now = use_parts now (cut cookie b'.')

  -- the session of a request, by its cookie
  unfoldable pub read_session : Option Text → Time → Result Session
  read_session none now = err (codes "http: named cookie not present")
  read_session (some cookie) now = verify_session cookie now

  -- whether a request gets to a page, or is sent to the login
  unfoldable pub require_session : Option Text → Time → Bool
  require_session cookie now = is_verified (read_session cookie now)

pub record Server : Type 0 where
  pub password : Text
  pub secret : Text
  pub session_ttl : ℕ

pub data LoginResponse : Type 0 where
  login_page : Text → LoginResponse
  bad_request : LoginResponse
  -- the session's cookie, and the way to the pages
  logged_in : Text → LoginResponse

module _ (signing : Signing) (s : Server) where
  abbrev pub use_password : Time → Result Text → LoginResponse
  use_password now (err e) = bad_request
  use_password now (ok submitted) =
      if text_eq submitted s.password
      then logged_in (
          sign_session signing s.secret
            (record { subject = codes "password"; expires_at = now + s.session_ttl }))
      else login_page (codes "Invalid password.")

  -- the form, which can be parsed or not, is used only if the limiter lets the attempt pass
  unfoldable pub handle_login :
      RateLimiter → Text → Time → Result Text → LoginResponse × RateLimiter
  handle_login r ip now form =
      if (allow r ip now).1
      then (use_password now form, (allow r ip now).0)
      else (login_page (codes "Too many attempts. Try again in a few minutes."), (allow r ip now).0)

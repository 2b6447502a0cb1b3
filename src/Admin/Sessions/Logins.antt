-- ===== src/Admin/Sessions/Logins.antt =====
-- What a login gives.
use codereviewer.Prelude.{
  ◌+◌, ◌*◌, ◌/◌, ◌≤◌, ◌≡◌, refl, ap, subst, ◌∙◌, true, some, arith, Text, codes, text_eq,
  text_eq_iff, text_eq_refl, Lacks, Lacks-any_of, cut, cut-append, itoa, atoi-itoa, leb, ltb,
  if◌then◌else◌, Bool-cases, inl, inr,
}
use codereviewer.Prelude.Int.{max_int64}
use codereviewer.Ports.{Time, Result, ok, err}
use codereviewer.Admin.RateLimiter.{RateLimiter, allow}
use codereviewer.Admin.Sessions.{
  Signing, Session, unix_second, payload_of, unexpired, use_payload, sign_session, verify_session,
  read_session, is_verified, require_session, Server, login_page, bad_request, logged_in,
  use_password, handle_login,
}

-- base64 reads back what it wrote, and writes no dot
pub record IsBase64 (signing : Signing) : Type 0 where
  pub decode-encode : (s : Text) → signing.decode (signing.encode s) ≡ ok s
  pub encode-Lacks : (s : Text) → Lacks b'.' (signing.encode s)

abbrev pub whole_seconds : Time → Time
whole_seconds t = t / unix_second * unix_second

-- what a session is read back as
abbrev pub read_back : Session → Time → Result Session
read_back s now =
    if ltb (whole_seconds s.expires_at) now
    then err (codes "session expired")
    else ok (record { subject = s.subject; expires_at = whole_seconds s.expires_at })

module _ (signing : Signing) (laws : IsBase64 signing) (secret : Text) where
  cookie_parts :
      (s : Session)
      → cut (sign_session signing secret s) b'.'
        ≡ some (
          signing.encode (payload_of s),
          signing.encode (signing.hmac_sha256 secret (payload_of s)),
        )
  unfolding sign_session
  cookie_parts s = cut-append _ _ _ (laws.encode-Lacks (payload_of s))

  payload_read :
      (s : Session) (now : Time)
      → Lacks b'|' s.subject
      → s.expires_at / unix_second ≤ max_int64
      → use_payload now (cut (payload_of s) b'|') ≡ read_back s now
  payload_read s now plain fits =
      rw
        (
          cut-append s.subject b'|' (itoa (s.expires_at / unix_second)) plain,
          atoi-itoa (s.expires_at / unix_second) fits,
        )
        (unfold unexpired in refl)

  -- A session that is signed verifies until its expiry, rounded to a second, and not after it.
  verify_session-sign_session :
      (s : Session) (now : Time)
      → Lacks b'|' s.subject
      → s.expires_at / unix_second ≤ max_int64
      → verify_session signing secret (sign_session signing secret s) now ≡ read_back s now
  unfolding verify_session
  verify_session-sign_session s now plain fits =
      rw
        (
          cookie_parts s,
          laws.decode-encode (payload_of s),
          laws.decode-encode (signing.hmac_sha256 secret (payload_of s)),
          text_eq_refl (signing.hmac_sha256 secret (payload_of s)),
        )
        (payload_read s now plain fits)

is_verified-if :
    (exp now : Time) (e : Text) (s : Session)
    → is_verified (if ltb exp now then err e else ok s) ≡ leb now exp
is_verified-if exp now e s = ground arith

module _ (signing : Signing) (laws : IsBase64 signing) (s : Server) (now later : Time) where
  -- the session of a login at `now`
  abbrev session : Session
  session = record { subject = codes "password"; expires_at = now + s.session_ttl }

  opens :
      (now + s.session_ttl) / unix_second ≤ max_int64
      → require_session signing s.secret (some (sign_session signing s.secret session)) later
        ≡ leb later (whole_seconds (now + s.session_ttl))
  unfolding require_session read_session
  opens fits =
      ap is_verified (
        verify_session-sign_session signing laws s.secret session later
          (Lacks-any_of b'|' (codes "password") refl) fits)
      ∙ is_verified-if (whole_seconds (now + s.session_ttl)) later _ _

  use_password-opens :
      (form : Result Text) (cookie : Text)
      → (now + s.session_ttl) / unix_second ≤ max_int64
      → use_password signing s now form ≡ logged_in cookie
      → (form ≡ ok s.password)
        × (require_session signing s.secret (some cookie) later
            ≡ leb later (whole_seconds (now + s.session_ttl)))
  use_password-opens (err e) cookie fits h = absurd (clash h)
    where
      clash : bad_request ≡ logged_in cookie → ⊥
      clash p = ground arith
  use_password-opens (ok submitted) cookie fits h =
      elim (Bool-cases (text_eq submitted s.password)) [
        | inl e ↦
            let made : logged_in (sign_session signing s.secret session) ≡ logged_in cookie =
              rw e at h in
            (
              ap ok ((text_eq_iff submitted s.password).0 e),
              subst
                  (λ c.
                    require_session signing s.secret (some c) later
                    ≡ leb later (whole_seconds (now + s.session_ttl)))
                  (cookie_same made) (opens fits),
            )
        | inr e ↦ absurd (refused (rw e at h))
      ]
    where
      cookie_same : {c : Text} → logged_in c ≡ logged_in cookie → c ≡ cookie
      cookie_same p = cc

      refused : {t : Text} → login_page t ≡ logged_in cookie → ⊥
      refused p = ground arith

  -- A login that gives a cookie was let through by the limiter and had the password; and the cookie
  -- opens the pages until the session's end, rounded to a second, and at no time after it.
  -- Conditions: base64 reads back what it wrote and writes no dot, and the end fits 64 bits.
  pub handle_login-opens :
      (r : RateLimiter) (ip : Text) (form : Result Text) (cookie : Text)
      → (now + s.session_ttl) / unix_second ≤ max_int64
      → (handle_login signing s r ip now form).0 ≡ logged_in cookie
      → ((allow r ip now).1 ≡ true)
        × (form ≡ ok s.password)
        × (require_session signing s.secret (some cookie) later
            ≡ leb later (whole_seconds (now + s.session_ttl)))
  unfolding handle_login
  handle_login-opens r ip form cookie fits h = elim (Bool-cases (allow r ip now).1) [
    | inl e ↦
        let (same, until) = use_password-opens form cookie fits (rw e at h) in (e, same, until)
    | inr e ↦ absurd (refused (rw e at h))
  ]
    where
      refused : {t : Text} → login_page t ≡ logged_in cookie → ⊥
      refused p = ground arith

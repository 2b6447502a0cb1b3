-- ===== src/Gateway/Requests.antt =====
-- What a request to the gateway causes that is not authentic.
use codereviewer.Prelude.{
  ℕ, ◌≡◌, refl, Bool, true, false, ◌&&◌, ◌⊎◌, inl, inr, ◌∷◌, arith, Text, is_empty, tally,
  Bool-cases, if◌then◌else◌,
}
use codereviewer.Ports.{Result, ok, err, WebhookEvent, github}
use codereviewer.Exec.{Event, Env, Trace, Run, returned, ◌>>=◌, pure, call, verify_webhook}
use codereviewer.Gateway.{Gateway, use_event, use_body, webhook_handler}
use codereviewer.Gateway.Routes.{is_ok}

-- what a webhook is allowed to cause: anything but the verification itself
abbrev pub is_effect : Event → Bool
is_effect (verify_webhook provider header body) = false
is_effect _ = true

module _ (env : Env) (gw : Gateway) (provider : Text) where
  -- the provider is registered, the body can be read, and the adapter verifies the request
  abbrev pub is_authentic : Text → Result Text → Trace → Bool
  is_authentic header (err e) t = false
  is_authentic header (ok body) t =
      env.registered (if is_empty provider then github else provider)
      && is_ok (env.verified t provider header body)

  abbrev Refused : Run ℕ × Trace → Trace → Type 0
  Refused r t =
      (tally is_effect r.1 ≡ tally is_effect t)
      × ((r.0 ≡ returned 404) ⊎ ((r.0 ≡ returned 400) ⊎ (r.0 ≡ returned 401)))

  Refused-use_event :
      (r : Result WebhookEvent) (t : Trace)
      → is_ok r ≡ false
      → Refused (use_event env gw provider r t) t
  unfolding use_event pure
  Refused-use_event (err e) t h = (refl, inr (inr refl))
  Refused-use_event (ok event) t h = absurd (ground arith)

  Refused-use_body :
      (header : Text) (body : Result Text) (t : Trace)
      → is_authentic header body t ≡ false
      → env.registered (if is_empty provider then github else provider) ≡ true
      → Refused (use_body env gw provider header body t) t
  Refused-use_body header (err e) t h k = unfold use_body pure in (refl, inr (inl refl))
  Refused-use_body header (ok body) t h k =
      unfold use_body ◌>>=◌ call in
      Refused-use_event (env.verified t provider header body)
        (verify_webhook provider header body ∷ t) (ground (arith, h, k))

  -- A request that is not authentic causes nothing: no store is written and no job published. It is
  -- answered with 404, 400 or 401.
  pub webhook_handler-refuses :
      (header : Text) (body : Result Text) (t : Trace)
      → is_authentic header body t ≡ false
      → (tally is_effect (webhook_handler env gw provider header body t).1 ≡ tally is_effect t)
        × (((webhook_handler env gw provider header body t).0 ≡ returned 404)
            ⊎ (((webhook_handler env gw provider header body t).0 ≡ returned 400)
                ⊎ ((webhook_handler env gw provider header body t).0 ≡ returned 401)))
  webhook_handler-refuses header body t h =
      elim (Bool-cases (env.registered (if is_empty provider then github else provider))) [
        | inl e ↦ unfold webhook_handler in rw e (Refused-use_body header body t h e)
        | inr e ↦ unfold webhook_handler pure in rw e (refl, inl refl)
      ]

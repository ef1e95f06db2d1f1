-- ===== src/Domain/Webhooks/Worker.antt =====
-- `WebhookWorker` of app/workers/webhooks/dispatcher.py, its attempt on one delivery.
use professional_bot.Prelude.{
  ℕ, zero, suc, ◌+◌, ◌-◌, min, Bool, false, not, ◌&&◌, ◌||◌, List, [], ◌∷◌, Option, none, some,
  ◌==◌, nat_eq, leb, ltb, if◌then◌else◌, seconds, Result, ok, ◌>>=◌,
}
use professional_bot.Prelude.Text.{Text}
use professional_bot.Domain.Enums.WebhookEvent.{webhook_event_eq}
use professional_bot.Domain.Enums.WebhookDeliveryStatus.{
  WebhookDeliveryStatus, webhook_delivery_status_eq,
}
use professional_bot.Domain.Webhooks.{WebhookEndpoint, WebhookDelivery}

-- `WebhookDeliveryRepository.due`, of one row.
abbrev pub waits : WebhookDeliveryStatus → Bool
waits status = status == WebhookDeliveryStatus.pending || status == WebhookDeliveryStatus.failed

abbrev pub reached : ℕ → Option ℕ → Bool
reached now none = false
reached now (some t) = leb t now

unfoldable pub is_due : ℕ → WebhookDelivery → Bool
is_due now d = waits d.status && reached now d.next_attempt_at

-- `MAX_ATTEMPTS`
abbrev pub max_attempts : ℕ
max_attempts = 8

-- `BACKOFF_SECONDS`
abbrev pub backoff_seconds : List ℕ
backoff_seconds = 30 ∷ 120 ∷ 300 ∷ 900 ∷ 1800 ∷ 3600 ∷ 7200 ∷ 21600 ∷ []

abbrev pub seconds_at : ℕ → List ℕ → ℕ
seconds_at n [] = 0
seconds_at zero (s ∷ table) = s
seconds_at (suc n) (s ∷ table) = seconds_at n table

-- `record_success` and `record_failure` of an endpoint.
abbrev pub with_success : ℕ → ℕ → WebhookEndpoint → WebhookEndpoint
with_success now code e = record e {
  consecutive_failures = 0;
  last_success_at = some now;
  last_status_code = some code;
}

unfoldable pub with_failure : ℕ → Option ℕ → WebhookEndpoint → WebhookEndpoint
with_failure now code e =
    let failures = suc e.consecutive_failures in
    let disabled = leb 20 failures in
    record e {
      consecutive_failures = failures;
      last_failure_at = some now;
      last_status_code = code;
      is_active = if disabled then false else e.is_active;
      disabled_at = if disabled then some now else e.disabled_at;
    }

abbrev pub is_accepted : Option ℕ → Bool
is_accepted none = false
is_accepted (some code) = leb 200 code && ltb code 300

abbrev pub code_of : Option ℕ → ℕ
code_of none = 0
code_of (some code) = code

-- What the answer to a call makes of the row, whose attempt is counted.
unfoldable pub after_answer : ℕ → Option ℕ → WebhookDelivery → WebhookDelivery
after_answer now answer d =
    if is_accepted answer
    then record d {
      delivery_status_code = answer;
      status = WebhookDeliveryStatus.delivered;
      delivered_at = some now;
      next_attempt_at = none;
    }
    else if leb max_attempts d.attempts
    then record d {
      delivery_status_code = answer;
      status = WebhookDeliveryStatus.exhausted;
      next_attempt_at = none;
    }
    else record d {
      delivery_status_code = answer;
      status = WebhookDeliveryStatus.failed;
      next_attempt_at = some (now + seconds (seconds_at (min (d.attempts - 1) 7) backoff_seconds));
    }

abbrev pub given_up : WebhookDelivery → WebhookDelivery
given_up d = record d { status = WebhookDeliveryStatus.exhausted }

-- `_deliver`, of a row and its endpoint, which may be gone: the number it returns, the row and the endpoint. Reading the
-- secret may raise, and so may the call: `post` answers with a status code, or with none after an `httpx.HTTPError`, and any
-- other exception leaves the handler. What raises rolls the session back.
unfoldable pub deliver_to :
    ℕ
    → (is_safe : Text → Bool) (decrypt : Text → Result Text)
      (post : Text → Text → Result (Option ℕ))
    → Option WebhookEndpoint
    → WebhookDelivery
    → Result (ℕ × (WebhookDelivery × Option WebhookEndpoint))
deliver_to now is_safe decrypt post none d = ok (0, (given_up d, none))
deliver_to now is_safe decrypt post (some e) d =
    if not e.is_active
    then ok (0, (given_up d, some e))
    else if not (is_safe e.url)
    then ok (0, (given_up d, some (with_failure now none e)))
    else do
      secret ← decrypt e.encrypted_secret
      answer ← post e.url secret
      ok (
        1,
        (
          after_answer now answer (record d { attempts = suc d.attempts }),
          some (
              if is_accepted answer
              then with_success now (code_of answer) e
              else with_failure now answer e),
        ),
      )

unfoldable pub deliver :
    ℕ
    → (is_safe : Text → Bool) (decrypt : Text → Result Text)
      (post : Text → Text → Result (Option ℕ))
    → Option WebhookEndpoint
    → WebhookDelivery
    → Result (ℕ × (WebhookDelivery × Option WebhookEndpoint))
deliver now is_safe decrypt post endpoint d =
    if d.status == WebhookDeliveryStatus.delivered
    then ok (0, (d, endpoint))
    else deliver_to now is_safe decrypt post endpoint d

-- ===== src/Examples/Notified.antt =====
-- An order of a reseller with one endpoint, which answers 500 twice.
use professional_bot.Prelude.{
  ℕ, ◌+◌, ◌*◌, ◌≡◌, ◌≤◌, refl, true, Bool, List, [], ◌∷◌, Option, some, Result, ok, err,
  configuration,
}
use professional_bot.Prelude.Text.{Text, codes}
use professional_bot.Domain.Enums.WebhookEvent
use professional_bot.Domain.Enums.WebhookDeliveryStatus
use professional_bot.Domain.Orders.Lifecycle.{Order}
use professional_bot.Domain.Webhooks.{
  WebhookEndpoint, WebhookDelivery, new_endpoint, new_webhook_delivery, event_id_of, dispatch_event,
  dispatch_to, enqueue_all, enqueue, active_for_event,
}
use professional_bot.Domain.Webhooks.Worker.{
  deliver, deliver_to, after_answer, with_failure, is_due,
}
use professional_bot.Domain.Webhooks.Queue.{dispatch_event_again}
use professional_bot.Domain.Webhooks.Attempts
use professional_bot.Domain.Webhooks.Attempts.{Passes-bounded}
use professional_bot.Examples.Placed.{placed}

abbrev order : Order
order = record placed { reseller_id = some 1 }

abbrev endpoint : WebhookEndpoint
endpoint = new_endpoint 3 1 (codes "https://shop.example/hook") (codes "secret") []

abbrev detected : ℕ → ℕ → Text → List WebhookDelivery → ℕ × List WebhookDelivery
detected now row payload deliveries =
    dispatch_event now row WebhookEvent.payment_detected order payload (endpoint ∷ []) deliveries

queued_once : (detected 5 1 (codes "pending") []).0 ≡ 1
unfolding dispatch_event dispatch_to enqueue_all enqueue active_for_event
queued_once = refl

dispatch_event_again_example :
    detected 9 2 (codes "verified") (detected 5 1 (codes "pending") []).1
    ≡ (0, (detected 5 1 (codes "pending") []).1)
dispatch_event_again_example =
    dispatch_event_again 5 9 1 2 WebhookEvent.payment_detected order order (codes "pending")
      (codes "verified") (endpoint ∷ []) [] refl refl

abbrev row : WebhookDelivery
row = new_webhook_delivery 5 1 3 (event_id_of WebhookEvent.payment_detected 1) 1 (codes "pending")

abbrev safe : Text → Bool
safe url = true

-- The secret box that reads every secret, and the one whose key has changed.
abbrev opens : Text → Result Text
opens secret = ok secret

abbrev changed : Text → Result Text
changed secret = err configuration

abbrev fails : Text → Text → Result (Option ℕ)
fails url secret = ok (some 500)

-- The row after a call that failed with 500.
abbrev failed : ℕ → ℕ → ℕ → WebhookDelivery
failed now attempts seconds = record row {
  attempts = attempts;
  status = WebhookDeliveryStatus.failed;
  delivery_status_code = some 500;
  next_attempt_at = some (now + seconds * 1000000);
}

-- A call that is answered with 500, a pass that raises, and another call.
three-Passes : Attempts.Passes 2 1 row (failed 40000000 2 120)
unfolding deliver deliver_to after_answer is_due with_failure
three-Passes =
    Attempts.Passes.pass 6000000 safe opens fails (some endpoint) refl (_, refl, _, refl)
      (Attempts.Passes.fails 38000000 safe changed fails (some endpoint) refl (λ h. cc (h.1))
        (Attempts.Passes.pass 40000000 safe opens fails (some endpoint) refl (_, refl, _, refl)
          Attempts.Passes.none_yet))

Passes-bounded_example : 2 ≤ 8
Passes-bounded_example = Passes-bounded 2 1 row (failed 40000000 2 120) refl three-Passes

-- ===== src/Domain/Webhooks/Attempts.antt =====
-- How often `WebhookWorker` of app/workers/webhooks/dispatcher.py takes up a delivery.
use professional_bot.Prelude.{
  ℕ, suc, ◌+◌, ◌≤◌, ◌<◌, ◌≡◌, ◌⊎◌, refl, arith, Bool, true, false, Option, none, some, ◌==◌, leb,
  Bool-cases, inl, inr, zero, ◌&&◌, subst, sym, Error, Result, ok, err, >>=-eq-ok, ok-injective,
}
use professional_bot.Prelude.Text.{Text}
use professional_bot.Domain.Enums.WebhookDeliveryStatus.{
  WebhookDeliveryStatus, webhook_delivery_status_eq,
}
use professional_bot.Domain.Webhooks.{WebhookEndpoint, WebhookDelivery}
use professional_bot.Domain.Webhooks.Worker.{
  is_due, waits, reached, is_accepted, after_answer, deliver_to, deliver,
}

-- Whatever endpoint there is, its secret can be read and the call is answered, or fails with an `httpx.HTTPError`.
abbrev pub IsAnswered :
    (Text → Result Text) → (Text → Text → Result (Option ℕ)) → Option WebhookEndpoint → Type 0
IsAnswered decrypt post none = Unit {0}
IsAnswered decrypt post (some e) =
    (secret : Text) × (decrypt e.encrypted_secret ≡ ok secret)
    × (answer : Option ℕ) × (post e.url secret ≡ ok answer)

-- The row in the table after a pass: a pass that raises is rolled back.
abbrev pub row_after :
    WebhookDelivery → Result (ℕ × (WebhookDelivery × Option WebhookEndpoint)) → WebhookDelivery
row_after d (ok r) = r.1.0
row_after d (err error) = d

-- Passes that find the row due: a number in which the endpoint is answered, and a number in which it is not. The endpoint,
-- the verdict on its URL, the secret box and the call are any at each.
pub data Passes : ℕ → ℕ → WebhookDelivery → WebhookDelivery → Type 0 where
  none_yet : {d : WebhookDelivery} → Passes 0 0 d d
  pass :
      {n failed : ℕ} {d e : WebhookDelivery} (now : ℕ) (is_safe : Text → Bool)
      (decrypt : Text → Result Text) (post : Text → Text → Result (Option ℕ))
      (endpoint : Option WebhookEndpoint)
      → is_due now d ≡ true
      → IsAnswered decrypt post endpoint
      → Passes n failed (row_after d (deliver now is_safe decrypt post endpoint d)) e
      → Passes (suc n) failed d e
  fails :
      {n failed : ℕ} {d e : WebhookDelivery} (now : ℕ) (is_safe : Text → Bool)
      (decrypt : Text → Result Text) (post : Text → Text → Result (Option ℕ))
      (endpoint : Option WebhookEndpoint)
      → is_due now d ≡ true
      → ¬ IsAnswered decrypt post endpoint
      → Passes n failed (row_after d (deliver now is_safe decrypt post endpoint d)) e
      → Passes n (suc failed) d e

-- A row is not taken up again, or the attempt that was made is counted and others are left.
abbrev pub Counted : WebhookDelivery → WebhookDelivery → Type 0
Counted d e = (waits e.status ≡ false) ⊎ ((e.attempts ≡ suc d.attempts) × (e.attempts < 8))

after_answer-Counted :
    (now : ℕ) (answer : Option ℕ) (d : WebhookDelivery)
    → Counted d (after_answer now answer (record d { attempts = suc d.attempts }))
unfolding after_answer
after_answer-Counted now answer d = elim (Bool-cases (is_accepted answer)) [
  | inl accepted ↦ rw accepted (inl refl)
  | inr refused ↦ elim (Bool-cases (leb 8 (suc d.attempts))) [
    | inl last ↦ rw (refused, last) (inl refl)
    | inr more ↦ rw (refused, more) (inr (refl, ground arith))
  ]
]

module _ (now : ℕ) (is_safe : Text → Bool) (decrypt : Text → Result Text)
    (post : Text → Text → Result (Option ℕ)) where
  deliver_to-Counted :
      (endpoint : Option WebhookEndpoint) (d : WebhookDelivery)
      (r : ℕ × (WebhookDelivery × Option WebhookEndpoint))
      → deliver_to now is_safe decrypt post endpoint d ≡ ok r
      → Counted d r.1.0
  unfolding deliver_to
  deliver_to-Counted none d r h = subst (λ x. Counted d x.1.0) (ok-injective h) (inl refl)
  deliver_to-Counted (some e) d r h = elim (Bool-cases (e.is_active)) [
    | inr disabled ↦ subst (λ x. Counted d x.1.0) (ok-injective (rw disabled at h)) (inl refl)
    | inl enabled ↦ elim (Bool-cases (is_safe e.url)) [
      | inr blocked ↦
          subst (λ x. Counted d x.1.0) (ok-injective (rw (enabled, blocked) at h)) (inl refl)
      | inl safe ↦
          let (secret, p, g) = >>=-eq-ok (decrypt e.encrypted_secret) _ (rw (enabled, safe) at h) in
          let (answer, q, g') = >>=-eq-ok (post e.url secret) _ g in
          subst (λ x. Counted d x.1.0) (ok-injective g') (after_answer-Counted now answer d)
    ]
  ]

  deliver-Counted :
      (endpoint : Option WebhookEndpoint) (d : WebhookDelivery)
      (r : ℕ × (WebhookDelivery × Option WebhookEndpoint))
      → is_due now d ≡ true
      → deliver now is_safe decrypt post endpoint d ≡ ok r
      → Counted d r.1.0
  unfolding deliver is_due
  deliver-Counted endpoint d r due h =
      elim (Bool-cases (d.status == WebhookDeliveryStatus.delivered)) [
        | inl done ↦
            subst (λ x. Counted d x.1.0) (ok-injective (rw done at h))
              (inl (waits_not d.status done))
        | inr open_row ↦ deliver_to-Counted endpoint d r (rw open_row at h)
      ]
    where
      waits_not :
          (s : WebhookDeliveryStatus)
          → (s == WebhookDeliveryStatus.delivered) ≡ true
          → waits s ≡ false
      waits_not s h = ground arith

  deliver-row :
      (endpoint : Option WebhookEndpoint) (d : WebhookDelivery)
      → is_due now d ≡ true
      → (row_after d (deliver now is_safe decrypt post endpoint d) ≡ d)
        ⊎ Counted d (row_after d (deliver now is_safe decrypt post endpoint d))
  deliver-row endpoint d due = go (deliver now is_safe decrypt post endpoint d) refl
    where
      go :
          (r : Result (ℕ × (WebhookDelivery × Option WebhookEndpoint)))
          → deliver now is_safe decrypt post endpoint d ≡ r
          → (row_after d r ≡ d) ⊎ Counted d (row_after d r)
      go (err error) e = inl refl
      go (ok r) e = inr (deliver-Counted endpoint d r due e)

  deliver_to-returns :
      (endpoint : Option WebhookEndpoint) (d : WebhookDelivery)
      → IsAnswered decrypt post endpoint
      → (r : ℕ × (WebhookDelivery × Option WebhookEndpoint)) × (deliver_to now is_safe decrypt post
            endpoint d
          ≡ ok r)
  unfolding deliver_to
  deliver_to-returns none d h = (_, refl)
  deliver_to-returns (some e) d (secret, p, answer, q) = elim (Bool-cases (e.is_active)) [
    | inr disabled ↦ rw disabled (_, refl)
    | inl enabled ↦ elim (Bool-cases (is_safe e.url)) [
      | inr blocked ↦ rw (enabled, blocked) (_, refl)
      | inl safe ↦ rw (enabled, safe) (rw p (rw q (_, refl)))
    ]
  ]

  -- An attempt on an endpoint that is answered returns.
  deliver-returns :
      (endpoint : Option WebhookEndpoint) (d : WebhookDelivery)
      → IsAnswered decrypt post endpoint
      → (r : ℕ × (WebhookDelivery × Option WebhookEndpoint)) × (deliver now is_safe decrypt post
            endpoint d
          ≡ ok r)
  unfolding deliver
  deliver-returns endpoint d h = elim (Bool-cases (d.status == WebhookDeliveryStatus.delivered)) [
    | inl done ↦ rw done (_, refl)
    | inr open_row ↦ rw open_row (deliver_to-returns endpoint d h)
  ]

  answered-Counted :
      (endpoint : Option WebhookEndpoint) (d : WebhookDelivery)
      → is_due now d ≡ true
      → IsAnswered decrypt post endpoint
      → Counted d (row_after d (deliver now is_safe decrypt post endpoint d))
  answered-Counted endpoint d due h =
      let (r, e) = deliver-returns endpoint d h in rw e (deliver-Counted endpoint d r due e)

-- A row that does not wait is taken up no more.
no_more :
    {n failed : ℕ} (d e : WebhookDelivery) → Passes n failed d e → waits d.status ≡ false → n ≡ 0
unfolding is_due
no_more d e Passes.none_yet idle = refl
no_more d e (Passes.pass now is_safe decrypt post endpoint due h rest) idle =
    absurd (cc (rw idle at due))
no_more d e (Passes.fails now is_safe decrypt post endpoint due h rest) idle =
    absurd (cc (rw idle at due))

Passes-left :
    {n failed : ℕ} (d e : WebhookDelivery)
    → Passes n failed d e
    → d.attempts < 8
    → d.attempts + n ≤ 8
Passes-left d e Passes.none_yet few = omega arith
Passes-left d e (Passes.fails {n} now is_safe decrypt post endpoint due h rest) few =
    elim (deliver-row now is_safe decrypt post endpoint d due) [
      | inl same ↦
          subst (λ x. x.attempts + n ≤ 8) same
            (Passes-left _ e rest (subst (λ x. x.attempts < 8) (sym same) few))
      | inr (inl idle) ↦ let none_left = no_more _ e rest idle in omega arith
      | inr (inr (counted, more)) ↦ let left = Passes-left _ e rest more in omega arith
    ]
Passes-left d e (Passes.pass now is_safe decrypt post endpoint due h rest) few =
    elim (answered-Counted now is_safe decrypt post endpoint d due h) [
      | inl idle ↦ let none_left = no_more _ e rest idle in omega arith
      | inr (counted, more) ↦ let left = Passes-left _ e rest more in omega arith
    ]

-- From a row that was never tried, no run of passes takes it up more than eight times with a secret that can be read and a
-- call that is answered or fails with an `httpx.HTTPError`, whatever the answers and whatever becomes of the endpoint; any
-- number of passes in which the secret cannot be read, or the call raises otherwise, may come in between.
pub Passes-bounded :
    (n failed : ℕ) (d e : WebhookDelivery) → d.attempts ≡ 0 → Passes n failed d e → n ≤ 8
Passes-bounded n failed d e fresh passes =
    let left = Passes-left d e passes (omega arith) in omega arith

-- A row that is due, of an endpoint that is active, at a safe URL, whose secret cannot be read, stays as it is and due
-- through any number of passes.
pub unreadable :
    (now : ℕ) (is_safe : Text → Bool) (decrypt : Text → Result Text)
    (post : Text → Text → Result (Option ℕ)) (endpoint : WebhookEndpoint) (d : WebhookDelivery)
    (error : Error) (failed : ℕ)
    → is_due now d ≡ true
    → endpoint.is_active ≡ true
    → is_safe endpoint.url ≡ true
    → decrypt endpoint.encrypted_secret ≡ err error
    → Passes 0 failed d d
unfolding deliver deliver_to is_due
unreadable now is_safe decrypt post endpoint d error zero due active safe broken = Passes.none_yet
unreadable now is_safe decrypt post endpoint d error (suc failed) due active safe broken =
    Passes.fails now is_safe decrypt post (some endpoint) due (λ h. cc (h.1, broken))
      (rw (waiting d.status due, active, safe, broken)
        (unreadable now is_safe decrypt post endpoint d error failed due active safe broken))
  where
    waiting :
        (s : WebhookDeliveryStatus)
        → (waits s && reached now d.next_attempt_at) ≡ true
        → (s == WebhookDeliveryStatus.delivered) ≡ false
    waiting s h = ground arith

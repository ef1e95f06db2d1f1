-- ===== src/Domain/Payments/Service/Advance.antt =====
-- `_advance` of app/domain/payments/service.py: what walking the path comes to.
use professional_bot.Prelude.{
  ◌≡◌, refl, sym, true, List, [], ◌∷◌, arith, Result, ok, err, ◌>>=◌, invalid_transition,
}
use professional_bot.Domain.Enums.PaymentStatus.{PaymentStatus, payment_status_eq}
use professional_bot.Domain.StateMachines.{
  assert_payment_transition, can_transition_payment, payment_path,
}
use professional_bot.Domain.StateMachines.Paths.{
  IsIteration, IsLegal, PathSpec, payment_path-shortest,
}
use professional_bot.Domain.Payments.Service.{Session, set_status, transition_intent, walk, advance}

-- A pair of statuses that the table allows is accepted.
assert_payment_transition-allowed :
    (p q : PaymentStatus)
    → can_transition_payment p q ≡ true
    → assert_payment_transition p q ≡ ok tt
unfolding assert_payment_transition
assert_payment_transition-allowed p q h = ground arith

walk-IsLegal :
    (p : List PaymentStatus) (s : Session) (target : PaymentStatus)
    → IsLegal s.intent.status p target
    → walk p s ≡ ok (set_status target s)
unfolding walk transition_intent
walk-IsLegal [] s target h = rw (sym h) refl
walk-IsLegal (step ∷ p) s target h =
    rw (assert_payment_transition-allowed s.intent.status step h.0)
      (walk-IsLegal p (set_status step s) target h.1)

-- The answer of `_advance`: the status is set and nothing else, or it raises and no legal sequence of
-- transitions leads to the target.
abbrev pub Advanced : PaymentStatus → Session → Result Session → Type 0
Advanced target s (ok s') = s' ≡ set_status target s
Advanced target s (err e) =
    (e ≡ invalid_transition) × ((p : List PaymentStatus) → ¬ IsLegal s.intent.status p target)

module _ (iter : PaymentStatus → List PaymentStatus) (iteration : IsIteration iter) where
  along :
      (target : PaymentStatus) (s : Session) (r : Result (List PaymentStatus))
      → PathSpec s.intent.status target r
      → Advanced target s (r >>= λ path. walk path s)
  along target s (ok p) h = rw (walk-IsLegal p s target h.0) refl
  along target s (err e) h = h

  -- For every iteration order, `_advance` sets the status to the target and changes nothing else, or
  -- it raises `InvalidStateTransition` and no legal sequence of transitions leads to the target.
  pub advance-Advanced :
      (target : PaymentStatus) (s : Session) → Advanced target s (advance iter target s)
  unfolding advance
  advance-Advanced target s =
      along target s (payment_path iter s.intent.status target)
        (payment_path-shortest iter iteration s.intent.status target)

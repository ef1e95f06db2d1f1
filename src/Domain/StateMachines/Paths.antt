-- ===== src/Domain/StateMachines/Paths.antt =====
-- `payment_path` of app/domain/state_machines.py against the legal sequences of transitions.
use professional_bot.Prelude.{
  ◌≤◌, ◌≡◌, refl, sym, ◌∙◌, true, List, [], ◌∷◌, arith, contains, length, Bool-cases, ◌==◌,
  eq_of_beq, inl, inr, Result, ok, err, invalid_transition,
}
use professional_bot.Domain.Enums.PaymentStatus.{PaymentStatus, payment_status_eq, members}
use professional_bot.Domain.StateMachines.{
  payment_path, can_transition_payment, path_result, path_fuel,
}
use professional_bot.Domain.StateMachines.Search.{Outcome, arrived, no_path, out_of_fuel}
use professional_bot.Domain.StateMachines.Search.Walks.{IsPath}
use professional_bot.Domain.StateMachines.Search.Levels.{Shortest, search-Shortest}

-- Each step of `p` is one that `can_transition_payment` accepts, and the last arrives at `t`.
abbrev pub IsLegal : PaymentStatus → List PaymentStatus → PaymentStatus → Type 0
IsLegal s [] t = s ≡ t
IsLegal s (u ∷ p) t = (can_transition_payment s u ≡ true) × IsLegal u p t

-- Iterating the frozenset of `s` gives exactly the targets that the table allows.
abbrev pub IsIteration : (PaymentStatus → List PaymentStatus) → Type 0
IsIteration iter = (s t : PaymentStatus) → contains (iter s) t ≡ can_transition_payment s t

abbrev pub PathSpec : PaymentStatus → PaymentStatus → Result (List PaymentStatus) → Type 0
PathSpec s t (ok p) =
    IsLegal s p t × ((p' : List PaymentStatus) → IsLegal s p' t → length p ≤ length p')
PathSpec s t (err e) = (e ≡ invalid_transition) × ((p : List PaymentStatus) → ¬ IsLegal s p t)

module _ (iter : PaymentStatus → List PaymentStatus) (iteration : IsIteration iter) where
  IsLegal-of_path :
      (s : PaymentStatus) (p : List PaymentStatus) (t : PaymentStatus)
      → IsPath iter s p t
      → IsLegal s p t
  IsLegal-of_path s [] t h = h
  IsLegal-of_path s (u ∷ p) t h = (sym (iteration s u) ∙ h.0, IsLegal-of_path u p t h.1)

  IsPath-of_legal :
      (s : PaymentStatus) (p : List PaymentStatus) (t : PaymentStatus)
      → IsLegal s p t
      → IsPath iter s p t
  IsPath-of_legal s [] t h = h
  IsPath-of_legal s (u ∷ p) t h = (iteration s u ∙ h.0, IsPath-of_legal u p t h.1)

  PathSpec-path_result :
      (s t : PaymentStatus) (o : Outcome PaymentStatus)
      → Shortest iter s t o
      → PathSpec s t (path_result o)
  unfolding path_result
  PathSpec-path_result s t (arrived p) h =
      (IsLegal-of_path s p t h.0, λ p' l. h.1 p' (IsPath-of_legal s p' t l))
  PathSpec-path_result s t no_path h = (refl, λ p l. h p (IsPath-of_legal s p t l))
  PathSpec-path_result s t out_of_fuel h = absurd h

  -- For every iteration order and all statuses `s` and `t`, `payment_path` returns a legal sequence
  -- from `s` to `t` than which no legal sequence is shorter, or it raises
  -- `InvalidStateTransition` and there is no legal sequence.
  pub payment_path-shortest : (s t : PaymentStatus) → PathSpec s t (payment_path iter s t)
  unfolding payment_path
  payment_path-shortest s t = elim (Bool-cases (s == t)) [
    | inl same ↦ rw same (eq_of_beq s t same, λ p' l. omega arith)
    | inr differ ↦ rw differ (
        PathSpec-path_result s t _
          (search-Shortest iter s t members complete path_fuel (omega arith) differ))
  ]
    where
      complete : (v : PaymentStatus) → contains members v ≡ true
      complete v = ground arith

-- ===== src/Db/Reconciliation.antt =====
-- `ReconciliationRepository.record` of app/db/repositories/payments.py: an anomaly is raised at most
-- once per key. The key's text, `{kind}:{intent}:{external}`, is kept as its parts, since equal texts
-- have equal parts; summary and details are left out.
use professional_bot.Prelude.{
  ℕ, ◌≡◌, Bool, true, false, ◌&&◌, List, [], ◌∷◌, ◌++◌, Eq, code_eq, arith, ◌==◌, nat_eq,
  if◌then◌else◌,
}
use professional_bot.Prelude.Text.{Text, text_eq}

pub data ReconciliationKind : Type 0 where
  unmatched_transaction duplicate_transaction late_payment wrong_network : ReconciliationKind
  amount_mismatch expired_with_funds provider_inconsistency : ReconciliationKind
  stuck_delivery orphan_payment : ReconciliationKind

abbrev pub code : ReconciliationKind → ℕ
code unmatched_transaction = 0
code duplicate_transaction = 1
code late_payment = 2
code wrong_network = 3
code amount_mismatch = 4
code expired_with_funds = 5
code provider_inconsistency = 6
code stuck_delivery = 7
code orphan_payment = 8

pub code-injective : (a b : ReconciliationKind) → code a ≡ code b → a ≡ b
code-injective a b h = ground arith

instance abbrev pub reconciliation_kind_eq : Eq ReconciliationKind
reconciliation_kind_eq = code_eq code code-injective

pub record Anomaly : Type 0 where
  pub kind : ReconciliationKind
  pub payment_intent_id : ℕ
  pub external : Text
  pub order_id : ℕ

abbrev pub same_anomaly : Anomaly → Anomaly → Bool
same_anomaly a b =
    a.kind == b.kind && a.payment_intent_id == b.payment_intent_id && a.external == b.external

unfoldable pub raised : Anomaly → List Anomaly → Bool
raised a [] = false
raised a (b ∷ bs) = let rest = raised a bs in if same_anomaly b a then true else rest

unfoldable pub record_anomaly : Anomaly → List Anomaly → List Anomaly
unfolding raised
record_anomaly a bs = if raised a bs then bs else bs ++ a ∷ []

-- ===== src/Db/Ledger.antt =====
-- `LedgerRepository` of app/db/repositories/orders.py: the journal, each event at most once.
-- An insert that loses a race at the UNIQUE constraint on `dedupe_key`, which rolls the session back,
-- is left out, and so are descriptions and details.
pub mod Once
pub mod Refines
use professional_bot.Prelude.{
  ℕ, zero, suc, ◌+◌, ◌≤◌, ◌≡◌, ◌≢◌, ◌↔◌, refl, Bool, true, false, ◌&&◌, List, [], ◌∷◌, ◌++◌, Option,
  none, some, arith, Eq, ◌==◌, nat_eq, if◌then◌else◌, Bool-cases, inl, inr,
}
use professional_bot.Core.Money.{Decimal}
use professional_bot.Domain.Enums.LedgerEntryType.{LedgerEntryType}

-- The formatted keys, `payment_verified:{intent.id}` and the others.
pub data DedupeKey : Type 0 where
  payment_verified manual_approval order_created refund referral : ℕ → DedupeKey

abbrev kind : DedupeKey → ℕ
kind (payment_verified _) = 0
kind (manual_approval _) = 1
kind (order_created _) = 2
kind (refund _) = 3
kind (referral _) = 4

abbrev subject : DedupeKey → ℕ
subject (payment_verified i) = i
subject (manual_approval i) = i
subject (order_created i) = i
subject (refund i) = i
subject (referral i) = i

abbrev pub key_eqb : DedupeKey → DedupeKey → Bool
key_eqb a b = kind a == kind b && subject a == subject b

pub key_eqb_iff : (a b : DedupeKey) → (key_eqb a b ≡ true) ↔ (a ≡ b)
key_eqb_iff a b = ground arith

instance abbrev pub dedupe_key_eq : Eq DedupeKey
dedupe_key_eq = record { beq = key_eqb; beq_iff = key_eqb_iff }

pub record LedgerEntry : Type 0 where
  pub entry_type : LedgerEntryType
  pub amount : Decimal
  pub dedupe_key : DedupeKey
  pub order_id : Option ℕ
  pub payment_intent_id : Option ℕ

abbrev pub Ledger : Type 0
Ledger = List LedgerEntry

unfoldable pub has_key : DedupeKey → Ledger → Bool
has_key k [] = false
has_key k (e ∷ l) = let rest = has_key k l in if e.dedupe_key == k then true else rest

-- The entry, if it was written, and the journal.
unfoldable pub record_entry : LedgerEntry → Ledger → Option LedgerEntry × Ledger
record_entry e l = if has_key e.dedupe_key l then (none, l) else (some e, l ++ e ∷ [])

unfoldable pub entries_with : DedupeKey → Ledger → ℕ
entries_with k [] = 0
entries_with k (e ∷ l) = let rest = entries_with k l in if e.dedupe_key == k then suc rest else rest

-- ===== src/Db/Ledger/Once.antt =====
-- Recording an event of app/db/repositories/orders.py into the journal, once and again.
use professional_bot.Prelude.{
  ◌+◌, ◌≤◌, ◌≡◌, refl, true, false, [], ◌∷◌, ◌++◌, none, arith, ◌==◌, if◌then◌else◌, Bool-cases,
  inl, inr,
}
use professional_bot.Db.Ledger.{
  DedupeKey, key_eqb_iff, LedgerEntry, Ledger, has_key, record_entry, entries_with, dedupe_key_eq,
}

entries_with-append :
    (k : DedupeKey) (l : Ledger) (e : LedgerEntry)
    → entries_with k (l ++ e ∷ []) ≡ entries_with k l + (if e.dedupe_key == k then 1 else 0)
unfolding entries_with
entries_with-append k [] e = ground arith
entries_with-append k (x ∷ l) e = ground (arith, entries_with-append k l e)

entries_with-zero : (k : DedupeKey) (l : Ledger) → has_key k l ≡ false → entries_with k l ≡ 0
unfolding entries_with has_key
entries_with-zero k [] h = refl
entries_with-zero k (e ∷ l) h = ground (arith, entries_with-zero k l)

has_key-append :
    (k : DedupeKey) (l : Ledger) (e : LedgerEntry)
    → e.dedupe_key ≡ k
    → has_key k (l ++ e ∷ []) ≡ true
unfolding has_key
has_key-append k [] e h = ground (arith, key_eqb_iff e.dedupe_key k)
has_key-append k (x ∷ l) e h = ground (arith, has_key-append k l e h)

-- No key stands twice in the journal.
abbrev pub IsJournal : Ledger → Type 0
IsJournal l = (k : DedupeKey) → entries_with k l ≤ 1

-- Recording an entry keeps a journal in which no key stands twice.
pub record_entry-IsJournal :
    (e : LedgerEntry) (l : Ledger) → IsJournal l → IsJournal (record_entry e l).1
unfolding record_entry
record_entry-IsJournal e l h k = elim (Bool-cases (has_key e.dedupe_key l)) [
  | inl old ↦ rw old (h k)
  | inr new ↦ rw new (
      ground (
        arith,
        h k,
        entries_with-append k l e,
        entries_with-zero e.dedupe_key l new,
        key_eqb_iff e.dedupe_key k,
      ))
]

pub has_key-record_entry :
    (e : LedgerEntry) (l : Ledger) → has_key e.dedupe_key (record_entry e l).1 ≡ true
unfolding record_entry
has_key-record_entry e l = elim (Bool-cases (has_key e.dedupe_key l)) [
  | inl old ↦ rw old old
  | inr new ↦ rw new (has_key-append e.dedupe_key l e refl)
]

-- Recording an event again writes nothing and returns None: after one call the key is present, and a
-- second call, with whatever entry of the same key, leaves the journal as it is.
pub record_entry_again :
    (e e' : LedgerEntry) (l : Ledger)
    → e'.dedupe_key ≡ e.dedupe_key
    → record_entry e' (record_entry e l).1 ≡ (none, (record_entry e l).1)
unfolding record_entry
record_entry_again e e' l h = elim (Bool-cases (has_key e.dedupe_key l)) [
  | inl old ↦ rw old (rw h (rw old))
  | inr new ↦ rw new (rw h (rw (has_key-append e.dedupe_key l e refl)))
]

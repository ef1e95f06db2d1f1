-- ===== src/Db/Ledger/Refines.antt =====
-- Any sequence of `record` calls of app/db/repositories/orders.py, against a map from keys to entries.
use professional_bot.Prelude.{
  ◌≡◌, refl, sym, ◌∙◌, ap, fun_ext, true, List, [], ◌∷◌, ◌++◌, Option, none, some, arith, ◌==◌,
  if◌then◌else◌, is_some, Bool-cases, Option-cases, inl, inr,
}
use professional_bot.Db.Ledger.{
  DedupeKey, key_eqb_iff, dedupe_key_eq, LedgerEntry, Ledger, has_key, record_entry,
}
use professional_bot.Db.Ledger.Once.{IsJournal, record_entry-IsJournal}

-- The view of a journal: the entry of each key.
unfoldable pub entry_for : Ledger → DedupeKey → Option LedgerEntry
entry_for [] k = none
entry_for (e ∷ l) k = let rest = entry_for l k in if e.dedupe_key == k then some e else rest

-- The calls, in their order: what each returned, and the journal.
unfoldable pub run : List LedgerEntry → Ledger → List (Option LedgerEntry) × Ledger
run [] l = ([], l)
run (e ∷ es) l =
    let (out, next) = record_entry e l in let (outs, last) = run es next in (out ∷ outs, last)

-- The same calls on a map: an entry is kept where its key has none.
abbrev pub Book : Type 0
Book = DedupeKey → Option LedgerEntry

abbrev pub kept : LedgerEntry → Book → Option LedgerEntry
kept e book = if is_some (book e.dedupe_key) then none else some e

abbrev pub first_of : Option LedgerEntry → Option LedgerEntry → Option LedgerEntry
first_of (some e) other = some e
first_of none other = other

abbrev pub noted : LedgerEntry → Book → Book
noted e book k = first_of (book k) (if e.dedupe_key == k then some e else none)

unfoldable pub replay : List LedgerEntry → Book → List (Option LedgerEntry) × Book
replay [] book = ([], book)
replay (e ∷ es) book = let (outs, last) = replay es (noted e book) in (kept e book ∷ outs, last)

has_key-is_some : (k : DedupeKey) (l : Ledger) → has_key k l ≡ is_some (entry_for l k)
unfolding has_key entry_for
has_key-is_some k [] = refl
has_key-is_some k (e ∷ l) = ground (arith, has_key-is_some k l)

entry_for-append :
    (l : Ledger) (e : LedgerEntry) (k : DedupeKey)
    → entry_for (l ++ e ∷ []) k ≡ noted e (entry_for l) k
unfolding entry_for
entry_for-append [] e k = refl
entry_for-append (x ∷ l) e k = elim (Bool-cases (x.dedupe_key == k)) [
  | inl hit ↦ rw (noted, hit) refl
  | inr miss ↦ rw (noted, miss) (entry_for-append l e k)
]

noted-known :
    (e : LedgerEntry) (book : Book)
    → is_some (book e.dedupe_key) ≡ true
    → (k : DedupeKey) → book k ≡ noted e book k
noted-known e book h k = elim (Option-cases (book k)) [
  | inr (old, found) ↦ rw (noted, found) refl
  | inl fresh ↦ elim (Bool-cases (e.dedupe_key == k)) [
    | inr other ↦ rw (noted, fresh, other) refl
    | inl same ↦
        absurd (
          cc
            (ap (λ x. is_some (book x)) ((key_eqb_iff e.dedupe_key k).0 same), h, ap is_some fresh))
  ]
]

record_entry-noted :
    (e : LedgerEntry) (l : Ledger)
    → ((record_entry e l).0 ≡ kept e (entry_for l))
      × (entry_for (record_entry e l).1 ≡ noted e (entry_for l))
unfolding record_entry
record_entry-noted e l = elim (Bool-cases (has_key e.dedupe_key l)) [
  | inl old ↦
      let known = sym (has_key-is_some e.dedupe_key l) ∙ old in
      rw old (rw known refl, fun_ext (noted-known e (entry_for l) known))
  | inr new ↦
      let unknown = sym (has_key-is_some e.dedupe_key l) ∙ new in
      rw new (rw unknown refl, fun_ext (entry_for-append l e))
]

-- Whatever entries are recorded, in whatever order, the calls return, and the journal reads, as on a
-- map that keeps the first entry of each key; and a journal in which no key stands twice stays one.
pub run_refines :
    (es : List LedgerEntry) (l : Ledger)
    → ((run es l).0 ≡ (replay es (entry_for l)).0)
      × (entry_for (run es l).1 ≡ (replay es (entry_for l)).1)
      × (IsJournal l → IsJournal (run es l).1)
unfolding run replay
run_refines [] l = (refl, refl, λ h. h)
run_refines (e ∷ es) l =
    let (out, view) = record_entry-noted e l in
    let (outs, last, once) = run_refines es (record_entry e l).1 in
    (rw (← view) (cc (out, outs)), rw (← view) last, λ h. once (record_entry-IsJournal e l h))

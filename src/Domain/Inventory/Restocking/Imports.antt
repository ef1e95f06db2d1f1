-- ===== src/Domain/Inventory/Restocking/Imports.antt =====
-- Imports by `add_stock` of app/domain/inventory/service.py: one, the same again, and one with a payload
-- that stands twice.
use professional_bot.Prelude.{
  ℕ, suc, ◌+◌, ◌≡◌, refl, ap, subst, Bool, true, false, ◌||◌, List, [], ◌∷◌, ◌++◌, arith, All,
  nat_eq, if◌then◌else◌, any, length, Bool-cases, inl, inr, ok, ok-injective, beq_refl,
}
use professional_bot.Prelude.Text.{Text, text_eq, is_empty, strip}
use professional_bot.Domain.Inventory.{available, InventoryItem, Stock}
use professional_bot.Domain.Inventory.Restocking.{
  has_unique_keys, flush_items, has_fingerprint, is_known, new_item, collect, add_stock,
}
use professional_bot.Domain.Payments.Fingerprint.{payload_fingerprint}

module _ (sha256 encrypt : Text → Text) where
  -- A row that an import may add: available, of the product, for a text that was not in stock.
  pub record IsNew (product_id : ℕ) (items : List InventoryItem) (j : InventoryItem) : Type 0 where
    pub of_product : j.product_id ≡ product_id
    pub for_sale : j.status ≡ available
    pub was_unknown : is_known product_id j.fingerprint items ≡ false

  collect-IsNew :
      (row p : ℕ) (items : List InventoryItem) (raws : List Text)
      → All (IsNew p items) (collect sha256 encrypt row p items raws).0
  unfolding collect
  collect-IsNew row p items [] = tt
  collect-IsNew row p items (raw ∷ raws) = elim (Bool-cases (is_empty (strip raw))) [
    | inl blank ↦ rw blank (collect-IsNew row p items raws)
    | inr text ↦ elim (Bool-cases (is_known p (payload_fingerprint sha256 (strip raw)) items)) [
      | inl known ↦ rw (text, known) (collect-IsNew row p items raws)
      | inr new ↦
          rw (text, new)
            (
              record { of_product = refl; for_sale = refl; was_unknown = new },
              collect-IsNew (suc row) p items raws,
            )
    ]
  ]

  pub record Added (product_id added : ℕ) (s t : Stock) : Type 0 where
    pub new : List InventoryItem
    pub appended : t.items ≡ s.items ++ new
    pub counted : length new ≡ added
    pub all_new : All (IsNew product_id s.items) new
    pub unique : has_unique_keys t.items ≡ true
    pub same_holds : t.reservations ≡ s.reservations

  -- An import that returns appends as many rows as it reports, all available, of the product, and for
  -- texts that were not in stock; no product then has one text twice, and the holds are as before.
  pub add_stock-Added :
      (row product_id : ℕ) (raws : List Text) (s : Stock) (added skipped : ℕ) (t : Stock)
      → add_stock sha256 encrypt row product_id raws s ≡ ok (added, (skipped, t))
      → Added product_id added s t
  unfolding add_stock flush_items
  add_stock-Added row p raws s n k t h =
      let found = collect sha256 encrypt row p s.items raws in
      let after : Stock = record s { items = s.items ++ found.0 } in
      elim (Bool-cases (has_unique_keys (s.items ++ found.0))) [
        | inr twice ↦ absurd (cc (rw twice at h))
        | inl unique ↦
            subst (λ x. Added p x.0 s x.1.1)
              (ok-injective {x = (length found.0, (found.1, after))} (rw unique at h))
              (record {
                new = found.0;
                appended = refl;
                counted = refl;
                all_new = collect-IsNew row p s.items raws;
                unique = unique;
                same_holds = refl;
              })
      ]

  any-append :
      (q : InventoryItem → Bool) (xs ys : List InventoryItem)
      → any q (xs ++ ys) ≡ (any q xs || any q ys)
  any-append q [] ys = refl
  any-append q (x ∷ xs) ys = ground (arith, any-append q xs ys)

  -- Of the payloads with a text, the database knows each.
  AreKnown : ℕ → List InventoryItem → List Text → Type 0
  AreKnown p items raws =
      All
        (λ raw.
          is_empty (strip raw) ≡ false
          → is_known p (payload_fingerprint sha256 (strip raw)) items ≡ true)
        raws

  -- The number of payloads with a text.
  texts : List Text → ℕ
  texts [] = 0
  texts (raw ∷ raws) = let rest = texts raws in if is_empty (strip raw) then rest else suc rest

  collect-texts :
      (row p : ℕ) (items : List InventoryItem) (raws : List Text)
      → let found = collect sha256 encrypt row p items raws in length found.0 + found.1 ≡ texts raws
  unfolding collect texts
  collect-texts row p items [] = refl
  collect-texts row p items (raw ∷ raws) = elim (Bool-cases (is_empty (strip raw))) [
    | inl blank ↦ rw blank (collect-texts row p items raws)
    | inr text ↦ elim (Bool-cases (is_known p (payload_fingerprint sha256 (strip raw)) items)) [
      | inl known ↦ rw (text, known) (omega (arith, collect-texts row p items raws))
      | inr new ↦ rw (text, new) (omega (arith, collect-texts (suc row) p items raws))
    ]
  ]

  collect-known :
      (row p : ℕ) (items : List InventoryItem) (raws : List Text)
      → AreKnown p items raws
      → collect sha256 encrypt row p items raws ≡ ([], texts raws)
  unfolding collect texts AreKnown
  collect-known row p items [] h = refl
  collect-known row p items (raw ∷ raws) h = elim (Bool-cases (is_empty (strip raw))) [
    | inl blank ↦ rw blank (collect-known row p items raws h.1)
    | inr text ↦ rw (text, h.0 text) (rw (collect-known row p items raws h.1) refl)
  ]

  known_or_new :
      (fp : Text) (p : ℕ) (items new : List InventoryItem)
      → is_known p fp (items ++ new) ≡ (is_known p fp items || is_known p fp new)
  unfolding is_known
  known_or_new fp p items new = any-append (has_fingerprint p fp) items new

  is_known-cons :
      (fp : Text) (p : ℕ) (j : InventoryItem) (items new : List InventoryItem)
      → is_known p fp (items ++ new) ≡ true
      → is_known p fp (items ++ j ∷ new) ≡ true
  unfolding is_known
  is_known-cons fp p j items new h = ground (
    arith,
    any-append (has_fingerprint p fp) items new,
    any-append (has_fingerprint p fp) items (j ∷ new),
  )

  is_known-new_item :
      (row p : ℕ) (payload : Text) (items new : List InventoryItem)
      → is_known p
          (payload_fingerprint sha256 payload)
          (items ++ new_item sha256 encrypt row p payload ∷ new)
        ≡ true
  unfolding is_known
  is_known-new_item row p payload items new =
      let fp = payload_fingerprint sha256 payload in
      ground (
        arith,
        any-append (has_fingerprint p fp) items (new_item sha256 encrypt row p payload ∷ new),
        beq_refl p,
        beq_refl fp,
      )

  AreKnown-cons :
      (p : ℕ) (j : InventoryItem) (items new : List InventoryItem) (raws : List Text)
      → AreKnown p (items ++ new) raws
      → AreKnown p (items ++ j ∷ new) raws
  unfolding AreKnown
  AreKnown-cons p j items new [] h = tt
  AreKnown-cons p j items new (raw ∷ raws) h = (
    λ text. is_known-cons (payload_fingerprint sha256 (strip raw)) p j items new (h.0 text),
    AreKnown-cons p j items new raws h.1,
  )

  with_first :
      (p : ℕ) (items : List InventoryItem) (raw : Text) (raws : List Text)
      → (is_empty (strip raw) ≡ false
          → is_known p (payload_fingerprint sha256 (strip raw)) items ≡ true)
      → AreKnown p items raws
      → AreKnown p items (raw ∷ raws)
  unfolding AreKnown
  with_first p items raw raws h k = (h, k)

  none_known : (p : ℕ) (items : List InventoryItem) → AreKnown p items []
  unfolding AreKnown
  none_known p items = tt

  collect-AreKnown :
      (row p : ℕ) (items : List InventoryItem) (raws : List Text)
      → AreKnown p (items ++ (collect sha256 encrypt row p items raws).0) raws
  unfolding collect
  collect-AreKnown row p items [] = none_known p (items ++ [])
  collect-AreKnown row p items (raw ∷ raws) = elim (Bool-cases (is_empty (strip raw))) [
    | inl blank ↦ rw blank (
        with_first p _ raw raws (λ text. absurd (cc (text, blank)))
          (collect-AreKnown row p items raws))
    | inr text ↦
        let fp = payload_fingerprint sha256 (strip raw) in
        let old = (collect sha256 encrypt row p items raws).0 in
        let later = (collect sha256 encrypt (suc row) p items raws).0 in
        elim (Bool-cases (is_known p fp items)) [
          | inl known ↦
              rw (text, known)
                (with_first p (items ++ old) raw raws
                  (λ _. rw (known_or_new fp p items old, known) refl)
                  (collect-AreKnown row p items raws))
          | inr new ↦
              rw (text, new)
                (with_first p (items ++ new_item sha256 encrypt row p (strip raw) ∷ later) raw raws
                  (λ _. is_known-new_item row p (strip raw) items later)
                  (AreKnown-cons p (new_item sha256 encrypt row p (strip raw)) items later raws
                    (collect-AreKnown (suc row) p items raws)))
        ]
  ]

  -- Importing the same list again, after an import that returned, adds nothing, skips what was added
  -- or skipped before, and leaves the stock as it is.
  pub add_stock_again :
      (row row' product_id : ℕ) (raws : List Text) (s : Stock) (added skipped : ℕ) (t : Stock)
      → add_stock sha256 encrypt row product_id raws s ≡ ok (added, (skipped, t))
      → add_stock sha256 encrypt row' product_id raws t ≡ ok (0, (added + skipped, t))
  unfolding add_stock flush_items
  add_stock_again row row' p raws s n k t h =
      let found = collect sha256 encrypt row p s.items raws in
      let after : Stock = record s { items = s.items ++ found.0 } in
      elim (Bool-cases (has_unique_keys (s.items ++ found.0))) [
        | inr twice ↦ absurd (cc (rw twice at h))
        | inl unique ↦
            subst (λ x. add_stock sha256 encrypt row' p raws x.1.1 ≡ ok (0, (x.0 + x.1.0, x.1.1)))
              (ok-injective {x = (length found.0, (found.1, after))} (rw unique at h))
              (rw
                (
                  collect-known row' p after.items raws (collect-AreKnown row p s.items raws),
                  append_nil after.items,
                  unique,
                  collect-texts row p s.items raws,
                )
                refl)
      ]
    where
      append_nil : (xs : List InventoryItem) → xs ++ [] ≡ xs
      append_nil [] = refl
      append_nil (x ∷ xs) = ap (λ y. x ∷ y) (append_nil xs)

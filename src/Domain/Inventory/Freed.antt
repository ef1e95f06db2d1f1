-- ===== src/Domain/Inventory/Freed.antt =====
-- What ending holds makes of the rows and of the items under them, in app/db/repositories/catalog.py, position by position.
use professional_bot.Prelude.{
  ℕ, ◌≡◌, ◌≢◌, ◌⊎◌, refl, sym, ◌∙◌, ap, subst, ◌&&◌, ◌==◌, List, [], ◌∷◌, arith, In, nat_eq,
  nat_eqb_iff, none, some, Bool-cases, inl, inr,
}
use professional_bot.Domain.Inventory.{
  available, reserved, released, stock_item_status_eq, InventoryItem, InventoryReservation, set_row,
  free_item,
}

-- No item with this id is RESERVED.
abbrev pub IsFree : ℕ → List InventoryItem → Type 0
IsFree i items = (j : InventoryItem) → In j items → j.id ≡ i → j.status ≢ reserved

abbrev pub free_of : InventoryItem → InventoryItem
free_of i = record i { status = available; order_item_id = none }

abbrev pub ended_at : ℕ → InventoryReservation → InventoryReservation
ended_at now r = record r { status = released; released_at = some now }

-- Of the items whose id is in `H`: an item is as it was, or was RESERVED and is AVAILABLE, for no line of an order.
module _ (H : ℕ → Type 0) where
  abbrev pub FreedItem : InventoryItem → InventoryItem → Type 0
  FreedItem i j = (j ≡ i) ⊎ (H i.id × (i.status ≡ reserved) × (j ≡ free_of i))

  abbrev pub Freed : List InventoryItem → List InventoryItem → Type 0
  Freed [] [] = Unit {0}
  Freed (i ∷ is) (j ∷ js) = FreedItem i j × Freed is js
  Freed [] (j ∷ js) = ⊥
  Freed (i ∷ is) [] = ⊥

  pub Freed-refl : (items : List InventoryItem) → Freed items items
  Freed-refl [] = tt
  Freed-refl (i ∷ is) = (inl refl, Freed-refl is)

  FreedItem-trans : (i j k : InventoryItem) → FreedItem i j → FreedItem j k → FreedItem i k
  FreedItem-trans i j k (inl p) f = subst (λ x. FreedItem x k) p f
  FreedItem-trans i j k (inr (h, e, p)) (inl q) = inr (h, e, q ∙ p)
  FreedItem-trans i j k (inr (h, e, p)) (inr (g, f, q)) = absurd (cc (ap (λ x. x.status) p, f))

  pub Freed-trans : (is js ks : List InventoryItem) → Freed is js → Freed js ks → Freed is ks
  Freed-trans [] [] [] f g = tt
  Freed-trans [] [] (k ∷ ks) f g = elim g [ ]
  Freed-trans [] (j ∷ js) ks f g = elim f [ ]
  Freed-trans (i ∷ is) [] ks f g = elim f [ ]
  Freed-trans (i ∷ is) (j ∷ js) [] f g = elim g [ ]
  Freed-trans (i ∷ is) (j ∷ js) (k ∷ ks) (f, fs) (g, gs) =
      (FreedItem-trans i j k f g, Freed-trans is js ks fs gs)

  pub free_item-Freed :
      (k : ℕ) → H k → (items : List InventoryItem) → Freed items (free_item k items)
  unfolding free_item
  free_item-Freed k h [] = tt
  free_item-Freed k h (x ∷ xs) = elim (Bool-cases (x.id == k && x.status == reserved)) [
    | inl hit ↦ rw hit (
      inr (
        subst H (sym ((nat_eqb_iff x.id k).0 (ground arith))) h,
        (stock_item_status_eq.beq_iff x.status reserved).0 (ground arith),
        refl,
      ),
      free_item-Freed k h xs,
    )
    | inr miss ↦ rw miss (inl refl, free_item-Freed k h xs)
  ]

  -- An item that is free stays so.
  pub Freed-IsFree : (k : ℕ) (is js : List InventoryItem) → Freed is js → IsFree k is → IsFree k js
  Freed-IsFree k [] [] f free j m e h = absurd m.1
  Freed-IsFree k [] (y ∷ ys) f free j m e h = elim f [ ]
  Freed-IsFree k (x ∷ xs) [] f free j m e h = elim f [ ]
  Freed-IsFree k (x ∷ xs) (y ∷ ys) (f, fs) free j (inr m) e h =
      Freed-IsFree k xs ys fs (λ z n. free z (inr n)) j m e h
  Freed-IsFree k (x ∷ xs) (y ∷ ys) (inl p, fs) free j (inl q) e h =
      free x (inl refl) (sym (ap (λ z. z.id) (q ∙ p)) ∙ e) (sym (ap (λ z. z.status) (q ∙ p)) ∙ h)
  Freed-IsFree k (x ∷ xs) (y ∷ ys) (inr (own, r, p), fs) free j (inl q) e h =
      cc (ap (λ z. z.status) (q ∙ p), h)

pub free_item-IsFree : (i : ℕ) (items : List InventoryItem) → IsFree i (free_item i items)
unfolding free_item
free_item-IsFree i [] j m e h = absurd m.1
free_item-IsFree i (x ∷ xs) j (inr m) e h = free_item-IsFree i xs j m e h
free_item-IsFree i (x ∷ xs) j (inl p) e h = elim (Bool-cases (x.id == i && x.status == reserved)) [
  | inl hit ↦ let q = rw hit at p in cc (ap (λ y. y.status) q, h)
  | inr miss ↦
      let q = rw miss at p in
      let same = (nat_eqb_iff x.id i).1 (sym (ap (λ y. y.id) q) ∙ e) in
      let holds =
        (stock_item_status_eq.beq_iff x.status reserved).1 (sym (ap (λ y. y.status) q) ∙ h) in
      cc (rw (same, holds) at miss)
]

-- A row is as it was, or is the row of that id in `E`, RELEASED at `now`.
module _ (E : InventoryReservation → Type 0) (now : ℕ) where
  abbrev pub EndedRow : InventoryReservation → InventoryReservation → Type 0
  EndedRow e f = (f ≡ e) ⊎ ((r : InventoryReservation) × E r × (r.id ≡ e.id) × (f ≡ ended_at now r))

  abbrev pub Ended : List InventoryReservation → List InventoryReservation → Type 0
  Ended [] [] = Unit {0}
  Ended (e ∷ es) (f ∷ fs) = EndedRow e f × Ended es fs
  Ended [] (f ∷ fs) = ⊥
  Ended (e ∷ es) [] = ⊥

  pub Ended-refl : (rs : List InventoryReservation) → Ended rs rs
  Ended-refl [] = tt
  Ended-refl (r ∷ rs) = (inl refl, Ended-refl rs)

  EndedRow-trans : (a b c : InventoryReservation) → EndedRow a b → EndedRow b c → EndedRow a c
  EndedRow-trans a b c (inl p) f = subst (λ x. EndedRow x c) p f
  EndedRow-trans a b c (inr (r, h, e, p)) (inl q) = inr (r, h, e, q ∙ p)
  EndedRow-trans a b c (inr (r, h, e, p)) (inr (s, g, f, q)) =
      inr (s, g, f ∙ ap (λ x. x.id) p ∙ e, q)

  pub Ended-trans : (a b c : List InventoryReservation) → Ended a b → Ended b c → Ended a c
  Ended-trans [] [] [] f g = tt
  Ended-trans [] [] (k ∷ ks) f g = elim g [ ]
  Ended-trans [] (j ∷ js) ks f g = elim f [ ]
  Ended-trans (i ∷ is) [] ks f g = elim f [ ]
  Ended-trans (i ∷ is) (j ∷ js) [] f g = elim g [ ]
  Ended-trans (i ∷ is) (j ∷ js) (k ∷ ks) (f, fs) (g, gs) =
      (EndedRow-trans i j k f g, Ended-trans is js ks fs gs)

  pub set_row-Ended :
      (r : InventoryReservation)
      → E r
      → (rs : List InventoryReservation) → Ended rs (set_row (ended_at now r) rs)
  unfolding set_row
  set_row-Ended r h [] = tt
  set_row-Ended r h (x ∷ xs) = elim (Bool-cases (x.id == r.id)) [
    | inl hit ↦ rw hit (inr (r, h, sym ((nat_eqb_iff x.id r.id).0 hit), refl), set_row-Ended r h xs)
    | inr miss ↦ rw miss (inl refl, set_row-Ended r h xs)
  ]

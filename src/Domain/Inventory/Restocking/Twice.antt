-- ===== src/Domain/Inventory/Restocking/Twice.antt =====
-- A payload that stands twice in one import by `add_stock` of app/domain/inventory/service.py.
use professional_bot.Prelude.{
  ℕ, ◌≡◌, refl, true, false, List, [], ◌∷◌, ◌++◌, arith, nat_eq, err, beq_refl, integrity_error,
  suc,
}
use professional_bot.Prelude.Text.{Text, text_eq, is_empty, strip}
use professional_bot.Domain.Inventory.{InventoryItem, Stock}
use professional_bot.Domain.Inventory.Restocking.{
  same_key, has_unique_keys, flush_items, is_known, new_item, collect, add_stock,
}
use professional_bot.Domain.Payments.Fingerprint.{payload_fingerprint}

twins_clash :
    (a b : InventoryItem) (items : List InventoryItem)
    → same_key a b ≡ true
    → has_unique_keys (items ++ a ∷ b ∷ []) ≡ false
unfolding has_unique_keys
twins_clash a b [] h = ground arith
twins_clash a b (i ∷ items) h = ground (arith, twins_clash a b items h)

-- An import in which a payload with a text, new to the product, stands twice raises `IntegrityError`,
-- so that nothing of it is added.
pub add_stock_twice :
    (sha256 encrypt : Text → Text) (row product_id : ℕ) (raw : Text) (s : Stock)
    → is_empty (strip raw) ≡ false
    → is_known product_id (payload_fingerprint sha256 (strip raw)) s.items ≡ false
    → add_stock sha256 encrypt row product_id (raw ∷ raw ∷ []) s ≡ err integrity_error
unfolding add_stock collect flush_items
add_stock_twice sha256 encrypt row p raw s text new =
    let item = new_item sha256 encrypt row p (strip raw) in
    let again = new_item sha256 encrypt (suc row) p (strip raw) in
    rw
      (
        text,
        new,
        twins_clash item again s.items
            (rw (beq_refl p, beq_refl (payload_fingerprint sha256 (strip raw))) refl),
      )
      refl

-- ===== src/Cosmetics/Examples.antt =====
-- Tests of packages/cosmetics/src/store.ts, at a catalogue of one hat and one gift.

use vr_poker.Prelude.{ℕ, ◌≡◌, refl, none, some, [], ◌∷◌}
use vr_poker.Prelude.Int.{pos, ◌+ℤ◌, ◌-ℤ◌}
use vr_poker.Ledger.Entries.{not_a_non_zero_integer}
use vr_poker.Ledger.Chips.{append, balance}
use vr_poker.Ledger.Store.{empty_store, ensure_user, store_append}
use vr_poker.Ledger.Ownership.{grant}
use vr_poker.Cosmetics.Shop.{
  CosmeticStore, CosmeticSku, avatar_item, get_sku, buy, of_ledger, already_owned,
}
use vr_poker.Cosmetics.Purchase.{Sold, buy-Sold}

abbrev item : ℕ → ℕ → CosmeticSku
item id price = record {
  id = id;
  kind = avatar_item;
  name = "Item";
  description = "";
  price_chips = price;
  grants_chips = pos 0;
  tags = [];
}

abbrev shop : CosmeticStore
shop = record {
  skus = (1, item 1 1800) ∷ (2, item 2 0) ∷ [];
  ledger = empty_store;
  ownership = record { entries = []; next_id = 1 };
}

abbrev bought : CosmeticStore
bought = (buy "now" "later" (λ id. "ref") 7 1 shop).2

price_paid : balance 7 bought.ledger.chips ≡ pos 98_200
unfolding buy append ensure_user store_append grant ◌-ℤ◌ ◌+ℤ◌
price_paid = refl

bought_once : (buy "now" "later" (λ id. "ref") 7 1 bought).0 ≡ some already_owned
unfolding buy append ensure_user store_append grant ◌-ℤ◌ ◌+ℤ◌
bought_once = refl

-- a cosmetic without a price cannot be bought
gift_refused :
    (buy "now" "later" (λ id. "ref") 7 2 shop).0 ≡ some (of_ledger not_a_non_zero_integer)
unfolding buy append ensure_user store_append grant ◌-ℤ◌ ◌+ℤ◌
gift_refused = refl

buy-Sold_example :
    Sold 7 1 shop
      (ensure_user "now" 7 none shop.ledger).1.chips
      (item 1 1800)
      (buy "now" "later" (λ id. "ref") 7 1 shop)
unfolding get_sku
buy-Sold_example = buy-Sold "now" "later" (λ id. "ref") 7 1 shop (item 1 1800) refl

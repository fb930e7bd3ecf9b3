-- ===== src/Cosmetics/Purchase.antt =====
-- packages/cosmetics/src/store.ts: what a purchase costs and gives.
use Prim.Native.String.{String}
use vr_poker.Prelude.{ℕ, ◌≡◌, ◌⊎◌, inl, inr, refl, true, false, Option, none, some, Bool-cases}
use vr_poker.Prelude.Int.{pos, ◌+ℤ◌, ◌-ℤ◌}
use vr_poker.Ledger.Entries.{LedgerEntry, Fallible, done, failed, cosmetic_purchase}
use vr_poker.Ledger.Chips.{ChipLedger, balance}
use vr_poker.Ledger.Store.{UserAccount, Answer, ensure_user}
use vr_poker.Ledger.Welcome.{IsCreated, ensure_user-IsCreated}
use vr_poker.Ledger.Debits.{Debited, store_append-Debited}
use vr_poker.Ledger.Ownership.{OwnershipLedger, OwnershipEntry, owns, grant, purchase, last_owns}
use vr_poker.Cosmetics.Shop.{
  CosmeticStore, CosmeticSku, Sale, get_sku, after_grant, after_debit, after_user, buy,
}

-- A sale that is made has debited the price from the player's balance, which was at `opened` when the
-- account was open, and the player owns the cosmetic; a sale that is not made leaves all that is owned
-- as it was, and the chips as they were before or after the account was opened.
abbrev pub Sold : ℕ → ℕ → CosmeticStore → ChipLedger → CosmeticSku → Sale → Type 0
Sold user sku s opened c (none, r, u) =
    (balance user u.ledger.chips ≡ balance user opened +ℤ (pos 0 -ℤ pos c.price_chips))
    × (owns user sku u.ownership ≡ true)
Sold user sku s opened c (some e, r, u) =
    (u.ownership ≡ s.ownership) × ((u.ledger.chips ≡ s.ledger.chips) ⊎ (u.ledger.chips ≡ opened))

-- The grant is made, and with it the player owns the cosmetic.
abbrev Gained : ℕ → ℕ → Fallible (OwnershipEntry × OwnershipLedger) → Type 0
Gained user sku (done r) = owns user sku r.1 ≡ true
Gained user sku (failed e) = true ≡ false

granted :
    (later : String) (user sku : ℕ) (ref : Option String) (l : OwnershipLedger)
    → owns user sku l ≡ false
    → Gained user sku (grant later user sku purchase ref l)
unfolding grant owns
granted later user sku ref l n = rw n (last_owns _ l.entries)

module _ (now later : String) (ref_of : ℕ → String) (user sku : ℕ) (s : CosmeticStore)
    (c : CosmeticSku) (new : owns user sku s.ownership ≡ false) where
  debited :
      (l : ChipLedger) (r : Answer LedgerEntry)
      → Debited user (pos 0 -ℤ pos c.price_chips) l r
      → Sold user sku s l c (after_debit now later ref_of user sku c s r)
  debited l (failed e, m) h = (refl, inr h)
  debited l (done entry, m) h =
      go (grant later user sku purchase (some (ref_of entry.id)) s.ownership)
        (granted later user sku (some (ref_of entry.id)) s.ownership new)
    where
      go :
          (r : Fallible (OwnershipEntry × OwnershipLedger))
          → Gained user sku r
          → Sold user sku s l c (after_grant c user sku entry (record s { ledger = m }) r)
      go (done r) g = (h, g)
      go (failed e) g = absurd cc

  opened :
      (r : Answer UserAccount)
      → IsCreated user r.1
      → Sold user sku s r.1.chips c (after_user now later ref_of user sku c s r)
  opened (failed e, m) h = (refl, inr refl)
  opened (done u, m) h = debited m.chips _ (
      store_append-Debited now user (pos 0 -ℤ pos c.price_chips) cosmetic_purchase
        (some (ref_of sku)) m h)

-- A purchase of a cosmetic of the catalogue either debits its price once and makes the player own it,
-- or is refused, and then nobody owns anything new and no chips move but for the opening of the
-- player's account.
pub buy-Sold :
    (now later : String) (ref_of : ℕ → String) (user sku : ℕ) (s : CosmeticStore) (c : CosmeticSku)
    → get_sku sku s ≡ some c
    → Sold user sku s
        (ensure_user now user none s.ledger).1.chips
        c
        (buy now later ref_of user sku s)
unfolding buy
buy-Sold now later ref_of user sku s c e = elim (Bool-cases (owns user sku s.ownership)) [
  | inl y ↦ rw (buy, e, y) (refl, inl refl)
  | inr n ↦
      rw (buy, e, n)
        (opened now later ref_of user sku s c n (ensure_user now user none s.ledger)
          (ensure_user-IsCreated now user none s.ledger))
]

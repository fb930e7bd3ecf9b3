-- ===== src/Cosmetics/Shop.antt =====
-- packages/cosmetics/src: `CosmeticStore`, `catalogById`, and the types.
use Prim.Native.String.{String}
use vr_poker.Prelude.{ℕ, Bool, not, Option, none, some, List, [], ◌∷◌, if◌then◌else◌, some_of}
use vr_poker.Prelude.Int.{ℤ, pos}
use vr_poker.Prelude.Maps.{lookup_in, write_in}
use vr_poker.Ledger.Entries.{LedgerEntry, LedgerError, Fallible, done, failed, cosmetic_purchase}
use vr_poker.Ledger.Chips.{negated, is_zero}
use vr_poker.Ledger.Store.{MemoryLedgerStore, UserAccount, Answer, ensure_user, store_append}
use vr_poker.Ledger.Ownership.{
  OwnershipLedger, OwnershipEntry, owns, owned_skus, grant, purchase, grant_source,
}

pub data CosmeticKind : Type 0 where
  card_skin table_theme avatar_item : CosmeticKind

pub record CosmeticSku : Type 0 where
  pub id : ℕ
  pub kind : CosmeticKind
  pub name : String
  pub description : String
  pub price_chips : ℕ
  pub grants_chips : ℤ
  pub tags : List String

pub record PurchaseResult : Type 0 where
  pub sku_id : ℕ
  pub user_id : ℕ
  pub price_chips : ℕ
  pub ledger_entry_id : ℕ
  pub ownership_entry_id : ℕ
  pub purchased_at : String

-- `of_ledger` has the message of the ledger's error; `not_caught` is one that is thrown on.
pub data CosmeticsError : Type 0 where
  must_not_grant unknown_sku already_owned : CosmeticsError
  of_ledger not_caught : LedgerError → CosmeticsError

pub record CosmeticStore : Type 0 where
  pub skus : List (ℕ × CosmeticSku)
  pub ledger : MemoryLedgerStore
  pub ownership : OwnershipLedger

-- a `Map` of what the entries of a list hold, where a later entry replaces an earlier one
abbrev pub catalog_into : List (ℕ × CosmeticSku) → List CosmeticSku → List (ℕ × CosmeticSku)
catalog_into m [] = m
catalog_into m (s ∷ ss) = catalog_into (write_in s.id s m) ss

unfoldable pub catalog_by_id : List CosmeticSku → List (ℕ × CosmeticSku)
catalog_by_id catalog = catalog_into [] catalog

-- the constructor; `none` is the thrown error
unfoldable pub new_shop :
    List CosmeticSku → MemoryLedgerStore → OwnershipLedger → Option CosmeticStore
unfolding catalog_by_id
new_shop catalog ledger ownership =
    let skus = catalog_by_id catalog in
    if some_of (λ e. not (is_zero e.1.grants_chips)) skus
    then none
    else some record { skus = skus; ledger = ledger; ownership = ownership }

unfoldable pub get_sku : ℕ → CosmeticStore → Option CosmeticSku
get_sku sku s = lookup_in sku s.skus

-- `none` is the error of an unknown cosmetic
unfoldable pub entitled : ℕ → ℕ → CosmeticStore → Option Bool
unfolding get_sku owns
entitled user sku s = elim (get_sku sku s) [
  | none ↦ none
  | some c ↦ some (owns user sku s.ownership)
]

abbrev pub known : List (ℕ × CosmeticSku) → List ℕ → List CosmeticSku
known skus [] = []
known skus (i ∷ is) =
    let rest = known skus is in elim (lookup_in i skus) [ none ↦ rest | some c ↦ c ∷ rest ]

unfoldable pub owned : ℕ → CosmeticStore → List CosmeticSku
unfolding owned_skus
owned user s = known s.skus (owned_skus user s.ownership)

abbrev pub Sale : Type 0
Sale = Option CosmeticsError × Option PurchaseResult × CosmeticStore

abbrev pub refuse : CosmeticsError → CosmeticStore → Sale
refuse e s = (some e, none, s)

abbrev pub after_grant :
    CosmeticSku
    → ℕ
    → ℕ
    → LedgerEntry
    → CosmeticStore
    → Fallible (OwnershipEntry × OwnershipLedger)
    → Sale
after_grant c user sku entry s (failed e) = refuse (not_caught e) s
after_grant c user sku entry s (done (own, l)) = (
  none,
  some record {
    sku_id = sku;
    user_id = user;
    price_chips = c.price_chips;
    ledger_entry_id = entry.id;
    ownership_entry_id = own.id;
    purchased_at = own.at;
  },
  record s { ownership = l },
)

-- The two clocks are those of the ledger's entry and of the ownership's.
module _ (now later : String) (ref_of : ℕ → String) (user sku : ℕ) where
  abbrev pub after_debit : CosmeticSku → CosmeticStore → Answer LedgerEntry → Sale
  after_debit c s (failed e, m) = refuse (of_ledger e) (record s { ledger = m })
  after_debit c s (done entry, m) =
      after_grant c user sku entry (record s { ledger = m })
        (grant later user sku purchase (some (ref_of entry.id)) s.ownership)

  abbrev pub after_user : CosmeticSku → CosmeticStore → Answer UserAccount → Sale
  after_user c s (failed e, m) = refuse (of_ledger e) (record s { ledger = m })
  after_user c s (done u, m) = after_debit c s (
      store_append now user (negated (some (pos c.price_chips))) cosmetic_purchase
        (some (ref_of sku)) m)

  -- `purchase`
  unfoldable pub buy : CosmeticStore → Sale
  unfolding get_sku owns ensure_user store_append grant
  buy s = elim (get_sku sku s) [
    | none ↦ refuse unknown_sku s
    | some c ↦
        if owns user sku s.ownership
        then refuse already_owned s
        else after_user c s (ensure_user now user none s.ledger)
  ]

abbrev pub after_gift :
    CosmeticStore
    → Fallible (OwnershipEntry × OwnershipLedger)
    → Option CosmeticsError × CosmeticStore
after_gift s (failed e) = (some (not_caught e), s)
after_gift s (done r) = (none, record s { ownership = r.1 })

-- `grant`
unfoldable pub give :
    String → ℕ → ℕ → Option String → CosmeticStore → Option CosmeticsError × CosmeticStore
unfolding get_sku owns grant
give now user sku ref s = elim (get_sku sku s) [
  | none ↦ (some unknown_sku, s)
  | some c ↦
      if owns user sku s.ownership
      then (none, s)
      else after_gift s (grant now user sku grant_source ref s.ownership)
]

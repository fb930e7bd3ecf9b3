-- ===== src/Ledger/Ownership.antt =====
-- packages/ledger/src/ownership-ledger.ts: the append-only log of the cosmetics that are owned.
use Prim.Native.String.{String}
use vr_poker.Prelude.{
  ℕ, suc, ◌≡◌, refl, Bool, true, false, Option, List, [], ◌∷◌, ◌++◌, arith, map, if◌then◌else◌,
  ◌==◌, keep, ◌&&◌, ◌||◌, some_of, dedupe_into, Bool-cases, inl, inr,
}
use vr_poker.Ledger.Entries.{Fallible, done, failed, After, already_owns_cosmetic}

pub data OwnershipSource : Type 0 where
  purchase grant_source tournament_reward : OwnershipSource

pub record OwnershipEntry : Type 0 where
  pub id : ℕ
  pub at : String
  pub user_id : ℕ
  pub sku_id : ℕ
  pub source : OwnershipSource
  pub ref : Option String

pub record OwnershipLedger : Type 0 where
  pub entries : List OwnershipEntry
  pub next_id : ℕ

abbrev pub is_owned : ℕ → ℕ → OwnershipEntry → Bool
is_owned user sku e = e.user_id == user && e.sku_id == sku

unfoldable pub owns : ℕ → ℕ → OwnershipLedger → Bool
owns user sku l = some_of (is_owned user sku) l.entries

unfoldable pub grant :
    String
    → ℕ
    → ℕ
    → OwnershipSource
    → Option String
    → OwnershipLedger
    → Fallible (OwnershipEntry × OwnershipLedger)
unfolding owns
grant now user sku source ref l =
    if owns user sku l
    then failed already_owns_cosmetic
    else let entry : OwnershipEntry = record {
      id = l.next_id;
      at = now;
      user_id = user;
      sku_id = sku;
      source = source;
      ref = ref;
    } in
      done (entry, record { entries = l.entries ++ (entry ∷ []); next_id = suc l.next_id })

unfoldable pub owned_history : ℕ → OwnershipLedger → List OwnershipEntry
owned_history user l = keep (λ e. e.user_id == user) l.entries

unfoldable pub owned_skus : ℕ → OwnershipLedger → List ℕ
owned_skus user l = dedupe_into [] (map (λ e. e.sku_id) (keep (λ e. e.user_id == user) l.entries))

-- No cosmetic is owned twice by one player: each entry is the first for its player and sku.
abbrev pub Once : List OwnershipEntry → Type 0
Once [] = Unit
Once (e ∷ es) = (some_of (is_owned e.user_id e.sku_id) es ≡ false) × Once es

some_of-append :
    (p : OwnershipEntry → Bool) (xs ys : List OwnershipEntry)
    → some_of p (xs ++ ys) ≡ (some_of p xs || some_of p ys)
some_of-append p [] ys = refl
some_of-append p (x ∷ xs) ys = ground (arith, some_of-append p xs ys)

same_owner :
    (x e : OwnershipEntry)
    → is_owned e.user_id e.sku_id x ≡ false
    → is_owned x.user_id x.sku_id e ≡ false
same_owner x e n = ground arith

owned_last : (e : OwnershipEntry) → some_of (is_owned e.user_id e.sku_id) (e ∷ []) ≡ true
owned_last e = ground arith

head_of_or : (a b : Bool) → (a || b) ≡ false → a ≡ false
head_of_or a b h = ground arith

tail_of_or : (a b : Bool) → (a || b) ≡ false → b ≡ false
tail_of_or a b h = ground arith

last_differs :
    (x e : OwnershipEntry) (es : List OwnershipEntry)
    → some_of (is_owned x.user_id x.sku_id) es ≡ false
    → is_owned e.user_id e.sku_id x ≡ false
    → some_of (is_owned x.user_id x.sku_id) (es ++ (e ∷ [])) ≡ false
last_differs x e es h n =
    rw (some_of-append (is_owned x.user_id x.sku_id) es (e ∷ []), h, same_owner x e n) refl

pub last_owns :
    (e : OwnershipEntry) (es : List OwnershipEntry)
    → some_of (is_owned e.user_id e.sku_id) (es ++ (e ∷ [])) ≡ true
last_owns e [] = owned_last e
last_owns e (x ∷ es) = ground (arith, last_owns e es)

Once-snoc :
    (es : List OwnershipEntry) (e : OwnershipEntry)
    → Once es
    → some_of (is_owned e.user_id e.sku_id) es ≡ false
    → Once (es ++ (e ∷ []))
Once-snoc [] e o n = (refl, tt)
Once-snoc (x ∷ es) e o n =
    (last_differs x e es o.0 (head_of_or _ _ n), Once-snoc es e o.1 (tail_of_or _ _ n))

-- A grant that returns keeps every entry that was there, adds one that makes the player own the
-- cosmetic, and nobody owns a cosmetic twice after it, where nobody did before.
pub grant-Once :
    (now : String) (user sku : ℕ) (source : OwnershipSource) (ref : Option String)
    (l : OwnershipLedger)
    → Once l.entries
    → After
        (λ r.
          (r.1.entries ≡ l.entries ++ (r.0 ∷ [])) × (owns user sku r.1 ≡ true) × Once r.1.entries)
        (grant now user sku source ref l)
unfolding grant owns
grant-Once now user sku source ref l o = elim (Bool-cases (some_of (is_owned user sku) l.entries)) [
  | inl y ↦ rw y tt
  | inr n ↦ rw n (refl, last_owns _ l.entries, Once-snoc l.entries _ o n)
]

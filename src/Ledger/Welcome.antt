-- ===== src/Ledger/Welcome.antt =====
-- packages/ledger/src/memory-store.ts: `ensureUser` gives its welcome chips once.
use Prim.Native.String.{String}
use vr_poker.Prelude.{ℕ, ◌≡◌, refl, Option, none, some, Bool-cases, Option-cases, inl, inr}
use vr_poker.Prelude.Maps.{lookup_in, lookup_in-write_in}
use vr_poker.Ledger.Chips.{history}
use vr_poker.Ledger.Store.{MemoryLedgerStore, ensure_user, named, is_empty_list}

-- The user has been created.
abbrev pub IsCreated : ℕ → MemoryLedgerStore → Type 0
IsCreated subject s = (at : String) × (lookup_in subject s.created ≡ some at)

named-created :
    (subject : ℕ) (name : Option String) (s : MemoryLedgerStore)
    → ((named subject name s).created ≡ s.created) × ((named subject name s).chips ≡ s.chips)
named-created subject none s = (refl, refl)
named-created subject (some n) s = (refl, refl)

pub ensure_user-IsCreated :
    (now : String) (subject : ℕ) (name : Option String) (s : MemoryLedgerStore)
    → IsCreated subject (ensure_user now subject name s).1
unfolding ensure_user
ensure_user-IsCreated now subject name s =
    elim (Option-cases (lookup_in subject (named subject name s).created)) [
      | inl e ↦
          let s1 = named subject name s in
          elim (Bool-cases (is_empty_list (history subject s1.chips))) [
            | inl y ↦ rw (e, y, ensure_user) (now, lookup_in-write_in subject now s1.created)
            | inr n ↦ rw (e, n, ensure_user) (now, lookup_in-write_in subject now s1.created)
          ]
      | inr (at, e) ↦ rw (e, ensure_user) (at, e)
    ]

pub ensured_keeps_chips :
    (now : String) (subject : ℕ) (name : Option String) (s : MemoryLedgerStore)
    → IsCreated subject s
    → (ensure_user now subject name s).1.chips ≡ s.chips
unfolding ensure_user
ensured_keeps_chips now subject name s (at, e) =
    let (c, k) = named-created subject name s in rw (c, e, ensure_user) k

-- A second `ensureUser` of the same user, under any name and at any time, posts no entry.
pub welcome_once :
    (now later : String) (subject : ℕ) (name rename : Option String) (s : MemoryLedgerStore)
    → (ensure_user later subject rename (ensure_user now subject name s).1).1.chips
      ≡ (ensure_user now subject name s).1.chips
welcome_once now later subject name rename s =
    ensured_keeps_chips later subject rename (ensure_user now subject name s).1
      (ensure_user-IsCreated now subject name s)

-- ===== src/Ledger/Store.antt =====
-- packages/ledger/src/memory-store.ts: the store that keeps the ledger and the clubs in memory.
-- A method returns what it gives or throws, beside the store it leaves; its promise is its result.
use Prim.Native.String.{String}
use vr_poker.Prelude.{ℕ, Bool, true, false, Option, none, some, List, [], ◌∷◌, if◌then◌else◌}
use vr_poker.Prelude.Int.{ℤ, pos}
use vr_poker.Prelude.Maps.{lookup_in, write_in}
use vr_poker.Ledger.Entries.{
  LedgerEntry, LedgerReason, Fallible, done, failed, seed, ledger_error_not_bound,
}
use vr_poker.Ledger.Chips.{
  ChipLedger, Amount, empty_ledger, history, balance, append, post_buy_in, post_cash_out,
}
use vr_poker.Ledger.Clubs.{
  Club, ClubMember, ClubRole, ClubPatch, ClubRegistry, ClubTableConfig, Percent, create_club,
  get_club, list_clubs_for_user, update_club, delete_club, add_member, remove_member, list_members,
  table_config_for_club,
}

-- `none` as a name stands for the auth subject itself.
pub record UserAccount : Type 0 where
  pub auth_subject : ℕ
  pub display_name : Option String
  pub balance : ℤ
  pub created_at : String

pub record MemoryLedgerStore : Type 0 where
  pub chips : ChipLedger
  pub clubs : ClubRegistry
  pub names : List (ℕ × String)
  pub created : List (ℕ × String)

abbrev pub empty_store : MemoryLedgerStore
empty_store = record {
  chips = empty_ledger;
  clubs = record { clubs = []; members = [] };
  names = [];
  created = [];
}

abbrev pub Answer : Type 0 → Type 0
Answer A = Fallible A × MemoryLedgerStore

unfoldable pub get_user : ℕ → MemoryLedgerStore → Fallible UserAccount
unfolding balance
get_user subject s = elim (lookup_in subject s.created) [
  | none ↦ failed ledger_error_not_bound
  | some at ↦ done record {
    auth_subject = subject;
    display_name = lookup_in subject s.names;
    balance = balance subject s.chips;
    created_at = at;
  }
]

abbrev pub is_empty_list : List LedgerEntry → Bool
is_empty_list [] = true
is_empty_list (e ∷ es) = false

abbrev pub named : ℕ → Option String → MemoryLedgerStore → MemoryLedgerStore
named subject none s = s
named subject (some n) s = record s { names = write_in subject n s.names }

abbrev pub welcome_seed : ℤ
welcome_seed = pos 100_000

-- the entry of a new user, in a ledger that has none of them
abbrev pub seeded : String → ℕ → ChipLedger → Fallible (LedgerEntry × ChipLedger)
seeded now subject l = append now subject (some welcome_seed) seed (some "welcome") l

-- `displayName` is `none` also where it is the empty text, which the code takes for absent.
unfoldable pub ensure_user : String → ℕ → Option String → MemoryLedgerStore → Answer UserAccount
unfolding get_user append history
ensure_user now subject display_name s =
    let s1 = named subject display_name s in
    elim (lookup_in subject s1.created) [
      | some at ↦ (get_user subject s1, s1)
      | none ↦
          let s2 : MemoryLedgerStore = record s1 { created = write_in subject now s1.created } in
          if is_empty_list (history subject s2.chips)
          then elim (seeded now subject s2.chips) [
            | failed e ↦ (failed e, s2)
            | done r ↦ let s3 = record s2 { chips = r.1 } in (get_user subject s3, s3)
          ]
          else (get_user subject s2, s2)
    ]

unfoldable pub store_balance : ℕ → MemoryLedgerStore → ℤ
store_balance subject s = balance subject s.chips

unfoldable pub store_history : ℕ → MemoryLedgerStore → List LedgerEntry
store_history subject s = history subject s.chips

-- an entry that is recorded, or the error with the store as it was
abbrev pub with_chips : MemoryLedgerStore → Fallible (LedgerEntry × ChipLedger) → Answer LedgerEntry
with_chips s (failed e) = (failed e, s)
with_chips s (done r) = (done r.0, record s { chips = r.1 })

-- `await this.ensureUser(subject)`, and then the rest
abbrev pub after_ensure :
    {A : Type 0} → (MemoryLedgerStore → Answer A) → Answer UserAccount → Answer A
after_ensure k (failed e, s) = (failed e, s)
after_ensure k (done u, s) = k s

module _ (now : String) (subject : ℕ) where
  unfoldable pub store_append :
      Amount → LedgerReason → Option String → MemoryLedgerStore → Answer LedgerEntry
  unfolding ensure_user
  store_append amount reason ref s =
      after_ensure (λ u. with_chips u (append now subject amount reason ref u.chips))
        (ensure_user now subject none s)

  unfoldable pub store_buy_in : Amount → String → MemoryLedgerStore → Answer LedgerEntry
  unfolding ensure_user post_buy_in
  store_buy_in amount ref s =
      after_ensure (λ u. with_chips u (post_buy_in now subject amount ref u.chips))
        (ensure_user now subject none s)

  unfoldable pub store_cash_out : Amount → String → MemoryLedgerStore → Answer LedgerEntry
  unfolding post_cash_out
  store_cash_out amount ref s = with_chips s (post_cash_out now subject amount ref s.chips)

  unfoldable pub store_create_club :
      ℕ → Percent → String → ClubPatch → MemoryLedgerStore → Answer Club
  unfolding ensure_user create_club
  store_create_club uuid default_rake name settings s =
      after_ensure
        (λ u.
          let (c, r) = create_club uuid now default_rake subject name settings u.clubs in
          (done c, record u { clubs = r }))
        (ensure_user now subject none s)

  unfoldable pub store_list_clubs : MemoryLedgerStore → Answer (List Club)
  unfolding ensure_user list_clubs_for_user
  store_list_clubs s =
      after_ensure (λ u. (list_clubs_for_user subject u.clubs, u)) (ensure_user now subject none s)

  unfoldable pub store_add_member : ℕ → ℕ → Option ClubRole → MemoryLedgerStore → Answer ClubMember
  unfolding ensure_user add_member
  store_add_member club_id actor role s =
      after_ensure
        (λ u.
          let (m, r) = add_member now club_id actor subject role u.clubs in
          (m, record u { clubs = r }))
        (ensure_user now subject none s)

unfoldable pub store_get_club : ℕ → MemoryLedgerStore → Fallible Club
unfolding get_club
store_get_club club_id s = get_club club_id s.clubs

unfoldable pub store_update_club : ℕ → ℕ → ClubPatch → MemoryLedgerStore → Answer Club
unfolding update_club
store_update_club club_id actor patch s =
    let (c, r) = update_club club_id actor patch s.clubs in (c, record s { clubs = r })

unfoldable pub store_delete_club : ℕ → ℕ → MemoryLedgerStore → Answer (Unit {0})
unfolding delete_club
store_delete_club club_id actor s =
    let (c, r) = delete_club club_id actor s.clubs in (c, record s { clubs = r })

unfoldable pub store_remove_member : ℕ → ℕ → ℕ → MemoryLedgerStore → Answer (Unit {0})
unfolding remove_member
store_remove_member club_id actor subject s =
    let (c, r) = remove_member club_id actor subject s.clubs in (c, record s { clubs = r })

unfoldable pub store_list_members : ℕ → MemoryLedgerStore → List ClubMember × MemoryLedgerStore
unfolding list_members
store_list_members club_id s =
    let (ms, r) = list_members club_id s.clubs in (ms, record s { clubs = r })

unfoldable pub store_table_config : ℕ → MemoryLedgerStore → Fallible ClubTableConfig
unfolding table_config_for_club
store_table_config club_id s = table_config_for_club club_id s.clubs

-- ===== src/LedgerService/Handle.antt =====
-- services/ledger/src/index.ts: the handler of a request. jose, the environment, the clock, the random
-- id of a club, its default rake and the texts of ids are arguments.
use Prim.Native.String.{String}
use vr_poker.Prelude.{ℕ, Bool, true, false, Option, none, some, List}
use vr_poker.Ledger.Entries.{LedgerEntry, Fallible, done, failed}
use vr_poker.Ledger.Clubs.{Percent}
use vr_poker.Ledger.Store.{
  MemoryLedgerStore, UserAccount, get_user, ensure_user, store_balance, store_history, store_buy_in,
  store_cash_out, store_create_club, store_list_clubs, store_add_member, store_get_club,
  store_update_club, store_delete_club, store_remove_member, store_list_members, store_table_config,
}
use vr_poker.Auth.Subject.{
  AuthUser, AuthVerifyOptions, Key, Payload, granted, denied, require_auth_header,
}
use vr_poker.LedgerService.{
  Route, options, health, post_account, get_account, post_buy_in, post_cash_out, post_club,
  get_club, patch_club, delete_club, get_members, post_member, delete_member, get_table_config,
  get_user_clubs, no_route, Response, Body, no_content, is_well, done_well, account, posted, club,
  members, member, table_config, clubs, auth_subject_required, not_found, internal, error_for,
  error_of, failure,
}

-- `auth?.subject ?? ...`
abbrev pub subject_of : Option AuthUser → Option ℕ → Option ℕ
subject_of none claimed = claimed
subject_of (some user) claimed = some user.subject

abbrev pub id_or : ℕ → Option ℕ → ℕ
id_or empty none = empty
id_or empty (some id) = id

abbrev pub text_or : String → Option String → String
text_or fallback none = fallback
text_or fallback (some t) = t

-- what a call of the store gives or throws
abbrev pub reply : {A : Type 0} → ℕ → (A → Body) → Fallible A → Response
reply status f (done a) = (status, f a)
reply status f (failed e) = failure (error_for e)

abbrev pub replied :
    {A : Type 0} → ℕ → (A → Body) → Fallible A × MemoryLedgerStore → Response × MemoryLedgerStore
replied status f (r, s) = (reply status f r, s)

-- the entry, with the balance after it
abbrev pub with_balance :
    ℕ → Fallible LedgerEntry × MemoryLedgerStore → Response × MemoryLedgerStore
with_balance subject (r, s) = (reply 200 (λ entry. posted entry (store_balance subject s)) r, s)

abbrev pub with_history : Bool → ℕ → MemoryLedgerStore → UserAccount → Body
with_history false subject s user = account user none
with_history true subject s user = account user (some (store_history subject s))

module _ (now : String) (text_of : ℕ → String) where
  -- `POST /v1/accounts`
  abbrev pub account_for :
      Option String → MemoryLedgerStore → Option ℕ → Response × MemoryLedgerStore
  account_for name s none = (failure auth_subject_required, s)
  account_for name s (some id) =
      replied 200 (λ user. account user none)
        (ensure_user now id (some (text_or (text_of id) name)) s)

module _ (jwt_verify : List ℕ → Key → Option String → Option String → Option Payload)
    (disabled : Bool) (config : AuthVerifyOptions) where
  -- `resolveSubject`, and what is done for the subject; `none` is the empty text
  abbrev pub with_subject :
      Option (List ℕ)
      → Option ℕ
      → MemoryLedgerStore
      → (Option ℕ → Response × MemoryLedgerStore)
      → Response × MemoryLedgerStore
  with_subject header claimed s k = elim (require_auth_header jwt_verify disabled config header) [
    | denied e ↦ (failure (error_of e), s)
    | granted user ↦ k (subject_of user claimed)
  ]

  module _ (now : String) (uuid : ℕ) (default_rake : Percent) (text_of : ℕ → String)
      (empty : ℕ) where
    -- `empty` is the id of the empty text
    unfoldable pub handle :
        Option (List ℕ) → Route → MemoryLedgerStore → Response × MemoryLedgerStore
    unfolding require_auth_header get_user ensure_user store_balance store_history store_buy_in
        store_cash_out store_create_club store_list_clubs store_add_member store_get_club
        store_update_club store_delete_club store_remove_member store_list_members
        store_table_config
    handle header options s = ((204, no_content), s)
    handle header health s = ((200, is_well), s)
    handle header (post_account (some b)) s =
        with_subject header b.claimed s (account_for now text_of b.display_name s)
    handle header (get_account id history) s =
        (reply 200 (with_history history id s) (get_user id s), s)
    handle header (post_buy_in (some b)) s = with_subject header b.claimed s (λ who.
        let id = id_or empty who in
        with_balance id (store_buy_in now id b.amount (text_or "table" b.ref) s))
    handle header (post_cash_out (some b)) s = with_subject header b.claimed s (λ who.
        let id = id_or empty who in
        with_balance id (store_cash_out now id b.amount (text_or "table" b.ref) s))
    handle header (post_club (some b)) s = with_subject header b.claimed s (λ who.
        let name = text_or "Club" b.settings.name in
        replied 201 club
          (store_create_club now (id_or empty who) uuid default_rake name b.settings s))
    handle header (get_club id) s = (reply 200 club (store_get_club id s), s)
    handle header (patch_club id (some b)) s =
        with_subject header b.claimed s
          (λ who. replied 200 club (store_update_club id (id_or empty who) b.settings s))
    handle header (delete_club id (some b)) s =
        with_subject header b.claimed s
          (λ who. replied 200 (λ u. done_well) (store_delete_club id (id_or empty who) s))
    handle header (get_members id) s =
        let (ms, s') = store_list_members id s in ((200, members ms), s')
    handle header (post_member id (some b)) s = with_subject header b.claimed s (λ who.
        replied 200 member
          (store_add_member now (id_or empty b.member) id (id_or empty who) b.role s))
    handle header (delete_member id subject (some b)) s =
        with_subject header b.claimed s
          (λ who. replied 200 (λ u. done_well) (store_remove_member id (id_or empty who) subject s))
    handle header (get_table_config id) s = (reply 200 table_config (store_table_config id s), s)
    handle header (get_user_clubs id) s = replied 200 clubs (store_list_clubs now id s)
    handle header no_route s = (failure not_found, s)
    handle header route s = (failure internal, s)

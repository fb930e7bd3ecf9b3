-- ===== src/LedgerService/Tokens.antt =====
-- services/ledger/src/index.ts: what requests append to the ledger, and for whom.
use Prim.Native.String.{String}
use vr_poker.Prelude.{
  ℕ, ◌≡◌, ◌⊎◌, inl, inr, refl, Bool, true, false, Option, none, some, List, [], ◌∷◌,
}
use vr_poker.Ledger.Entries.{LedgerEntry, Fallible}
use vr_poker.Ledger.Clubs.{Percent, ClubPatch}
use vr_poker.Ledger.Store.{
  MemoryLedgerStore, ensure_user, store_buy_in, store_cash_out, store_create_club, store_list_clubs,
  store_add_member, store_update_club, store_delete_club, store_remove_member, store_list_members,
}
use vr_poker.Auth.Bearer.{bearer_from_header}
use vr_poker.Auth.Subject.{
  AuthUser, AuthVerifyOptions, Key, Payload, Verdict, granted, denied, require_auth_header,
  resolve_subject, SpeaksFor, header_speaks, user_for, verify_access_token,
}
use vr_poker.LedgerService.{
  Route, options, health, post_account, get_account, post_buy_in, post_cash_out, post_club,
  get_club, patch_club, delete_club, get_members, post_member, delete_member, get_table_config,
  get_user_clubs, no_route, Response, Body, account, club, clubs, member, members, done_well,
  error_of, failure,
}
use vr_poker.LedgerService.Handle.{
  subject_of, id_or, text_or, replied, with_balance, with_subject, account_for, handle,
}
use vr_poker.LedgerService.Grown.{
  Grown, IsWelcome, IsFor, Grown-same, Grown-weaken, ensure_user-Grown, store_buy_in-Grown,
  store_cash_out-Grown, store_create_club-Grown, store_list_clubs-Grown, store_add_member-Grown,
}

abbrev is_user : Verdict (Option AuthUser) → Bool
is_user (granted none) = false
is_user v = true

module _ (jwt_verify : List ℕ → Key → Option String → Option String → Option Payload)
    (config : AuthVerifyOptions) (header : Option (List ℕ)) where
  -- The entry is a welcome, or for the player of the token in the header.
  abbrev pub IsAllowed : MemoryLedgerStore → LedgerEntry → Type 0
  IsAllowed s e =
      IsWelcome s e ⊎ SpeaksFor jwt_verify config (bearer_from_header header) none e.user_id

  own_entry :
      (s : MemoryLedgerStore) (u : AuthUser) (e : LedgerEntry)
      → require_auth_header jwt_verify false config header ≡ granted (some u)
      → IsFor s u.subject e
      → IsAllowed s e
  unfolding resolve_subject
  own_entry s u e h (inl w) = inl w
  own_entry s u e h (inr same) =
      inr (rw same (header_speaks jwt_verify config header none u.subject (rw h refl)))

  -- Where auth is on, a header that is let in names a user.
  verified_user : (token : Option (List ℕ)) → is_user (user_for jwt_verify token config) ≡ true
  verified_user none = refl
  verified_user (some []) = refl
  verified_user (some (c ∷ cs)) = go (verify_access_token jwt_verify (c ∷ cs) config)
    where
      go :
          (v : Verdict AuthUser)
          → is_user (elim v [ granted user ↦ granted (some user) | denied e ↦ denied e ]) ≡ true
      go (granted u) = refl
      go (denied e) = refl

  let_in : is_user (require_auth_header jwt_verify false config header) ≡ true
  unfolding require_auth_header
  let_in = verified_user (bearer_from_header header)

  module _ (s : MemoryLedgerStore) where
    -- the response is left aside
    unfoldable Allowed : Response × MemoryLedgerStore → Type 0
    Allowed r = Grown (IsAllowed s) s r.1

    replied-Allowed :
        {A : Type 0} (status : ℕ) (f : A → Body) (r : Fallible A × MemoryLedgerStore)
        → Grown (IsWelcome s) s r.1
        → Allowed (replied status f r)
    unfolding Allowed
    replied-Allowed status f (r, t) g = Grown-weaken s t (λ e w. inl w) g

    kept_chips : (r : Response × MemoryLedgerStore) → r.1.chips ≡ s.chips → Allowed r
    unfolding Allowed
    kept_chips r e = Grown-same (IsAllowed s) s r.1 e

    kept : (r : Response) → Allowed (r, s)
    kept r = kept_chips (r, s) refl

    with_subject-Allowed :
        (claimed : Option ℕ) (k : Option ℕ → Response × MemoryLedgerStore)
        → ((u : AuthUser)
            → require_auth_header jwt_verify false config header ≡ granted (some u)
            → Allowed (k (some u.subject)))
        → Allowed (with_subject jwt_verify false config header claimed s k)
    unfolding Allowed
    with_subject-Allowed claimed k h =
        go (require_auth_header jwt_verify false config header) refl let_in
      where
        go :
            (v : Verdict (Option AuthUser))
            → require_auth_header jwt_verify false config header ≡ v
            → is_user v ≡ true
            → Allowed (elim v [
              | denied e ↦ (failure (error_of e), s)
              | granted user ↦ k (subject_of user claimed)
            ])
        go (denied e) u y = Grown-same (IsAllowed s) s s refl
        go (granted none) u y = absurd cc
        go (granted (some user)) u y = h user u

    -- a call that appends for the subject
    entry-Allowed :
        (claimed : Option ℕ) (empty : ℕ) (call : ℕ → Fallible LedgerEntry × MemoryLedgerStore)
        → ((id : ℕ) → Grown (IsFor s id) s (call id).1)
        → Allowed (
            with_subject jwt_verify false config header claimed s
              (λ who. with_balance (id_or empty who) (call (id_or empty who))))
    unfolding Allowed
    entry-Allowed claimed empty call h =
        with_subject-Allowed claimed
          (λ who. with_balance (id_or empty who) (call (id_or empty who)))
          (λ u e. Grown-weaken s (call u.subject).1 (λ x own. own_entry s u x e own) (h u.subject))

    updated :
        (id actor : ℕ) (patch : ClubPatch)
        → Grown (IsWelcome s) s (store_update_club id actor patch s).1
    unfolding store_update_club
    updated id actor patch = Grown-same (IsWelcome s) s (store_update_club id actor patch s).1 refl

    deleted : (id actor : ℕ) → Grown (IsWelcome s) s (store_delete_club id actor s).1
    unfolding store_delete_club
    deleted id actor = Grown-same (IsWelcome s) s (store_delete_club id actor s).1 refl

    removed :
        (id actor subject : ℕ) → Grown (IsWelcome s) s (store_remove_member id actor subject s).1
    unfolding store_remove_member
    removed id actor subject =
        Grown-same (IsWelcome s) s (store_remove_member id actor subject s).1 refl

    listed : (id : ℕ) → Allowed (let (ms, s') = store_list_members id s in ((200, members ms), s'))
    unfolding store_list_members
    listed id = kept_chips (_, (store_list_members id s).1) refl

    -- a call that appends at most a welcome
    call-Allowed :
        {A : Type 0} (claimed : Option ℕ) (status : ℕ) (f : A → Body)
        (call : Option ℕ → Fallible A × MemoryLedgerStore)
        → ((u : AuthUser) → Grown (IsWelcome s) s (call (some u.subject)).1)
        → Allowed (
            with_subject jwt_verify false config header claimed s
              (λ who. replied status f (call who)))
    call-Allowed claimed status f call h =
        with_subject-Allowed claimed (λ who. replied status f (call who))
          (λ u e. replied-Allowed status f (call (some u.subject)) (h u))

    module _ (now : String) (uuid : ℕ) (default_rake : Percent) (text_of : ℕ → String)
        (empty : ℕ) where
      handle-Allowed :
          (route : Route)
          → Allowed
              (handle jwt_verify false config now uuid default_rake text_of empty header route s)
      unfolding handle
      handle-Allowed options = kept _
      handle-Allowed health = kept _
      handle-Allowed (post_account none) = kept _
      handle-Allowed (post_account (some b)) =
          with_subject-Allowed b.claimed (account_for now text_of b.display_name s) (λ u e.
            replied-Allowed 200 (λ user. account user none)
              (ensure_user now u.subject (some (text_or (text_of u.subject) b.display_name)) s)
              (ensure_user-Grown now u.subject (some (text_or (text_of u.subject) b.display_name))
                s))
      handle-Allowed (get_account id history) = kept _
      handle-Allowed (post_buy_in none) = kept _
      handle-Allowed (post_buy_in (some b)) =
          entry-Allowed b.claimed empty
            (λ id. store_buy_in now id b.amount (text_or "table" b.ref) s)
            (λ id. store_buy_in-Grown now id s b.amount (text_or "table" b.ref))
      handle-Allowed (post_cash_out none) = kept _
      handle-Allowed (post_cash_out (some b)) =
          entry-Allowed b.claimed empty
            (λ id. store_cash_out now id b.amount (text_or "table" b.ref) s)
            (λ id. store_cash_out-Grown now id s b.amount (text_or "table" b.ref))
      handle-Allowed (post_club none) = kept _
      handle-Allowed (post_club (some b)) =
          let name = text_or "Club" b.settings.name in
          call-Allowed b.claimed 201 club
            (λ who. store_create_club now (id_or empty who) uuid default_rake name b.settings s)
            (λ u. store_create_club-Grown now u.subject s uuid default_rake name b.settings)
      handle-Allowed (get_club id) = kept _
      handle-Allowed (patch_club id none) = kept _
      handle-Allowed (patch_club id (some b)) =
          call-Allowed b.claimed 200 club
            (λ who. store_update_club id (id_or empty who) b.settings s)
            (λ u. updated id u.subject b.settings)
      handle-Allowed (delete_club id none) = kept _
      handle-Allowed (delete_club id (some b)) =
          call-Allowed b.claimed 200 (λ x. done_well)
            (λ who. store_delete_club id (id_or empty who) s) (λ u. deleted id u.subject)
      handle-Allowed (get_members id) = listed id
      handle-Allowed (post_member id none) = kept _
      handle-Allowed (post_member id (some b)) =
          call-Allowed b.claimed 200 member
            (λ who. store_add_member now (id_or empty b.member) id (id_or empty who) b.role s)
            (λ u. store_add_member-Grown now (id_or empty b.member) s id u.subject b.role)
      handle-Allowed (delete_member id subject none) = kept _
      handle-Allowed (delete_member id subject (some b)) =
          call-Allowed b.claimed 200 (λ x. done_well)
            (λ who. store_remove_member id (id_or empty who) subject s)
            (λ u. removed id u.subject subject)
      handle-Allowed (get_table_config id) = kept _
      handle-Allowed (get_user_clubs id) =
          replied-Allowed 200 clubs (store_list_clubs now id s) (store_list_clubs-Grown now id s)
      handle-Allowed no_route = kept _

      -- Where auth is on, whatever a request asks for, the entries of the ledger stay as they are, and
      -- each that is appended to them is the welcome of a user who had no entry, or for the player whom
      -- a bearer token in the header of the request is verified for.
      pub entries-IsAllowed :
          (route : Route)
          → Grown
              (IsAllowed s)
              s
              (handle jwt_verify false config now uuid default_rake text_of empty header route s).1
      unfolding Allowed
      entries-IsAllowed route = handle-Allowed route

-- ===== src/Server/Http/Handle.antt =====
-- services/game-server/src/app.ts: `handleHttp`. Each request is answered as a whole, one after
-- another. jose, the environment and the texts of ids are arguments.
use Prim.Native.String.{String}
use vr_poker.Prelude.{ℕ, suc, Bool, Option, none, some, List, length}
use vr_poker.Prelude.Maps.{lookup_in}
use vr_poker.Ledger.Entries.{Fallible, done, failed}
use vr_poker.Auth.Subject.{
  AuthUser, AuthVerifyOptions, Key, Payload, granted, denied, require_auth_header, resolve_subject,
}
use vr_poker.Table.State.{Table, HandDeal}
use vr_poker.Table.Monad.{bad_seat_count}
use vr_poker.Table.Play.{new_table}
use vr_poker.Table.Snapshot.{snapshot}
use vr_poker.Server.Port.{ChipLedgerPort}
use vr_poker.Server.Ops.{
  Server, Reply, answered, refused, of_table, of_ledger, table_not_found, put_table, ensure_account,
  broadcast_table, sit_at_table, add_on_at_table, leave_table, start_table_hand, act_at_table,
}
use vr_poker.Server.Http.{
  Route, Response, options, health, opens_account, reads_account, opens_table, sits_at, adds_on_at,
  leaves_from, starts_at, acts_at, reads_table, no_route, no_content, is_well, account_opened,
  account, table, cashed_out, internal, not_found, response, failure, error_for, error_of,
}

abbrev pub text_or : Option String → String → String
text_or none fallback = fallback
text_or (some t) fallback = t

abbrev pub id_or : Option ℕ → ℕ → ℕ
id_or none fallback = fallback
id_or (some id) fallback = id

-- `authUser?.email` and `authUser?.subject`
abbrev pub email_of : Option AuthUser → Option String
email_of none = none
email_of (some u) = u.email

abbrev pub subject_of : Option AuthUser → Option ℕ
subject_of none = none
subject_of (some u) = some u.subject

module _ {L : Type 0} where
  -- `json(res, 200, tableOrThrow(id).snapshot(viewer))`
  abbrev pub shown : ℕ → Option ℕ → Server L → Response
  shown id viewer s = elim (lookup_in id s.tables) [
    | none ↦ failure (error_for table_not_found)
    | some t ↦ response 200 (table (snapshot viewer t))
  ]

  abbrev pub then_shown : ℕ → Option ℕ → Server L → Response × Server L
  then_shown id viewer s = (shown id viewer s, s)

  -- a table that was changed is broadcast and shown
  abbrev pub after_change : ℕ → Option ℕ → Reply Table × Server L → Response × Server L
  after_change id viewer (refused e, s) = (failure (error_for e), s)
  after_change id viewer (answered t, s) = then_shown id viewer (broadcast_table id s)

  -- an add-on is not broadcast, and an action has been broadcast
  abbrev pub after_call : ℕ → Option ℕ → Reply Table × Server L → Response × Server L
  after_call id viewer (refused e, s) = (failure (error_for e), s)
  after_call id viewer (answered t, s) = then_shown id viewer s

  -- `new Table(id, deal, config)`, kept under its id
  abbrev pub after_new : ℕ → Option Table → Server L → Response × Server L
  after_new id none s = (failure (error_for (of_table bad_seat_count)), s)
  after_new id (some t) s = (response 201 (table (snapshot none t)), put_table id t s)

-- the answer with what the ledger tells, or to its failure
abbrev pub told : {A : Type 0} → (A → Response) → Fallible A → Response
told f (done a) = f a
told f (failed e) = failure (error_for (of_ledger e))

module _ {L : Type 0} (port : ChipLedgerPort L) (text_of : ℕ → String) where
  abbrev pub after_account :
      ℕ → String → Option AuthUser → Fallible (Unit {0}) × Server L → Response × Server L
  after_account player name user (failed e, s) = (failure (error_for (of_ledger e)), s)
  after_account player name user (done a, s) = (
    told (λ coins. response 200 (account_opened player name coins (subject_of user)))
        (port.balance player s.ledger),
    s,
  )

  abbrev pub account_shown : ℕ → Server L → Response
  account_shown player s =
      told
        (λ coins.
          told
            (λ entries.
              response 200 (
                account player (text_or (lookup_in player s.names) (text_of player)) coins entries))
            (port.history player s.ledger))
        (port.balance player s.ledger)

  abbrev pub after_leave : ℕ → ℕ → Reply ℕ × Server L → Response × Server L
  after_leave id player (refused e, s) = (failure (error_for e), s)
  after_leave id player (answered chips, s) =
      let seen = broadcast_table id s in
      (
        told (λ coins. response 200 (cashed_out player chips coins))
            (port.balance player seen.ledger),
        seen,
      )

module _ (jwt_verify : List ℕ → Key → Option String → Option String → Option Payload)
    (disabled : Bool) (config : AuthVerifyOptions) where
  -- the user that the header names, or the answer to what `requireAuthHeader` throws
  abbrev pub with_user :
      {A : Type 0} → Option (List ℕ) → A → (Option AuthUser → Response × A) → Response × A
  with_user header s k = elim (require_auth_header jwt_verify disabled config header) [
    | denied e ↦ (failure (error_of e), s)
    | granted user ↦ k user
  ]

  -- `resolveSubject` after it
  abbrev pub with_player :
      {A : Type 0}
      → Option (List ℕ)
      → Option ℕ
      → A
      → (Option AuthUser → ℕ → Response × A)
      → Response × A
  with_player header claimed s k = with_user header s (λ user.
      elim (resolve_subject disabled user claimed) [
        | denied e ↦ (failure (error_of e), s)
        | granted player ↦ k user player
      ])

module _ (jwt_verify : List ℕ → Key → Option String → Option String → Option Payload)
    (disabled : Bool) (config : AuthVerifyOptions) {L : Type 0} (port : ChipLedgerPort L)
    (text_of : ℕ → String) (id_of : ℕ → ℕ) (deal : ℕ → ℕ → HandDeal) where
  -- `id_of` gives the id of the table `table-n`; `deal` is the source of the deals
  unfoldable pub handle_http : Option (List ℕ) → Route → Server L → Response × Server L
  unfolding require_auth_header resolve_subject ensure_account new_table sit_at_table
      add_on_at_table leave_table start_table_hand act_at_table broadcast_table snapshot
  handle_http header options s = (response 204 no_content, s)
  handle_http header health s = (response 200 (is_well (length s.tables)), s)
  handle_http header (opens_account none) s = (failure internal, s)
  handle_http header (opens_account (some body)) s =
      with_player jwt_verify disabled config header body.player_id s (λ user player.
        let name = text_or body.name (text_or (email_of user) (text_of player)) in
        after_account port text_of player name user (ensure_account port player name s))
  handle_http header (reads_account none) s = (failure internal, s)
  handle_http header (reads_account (some claimed)) s =
      with_player jwt_verify disabled config header claimed s
        (λ user player. (account_shown port text_of player s, s))
  handle_http header (opens_table none) s = (failure internal, s)
  handle_http header (opens_table (some body)) s =
      let id = id_or body.id (id_of (suc (length s.tables))) in
      after_new id (new_table id deal body.config) s
  handle_http header (sits_at id none) s = (failure internal, s)
  handle_http header (sits_at id (some body)) s =
      with_player jwt_verify disabled config header body.player_id s (λ user player.
        after_change id (some player) (
          sit_at_table port id player (text_or body.name (text_of player)) body.buy_in body.seat s))
  handle_http header (adds_on_at id body) s = elim (lookup_in id s.tables) [
    | none ↦ (failure (error_for table_not_found), s)
    | some t ↦ elim body [
      | none ↦ (failure internal, s)
      | some b ↦
          with_player jwt_verify disabled config header b.player_id s
            (λ user player. after_call id (some player) (add_on_at_table port id player b.amount s))
    ]
  ]
  handle_http header (leaves_from id none) s = (failure internal, s)
  handle_http header (leaves_from id (some body)) s =
      with_player jwt_verify disabled config header body.player_id s
        (λ user player. after_leave port text_of id player (leave_table port id player s))
  handle_http header (starts_at id) s =
      with_user jwt_verify disabled config header s
        (λ user. after_change id none (start_table_hand id s))
  handle_http header (acts_at id body) s = elim (lookup_in id s.tables) [
    | none ↦ (failure (error_for table_not_found), s)
    | some t ↦ elim body [
      | none ↦ (failure internal, s)
      | some b ↦
          with_player jwt_verify disabled config header b.player_id s
            (λ user player. after_call id (some player) (act_at_table id player b.action s))
    ]
  ]
  handle_http header (reads_table id claimed) s = elim (lookup_in id s.tables) [
    | none ↦ (failure (error_for table_not_found), s)
    | some t ↦ elim claimed [
      | none ↦
          with_user jwt_verify disabled config header s
            (λ user. (response 200 (table (snapshot none t)), s))
      | some c ↦
          with_player jwt_verify disabled config header (some c) s
            (λ user player. (response 200 (table (snapshot (some player) t)), s))
    ]
  ]
  handle_http header no_route s = (failure not_found, s)

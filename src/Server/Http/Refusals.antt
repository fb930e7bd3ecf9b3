-- ===== src/Server/Http/Refusals.antt =====
-- services/game-server/src/app.ts: a request without a token.
use Prim.Native.String.{String}
use vr_poker.Prelude.{ℕ, ◌≤◌, ◌≡◌, refl, Bool, true, false, Option, none, some, List, arith}
use vr_poker.Prelude.Maps.{lookup_in}
use vr_poker.Auth.Subject.{
  AuthError, AuthUser, AuthVerifyOptions, Key, Payload, denied, require_auth_header,
}
use vr_poker.Table.State.{Table, HandDeal}
use vr_poker.Server.Port.{ChipLedgerPort}
use vr_poker.Server.Ops.{Server, table_not_found}
use vr_poker.Server.Http.{
  Route, Response, options, health, opens_account, reads_account, opens_table, sits_at, adds_on_at,
  leaves_from, starts_at, acts_at, reads_table, no_route, HttpError, of_auth, of_server, not_found,
  internal, failure, error_of, error_status, error_for,
}
use vr_poker.Server.Http.Handle.{with_user, with_player, handle_http}

-- The routes that ask for no token.
abbrev pub is_public : Route → Bool
is_public options = true
is_public health = true
is_public (opens_table body) = true
is_public _ = false

abbrev pub Refused : {L : Type 0} → Server L → Response × Server L → Type 0
Refused s (r, s') = (s' ≡ s) × (400 ≤ r.status)

failure-fails : (e : HttpError) → 400 ≤ error_status e
failure-fails (of_auth e) = omega arith
failure-fails (of_server e) = omega arith
failure-fails not_found = omega arith
failure-fails internal = omega arith

module _ (jwt_verify : List ℕ → Key → Option String → Option String → Option Payload)
    (disabled : Bool) (config : AuthVerifyOptions) (header : Option (List ℕ)) {L : Type 0}
    (s : Server L) (e : AuthError)
    (no_user : require_auth_header jwt_verify disabled config header ≡ denied e) where
  user-Refused :
      (k : Option AuthUser → Response × Server L)
      → Refused s (with_user jwt_verify disabled config header s k)
  user-Refused k = rw (no_user, with_user) (refl, failure-fails (error_of e))

  -- the routes that look for their table first
  table-Refused :
      {B : Type 0} (t : Option Table) (body : Option B) (claimed : B → Option ℕ)
      (k : Table → B → Option AuthUser → ℕ → Response × Server L)
      → Refused s (elim t [
        | none ↦ (failure (error_for table_not_found), s)
        | some t ↦ elim body [
          | none ↦ (failure internal, s)
          | some b ↦ with_player jwt_verify disabled config header (claimed b) s (k t b)
        ]
      ])
  table-Refused none body claimed k = (refl, omega arith)
  table-Refused (some t) none claimed k = (refl, omega arith)
  table-Refused (some t) (some b) claimed k = user-Refused _

  read-Refused :
      (t : Option Table) (claimed : Option ℕ) (k : Table → Option AuthUser → Response × Server L)
      (m : Table → Option AuthUser → ℕ → Response × Server L)
      → Refused s (elim t [
        | none ↦ (failure (error_for table_not_found), s)
        | some t ↦ elim claimed [
          | none ↦ with_user jwt_verify disabled config header s (k t)
          | some c ↦ with_player jwt_verify disabled config header (some c) s (m t)
        ]
      ])
  read-Refused none claimed k m = (refl, omega arith)
  read-Refused (some t) none k m = user-Refused _
  read-Refused (some t) (some c) k m = user-Refused _

  -- A request whose header names no user, because it has no token or one that is not verified, is
  -- refused with a status of 400 or more and changes nothing, unless it asks for the health, for the
  -- methods that are allowed, or for a new table.
  pub unauthorised_changes_nothing :
      (port : ChipLedgerPort L) (text_of : ℕ → String) (id_of : ℕ → ℕ) (deal : ℕ → ℕ → HandDeal)
      (route : Route)
      → is_public route ≡ false
      → Refused s (handle_http jwt_verify disabled config port text_of id_of deal header route s)
  unfolding handle_http
  unauthorised_changes_nothing port text_of id_of deal options h = absurd cc
  unauthorised_changes_nothing port text_of id_of deal health h = absurd cc
  unauthorised_changes_nothing port text_of id_of deal (opens_account none) h = (refl, omega arith)
  unauthorised_changes_nothing port text_of id_of deal (opens_account (some b)) h = user-Refused _
  unauthorised_changes_nothing port text_of id_of deal (reads_account none) h = (refl, omega arith)
  unauthorised_changes_nothing port text_of id_of deal (reads_account (some c)) h = user-Refused _
  unauthorised_changes_nothing port text_of id_of deal (opens_table b) h = absurd cc
  unauthorised_changes_nothing port text_of id_of deal (sits_at id none) h = (refl, omega arith)
  unauthorised_changes_nothing port text_of id_of deal (sits_at id (some b)) h = user-Refused _
  unauthorised_changes_nothing port text_of id_of deal (adds_on_at id b) h =
      table-Refused (lookup_in id s.tables) b (λ b. b.player_id) _
  unauthorised_changes_nothing port text_of id_of deal (leaves_from id none) h = (refl, omega arith)
  unauthorised_changes_nothing port text_of id_of deal (leaves_from id (some b)) h = user-Refused _
  unauthorised_changes_nothing port text_of id_of deal (starts_at id) h = user-Refused _
  unauthorised_changes_nothing port text_of id_of deal (acts_at id b) h =
      table-Refused (lookup_in id s.tables) b (λ b. b.player_id) _
  unauthorised_changes_nothing port text_of id_of deal (reads_table id c) h =
      read-Refused (lookup_in id s.tables) c _ _
  unauthorised_changes_nothing port text_of id_of deal no_route h = (refl, omega arith)

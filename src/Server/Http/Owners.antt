-- ===== src/Server/Http/Owners.antt =====
-- services/game-server/src/app.ts: whose chips a request moves.
use Prim.Native.String.{String}
use vr_poker.Prelude.{
  ℕ, suc, ◌≡◌, ◌⊎◌, inl, inr, refl, sym, ap, ◌∙◌, false, Option, none, some, List, ◌==◌, length,
  arith, Bool-cases,
}
use vr_poker.Prelude.Maps.{lookup_in}
use vr_poker.Ledger.Entries.{Fallible, done, failed}
use vr_poker.Auth.Bearer.{bearer_from_header}
use vr_poker.Auth.Subject.{
  AuthUser, AuthVerifyOptions, Key, Payload, Verdict, granted, denied, require_auth_header,
  resolve_subject, SpeaksFor, header_speaks,
}
use vr_poker.Table.State.{Table, HandDeal}
use vr_poker.Table.Play.{new_table}
use vr_poker.Table.Snapshot.{snapshot}
use vr_poker.Server.Port.{ChipLedgerPort}
use vr_poker.Server.Ops.{
  Server, Reply, answered, refused, table_not_found, ensure_account, sit_at_table, add_on_at_table,
  leave_table, start_table_hand, act_at_table,
}
use vr_poker.Server.Others.{
  KeepsOthers, ensure_account-other, add_on_at_table-other, sit_at_table-other, leave_table-other,
  broadcast_table-ledger, start_table_hand-ledger, act_at_table-ledger,
}
use vr_poker.Server.Http.{
  Route, Response, options, health, opens_account, reads_account, opens_table, sits_at, adds_on_at,
  leaves_from, starts_at, acts_at, reads_table, no_route, internal, failure, error_of, error_for,
  response, table,
}
use vr_poker.Server.Http.Handle.{
  with_user, with_player, after_account, after_new, after_change, after_call, after_leave, text_or,
  email_of, id_or, handle_http,
}

module _ (jwt_verify : List ℕ → Key → Option String → Option String → Option Payload)
    (config : AuthVerifyOptions) {L : Type 0} (port : ChipLedgerPort L) (laws : KeepsOthers port)
    (text_of : ℕ → String) (header : Option (List ℕ)) (other : ℕ) (s : Server L) where
  -- The balance of the player is kept, or the header has a token of the player.
  abbrev KeptOrOwn : Response × Server L → Type 0
  KeptOrOwn r =
      (port.holds other r.1.ledger ≡ port.holds other s.ledger)
      ⊎ SpeaksFor jwt_verify config (bearer_from_header header) none other

  own :
      (user : Option AuthUser) (claimed : Option ℕ)
      → require_auth_header jwt_verify false config header ≡ granted user
      → resolve_subject false user claimed ≡ granted other
      → SpeaksFor jwt_verify config (bearer_from_header header) none other
  own user claimed u e =
      let (text, email, at, verified, same) =
        header_speaks jwt_verify config header claimed other (rw u e) in
      (text, email, at, verified, refl)

  -- What is done for one player keeps the balances of the others.
  player_or_own :
      (claimed : Option ℕ) (k : Option AuthUser → ℕ → Response × Server L)
      → ((user : Option AuthUser) (player : ℕ)
          → (player == other) ≡ false
          → port.holds other (k user player).1.ledger ≡ port.holds other s.ledger)
      → KeptOrOwn (with_player jwt_verify false config header claimed s k)
  player_or_own claimed k kept = outer (require_auth_header jwt_verify false config header) refl
    where
      inner :
          (user : Option AuthUser) (v : Verdict ℕ)
          → require_auth_header jwt_verify false config header ≡ granted user
          → resolve_subject false user claimed ≡ v
          → KeptOrOwn
              (elim v [ denied e ↦ (failure (error_of e), s) | granted player ↦ k user player ])
      inner user (denied e) u h = inl refl
      inner user (granted player) u h = elim (Bool-cases (player == other)) [
        | inl y ↦
            let same : player ≡ other = ground (arith, y) in
            inr (own user claimed u (rw (sym same) h))
        | inr n ↦ inl (kept user player n)
      ]

      outer :
          (v : Verdict (Option AuthUser))
          → require_auth_header jwt_verify false config header ≡ v
          → KeptOrOwn (elim v [
            | denied e ↦ (failure (error_of e), s)
            | granted user ↦ elim (resolve_subject false user claimed) [
              | denied e ↦ (failure (error_of e), s)
              | granted player ↦ k user player
            ]
          ])
      outer (denied e) u = inl refl
      outer (granted user) u = inner user (resolve_subject false user claimed) u refl

  accounted :
      (player : ℕ) (name : String) (user : Option AuthUser) (r : Fallible (Unit {0}) × Server L)
      → (after_account port text_of player name user r).1.ledger ≡ r.1.ledger
  accounted player name user (failed e, s') = refl
  accounted player name user (done a, s') = refl

  changed :
      (id : ℕ) (viewer : Option ℕ) (r : Reply Table × Server L)
      → (after_change id viewer r).1.ledger ≡ r.1.ledger
  changed id viewer (refused e, s') = refl
  changed id viewer (answered t, s') = broadcast_table-ledger id s'

  called :
      (id : ℕ) (viewer : Option ℕ) (r : Reply Table × Server L)
      → (after_call id viewer r).1.ledger ≡ r.1.ledger
  called id viewer (refused e, s') = refl
  called id viewer (answered t, s') = refl

  went :
      (id player : ℕ) (r : Reply ℕ × Server L)
      → (after_leave port text_of id player r).1.ledger ≡ r.1.ledger
  went id player (refused e, s') = refl
  went id player (answered chips, s') = broadcast_table-ledger id s'

  made : (id : ℕ) (t : Option Table) → (after_new id t s).1.ledger ≡ s.ledger
  made id none = refl
  made id (some t) = refl

  started :
      (k : Option AuthUser → Response × Server L)
      → ((user : Option AuthUser) → (k user).1.ledger ≡ s.ledger)
      → KeptOrOwn (with_user jwt_verify false config header s k)
  started k h = go (require_auth_header jwt_verify false config header)
    where
      go :
          (v : Verdict (Option AuthUser))
          → KeptOrOwn (elim v [ denied e ↦ (failure (error_of e), s) | granted user ↦ k user ])
      go (denied e) = inl refl
      go (granted user) = inl (ap (port.holds other) (h user))

  -- the routes that look for their table first
  table_or_own :
      {B : Type 0} (t : Option Table) (body : Option B) (claimed : B → Option ℕ)
      (k : Table → B → Option AuthUser → ℕ → Response × Server L)
      → ((t : Table) (b : B) (user : Option AuthUser) (player : ℕ)
          → (player == other) ≡ false
          → port.holds other (k t b user player).1.ledger ≡ port.holds other s.ledger)
      → KeptOrOwn (elim t [
        | none ↦ (failure (error_for table_not_found), s)
        | some t ↦ elim body [
          | none ↦ (failure internal, s)
          | some b ↦ with_player jwt_verify false config header (claimed b) s (k t b)
        ]
      ])
  table_or_own none body claimed k h = inl refl
  table_or_own (some t) none claimed k h = inl refl
  table_or_own (some t) (some b) claimed k h = player_or_own (claimed b) (k t b) (h t b)

  -- Where auth is on and the ledger keeps to its player: whatever a request asks for, the balance of a
  -- player in the ledger is what it was, or the header of the request has a bearer token that jose
  -- verifies for that player.
  pub only_owners_move :
      (id_of : ℕ → ℕ) (deal : ℕ → ℕ → HandDeal) (route : Route)
      → (port.holds other
            (handle_http jwt_verify false config port text_of id_of deal header route s).1.ledger
          ≡ port.holds other s.ledger)
        ⊎ SpeaksFor jwt_verify config (bearer_from_header header) none other
  unfolding handle_http
  only_owners_move id_of deal options = inl refl
  only_owners_move id_of deal health = inl refl
  only_owners_move id_of deal (opens_account none) = inl refl
  only_owners_move id_of deal (opens_account (some b)) =
      player_or_own b.player_id _ (λ user player n.
        let name = text_or b.name (text_or (email_of user) (text_of player)) in
        ap (port.holds other) (accounted player name user (ensure_account port player name s))
        ∙ ensure_account-other port laws player other n name s)
  only_owners_move id_of deal (reads_account none) = inl refl
  only_owners_move id_of deal (reads_account (some c)) = player_or_own c _ (λ user player n. refl)
  only_owners_move id_of deal (opens_table none) = inl refl
  only_owners_move id_of deal (opens_table (some b)) =
      let id = id_or b.id (id_of (suc (length s.tables))) in
      inl (ap (port.holds other) (made id (new_table id deal b.config)))
  only_owners_move id_of deal (sits_at id none) = inl refl
  only_owners_move id_of deal (sits_at id (some b)) = player_or_own b.player_id _ (λ user player n.
      let name = text_or b.name (text_of player) in
      ap (port.holds other)
        (changed id (some player) (sit_at_table port id player name b.buy_in b.seat s))
      ∙ sit_at_table-other port laws player other n id name b.buy_in b.seat s)
  only_owners_move id_of deal (adds_on_at id b) =
      table_or_own (lookup_in id s.tables) b (λ b. b.player_id) _
        (λ t b user player n.
          ap (port.holds other)
            (called id (some player) (add_on_at_table port id player b.amount s))
          ∙ add_on_at_table-other port laws player other n id b.amount s)
  only_owners_move id_of deal (leaves_from id none) = inl refl
  only_owners_move id_of deal (leaves_from id (some b)) =
      player_or_own b.player_id _ (λ user player n.
        ap (port.holds other) (went id player (leave_table port id player s))
        ∙ leave_table-other port laws player other n id s)
  only_owners_move id_of deal (starts_at id) =
      started _ (λ user. changed id none (start_table_hand id s) ∙ start_table_hand-ledger id s)
  only_owners_move id_of deal (acts_at id b) =
      table_or_own (lookup_in id s.tables) b (λ b. b.player_id) _
        (λ t b user player n. ap (port.holds other) (
          called id (some player) (act_at_table id player b.action s)
          ∙ act_at_table-ledger id player b.action s))
  only_owners_move id_of deal (reads_table id c) = read (lookup_in id s.tables) c
    where
      read :
          (t : Option Table) (claimed : Option ℕ)
          → KeptOrOwn (elim t [
            | none ↦ (failure (error_for table_not_found), s)
            | some t ↦ elim claimed [
              | none ↦
                  with_user jwt_verify false config header s
                    (λ user. (response 200 (table (snapshot none t)), s))
              | some c ↦
                  with_player jwt_verify false config header
                    (some c)
                    s
                    (λ user player. (response 200 (table (snapshot (some player) t)), s))
            ]
          ])
      read none claimed = inl refl
      read (some t) none = started _ (λ user. refl)
      read (some t) (some c) = player_or_own (some c) _ (λ user player n. refl)
  only_owners_move id_of deal no_route = inl refl

-- ===== src/Server/Casino/Kept.antt =====
-- services/game-server/src/casino: the calls that leave the ledger as it is.

use vr_poker.Prelude.{
  ℕ, ◌≡◌, inl, inr, refl, ◌∙◌, Option, none, some, some_of, Bool-cases, Option-cases, [],
}
use vr_poker.Prelude.Int.{ℤ, pos}
use vr_poker.Prelude.Maps.{lookup_in, write_in}
use vr_poker.Table.State.{Table, ActionType, fold, check, call, bet, raise, all_in}
use vr_poker.Table.Monad.{Result, ok, err}
use vr_poker.Table.Snapshot.{snapshot, TableSnapshot}
use vr_poker.Server.Ops.{Server, Reply, answered, refused, put_table, arm_timeout, start_table_hand}
use vr_poker.Server.Others.{broadcast_table-ledger, start_table_hand-ledger}
use vr_poker.Server.Casino.Map.{is_waiting, room_details}
use vr_poker.Server.Casino.Runtime.{
  Casino, Outcome, gives, throws, notify, enter_room, added, ready_at, all_ready, after_start,
  ready_players, mark_ready, is_player,
}
use vr_poker.Server.Casino.Rpc.{Ret, ret_of, after_act, act_in_room}
use vr_poker.Server.Casino.Calls.{
  Done, Answer, answer, entered, viewed, after_enter, in_room, missing_number, play_call,
}

module _ {L : Type 0} where
  pub notified : (id : ℕ) (c : Casino L) → (notify id c).server.ledger ≡ c.server.ledger
  unfolding notify
  notified id c = broadcast_table-ledger id (_) ∙ broadcast_table-ledger id c.server

  pub entered_ledger :
      (uid id : ℕ) (c : Casino L) → (enter_room uid id c).1.server.ledger ≡ c.server.ledger
  unfolding enter_room
  entered_ledger uid id c = elim (Option-cases (lookup_in id c.server.tables)) [
    | inl e ↦ rw (enter_room, e) refl
    | inr (t, e) ↦ rw (enter_room, e) refl
  ]

  started_ledger :
      (id : ℕ) (c : Casino L) (r : Reply Table × Server L)
      → (after_start id c r).1.server.ledger ≡ r.1.ledger
  started_ledger id c (refused e, s) = refl
  started_ledger id c (answered t, s) = notified id (record c { server = s })

  ready_ledger :
      (id player : ℕ) (snap : TableSnapshot) (c : Casino L)
      → (ready_players id player snap c).1.server.ledger ≡ c.server.ledger
  ready_ledger id player snap c =
      elim (Bool-cases (all_ready (added player (ready_at id c)) snap.players)) [
        | inl y ↦ rw y (
            started_ledger id (record c { ready = write_in id [] c.ready })
              (start_table_hand id c.server)
            ∙ start_table_hand-ledger id c.server)
        | inr n ↦ rw n refl
      ]

  pub mark_ready-ledger :
      (id player : ℕ) (c : Casino L) → (mark_ready id player c).1.server.ledger ≡ c.server.ledger
  unfolding mark_ready
  mark_ready-ledger id player c = elim (Option-cases (lookup_in id c.server.tables)) [
    | inl e ↦ rw (mark_ready, e) refl
    | inr (t, e) ↦
        let snap = snapshot (some player) t in
        elim (Bool-cases (some_of (is_player player) snap.players)) [
          | inr n ↦ rw (mark_ready, e, n) refl
          | inl y ↦ elim (Bool-cases (is_waiting snap.street)) [
            | inr n ↦ rw (mark_ready, e, y, n) refl
            | inl w ↦ rw (mark_ready, e, y, w) (ready_ledger id player snap c)
          ]
        ]
  ]

  acted_ledger :
      (id uid : ℕ) (c : Casino L) (r : Result (Unit {0}) × Table)
      → (after_act id uid c r).1.server.ledger ≡ c.server.ledger
  unfolding arm_timeout
  acted_ledger id uid c (err e, t) = refl
  acted_ledger id uid c (ok a, t) =
      notified id (record c { server = arm_timeout id t (put_table id t c.server) })

  act_in_room-ledger :
      (uid : ℕ) (a : ActionType) (n : ℤ) (c : Casino L)
      → (act_in_room uid a n c).1.server.ledger ≡ c.server.ledger
  unfolding act_in_room
  act_in_room-ledger uid a n c = elim (Option-cases (lookup_in uid c.rooms)) [
    | inl e ↦ rw (act_in_room, e) refl
    | inr (id, e) ↦ elim (Option-cases (lookup_in id c.server.tables)) [
      | inl f ↦ rw (act_in_room, e, f) refl
      | inr (t, f) ↦ rw (act_in_room, e, f) (acted_ledger id uid c _)
    ]
  ]

  pub answer_ledger :
      {A : Type 0} (f : A → Answer) (r : Ret L A) → (answer f r).1.server.ledger ≡ r.1.server.ledger
  answer_ledger f (inl e, c) = refl
  answer_ledger f (inr a, c) = refl

  pub ret_ledger :
      {A : Type 0} (r : Outcome A × Casino L) → (ret_of r).1.server.ledger ≡ r.1.server.ledger
  ret_ledger (gives a, c) = refl
  ret_ledger (throws e, c) = refl

  pub viewed_ledger :
      (f : TableSnapshot → Answer) (id uid : ℕ) (c : Casino L)
      → (viewed f id uid c).1.server.ledger ≡ c.server.ledger
  viewed_ledger f id uid c = elim (Option-cases (lookup_in id c.server.tables)) [
    | inl e ↦ rw (e, viewed) refl
    | inr (t, e) ↦ rw (e, viewed) refl
  ]

  pub room_ledger :
      (uid id : ℕ) (r : Outcome (Unit {0}) × Casino L)
      → (after_enter id uid r).1.server.ledger ≡ r.1.server.ledger
  room_ledger uid id (gives a, c) =
      viewed_ledger (λ snap. entered (room_details (some uid) snap)) id uid c
  room_ledger uid id (throws e, c) = refl

  pub in_room_ledger :
      (uid : ℕ) (c : Casino L) (k : ℕ → Done L)
      → ((id : ℕ) → (k id).1.server.ledger ≡ c.server.ledger)
      → (in_room uid c k).1.server.ledger ≡ c.server.ledger
  in_room_ledger uid c k h = elim (Option-cases (lookup_in uid c.rooms)) [
    | inl e ↦ rw (e, in_room) refl
    | inr (id, e) ↦ rw (e, in_room) (h id)
  ]

  missing_ledger :
      (uid : ℕ) (c : Casino L) → (missing_number uid c).1.server.ledger ≡ c.server.ledger
  missing_ledger uid c = in_room_ledger uid c _ (λ id.
      elim (Option-cases (lookup_in id c.server.tables)) [
        | inl e ↦ rw e refl
        | inr (t, e) ↦ rw e refl
      ])

  pub play_call-ledger :
      (uid : ℕ) (a : ActionType) (n : Option ℤ) (c : Casino L)
      → (play_call uid a n c).1.server.ledger ≡ c.server.ledger
  unfolding play_call
  play_call-ledger uid bet none c = missing_ledger uid c
  play_call-ledger uid raise none c = missing_ledger uid c
  play_call-ledger uid fold none c = answer_ledger _ _ ∙ act_in_room-ledger uid fold (pos 0) c
  play_call-ledger uid check none c = answer_ledger _ _ ∙ act_in_room-ledger uid check (pos 0) c
  play_call-ledger uid call none c = answer_ledger _ _ ∙ act_in_room-ledger uid call (pos 0) c
  play_call-ledger uid all_in none c = answer_ledger _ _ ∙ act_in_room-ledger uid all_in (pos 0) c
  play_call-ledger uid a (some n) c = answer_ledger _ _ ∙ act_in_room-ledger uid a n c

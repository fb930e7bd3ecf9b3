-- ===== src/Server/Casino/Calls.antt =====
-- services/game-server/src/casino/rpc.ts: calls and their answers, `listTables` of
-- runtime.ts and the calls for an action. A call stands with the arguments that it reads; an id or pin that is
-- absent or empty is `none`, and so is a number that is not finite. The ids that a sign-up or a login
-- names are not empty. The commands that do not depend on the state are those of the call.
use Prim.Native.String.{String}
use vr_poker.Prelude.{ℕ, Bool, Option, none, some, List, map, length, keep, find, ◌⊎◌, inl, inr}
use vr_poker.Prelude.Int.{ℤ, pos}
use vr_poker.Prelude.Maps.{lookup_in}
use vr_poker.Ledger.Entries.{ledger_error_not_bound}
use vr_poker.Table.State.{Table, ActionType, bet, raise}
use vr_poker.Table.Monad.{bad_hand, null_access}
use vr_poker.Table.Snapshot.{snapshot, TableSnapshot}
use vr_poker.Server.Ops.{ServerError, of_table, of_ledger, table_not_found}
use vr_poker.Server.Casino.Map.{CasinoCmds, RoomDetails, room_details}
use vr_poker.Server.Casino.Runtime.{
  Casino, CasinoError, Outcome, Login, gives, throws, of_server, of_ledger as refused_by_ledger,
  uid_exists, wrong_password, wrong_pin, is_player, is_seated, check_pin,
}
use vr_poker.Server.Casino.Rpc.{RpcError, of_casino, not_in_room, Ret, act_in_room}

pub data Call : Type 0 where
  fastsignup : Call
  signs_up : ℕ → Option ℕ → String → Call
  logs_in : ℕ → Option ℕ → Call
  logs_out games rooms : Call
  enters : Option ℕ → Call
  looks : Call
  takes_seat : Option ℤ → Call
  unseats leaves is_ready : Call
  plays : ActionType → Option ℤ → Call
  talks unknown : Call

pub record RpcReq : Type 0 where
  pub seq : ℕ
  pub uid : Option ℕ
  pub pin : Option ℕ
  pub call : Call

pub record Session : Type 0 where
  pub uid : ℕ
  pub pin : ℕ

pub record RoomRow : Type 0 where
  pub id : ℕ
  pub name : String
  pub seats : ℕ
  pub taken : ℕ

pub data Answer : Type 0 where
  signed_up : ℕ → Option ℕ → Answer
  logged : ℕ → Login → Answer
  prompt hall_games said : Answer
  listed : List RoomRow → Answer
  entered looked : RoomDetails → Answer
  seated : ℕ → Answer
  stood_up : Bool → Answer
  made_ready : Answer
  acted : CasinoCmds → Answer

pub data CallError : Type 0 where
  of_rpc : RpcError → CallError
  invalid_number unknown_method : CallError

pub record RpcRet : Type 0 where
  pub seq : ℕ
  pub err : ℕ
  pub ret : CallError ⊎ Answer

-- the status of an error; an error that is not one of the program's own is 500
abbrev pub server_status : ServerError → ℕ
server_status (of_table bad_hand) = 500
server_status (of_table null_access) = 500
server_status (of_ledger ledger_error_not_bound) = 500
server_status e = 400

abbrev pub casino_status : CasinoError → ℕ
casino_status (of_server e) = server_status e
casino_status (refused_by_ledger e) = server_status (of_ledger e)
casino_status uid_exists = 409
casino_status wrong_password = 403
casino_status wrong_pin = 403
casino_status e = 400

abbrev pub call_status : CallError → ℕ
call_status (of_rpc (of_casino e)) = casino_status e
call_status e = 400

abbrev pub row : (ℕ → String) → Table → RoomRow
row name_of t = record {
  id = t.table_id;
  name = name_of t.table_id;
  seats = t.config.seats;
  taken = length (keep is_seated (snapshot none t).players);
}

-- what is given, or thrown
abbrev pub Done : Type 0 → Type 0
Done L = (CallError ⊎ Answer) × Casino L

module _ {L : Type 0} where
  abbrev pub answer : {A : Type 0} → (A → Answer) → Ret L A → Done L
  answer f (inl e, c) = (inl (of_rpc e), c)
  answer f (inr a, c) = (inr (f a), c)

  -- `name_of` is the name of the default room for its id, and the text of every other id
  unfoldable pub list_tables : (ℕ → String) → Casino L → List RoomRow
  unfolding snapshot
  list_tables name_of c = map (λ e. row name_of e.1) c.server.tables

  -- `f (runtime.tableOrThrow(id).snapshot(uid))`
  abbrev pub viewed : (TableSnapshot → Answer) → ℕ → ℕ → Casino L → Done L
  viewed f id uid c = elim (lookup_in id c.server.tables) [
    | none ↦ (inl (of_rpc (of_casino (of_server table_not_found))), c)
    | some t ↦ (inr (f (snapshot (some uid) t)), c)
  ]

  abbrev pub after_enter : ℕ → ℕ → Outcome (Unit {0}) × Casino L → Done L
  after_enter id uid (throws e, c) = (inl (of_rpc (of_casino e)), c)
  after_enter id uid (gives a, c) = viewed (λ snap. entered (room_details (some uid) snap)) id uid c

  -- the seat of the player on the table, or 0
  abbrev pub seat_of : ℕ → ℕ → Casino L → ℕ
  seat_of id uid c = elim (lookup_in id c.server.tables) [
    | none ↦ 0
    | some t ↦ elim (find (is_player uid) (snapshot (some uid) t).players) [
      | none ↦ 0
      | some p ↦ p.seat
    ]
  ]

  abbrev pub in_room : ℕ → Casino L → (ℕ → Done L) → Done L
  in_room uid c k = elim (lookup_in uid c.rooms) [
    | none ↦ (inl (of_rpc not_in_room), c)
    | some id ↦ k id
  ]

  -- the table is found before the number is read, which only a raise and a bet do
  abbrev pub missing_number : ℕ → Casino L → Done L
  missing_number uid c = in_room uid c (λ id. elim (lookup_in id c.server.tables) [
    | none ↦ (inl (of_rpc (of_casino (of_server table_not_found))), c)
    | some t ↦ (inl invalid_number, c)
  ])

  unfoldable pub play_call : ℕ → ActionType → Option ℤ → Casino L → Done L
  unfolding act_in_room
  play_call uid bet none c = missing_number uid c
  play_call uid raise none c = missing_number uid c
  play_call uid a none c = answer acted (act_in_room uid a (pos 0) c)
  play_call uid a (some n) c = answer acted (act_in_room uid a n c)

-- `str(req.uid) || session?.uid || ""`, and the pin likewise
abbrev pub uid_for : RpcReq → Option Session → Option ℕ
uid_for req session = elim req.uid [
  | some uid ↦ some uid
  | none ↦ elim session [ none ↦ none | some s ↦ some s.uid ]
]

abbrev pub pin_for : RpcReq → Option Session → Option ℕ
pin_for req session = elim req.pin [
  | some pin ↦ some pin
  | none ↦ elim session [ none ↦ none | some s ↦ some s.pin ]
]

module _ {L : Type 0} where
  -- what a checked session is answered
  abbrev pub when_checked : Option CasinoError → Done L → Casino L → Done L
  when_checked none r c = r
  when_checked (some e) r c = (inl (of_rpc (of_casino e)), c)

  -- `requireSession`, and what is done with its id
  abbrev pub with_session : Option ℕ → Option ℕ → Casino L → (ℕ → Done L) → Done L
  with_session (some uid) (some pin) c k = when_checked (check_pin uid pin c) (k uid) c
  with_session _ _ c k = (inl (of_rpc (of_casino wrong_pin)), c)

  abbrev pub returned : ℕ → Done L → RpcRet × Casino L
  returned seq (inl e, c) = (record { seq = seq; err = call_status e; ret = inl e }, c)
  returned seq (inr a, c) = (record { seq = seq; err = 0; ret = inr a }, c)

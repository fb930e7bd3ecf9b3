-- ===== src/Server/Casino/Dispatch.antt =====
-- services/game-server/src/casino/rpc.ts: `handleRpc`, `dispatch` and `loggedDispatch`. New pins and
-- the ids of new users are arguments; `room` is the id of the default room.
use Prim.Native.String.{String}
use vr_poker.Prelude.{ℕ, true, false, Option, none, some, inl, inr}
use vr_poker.Table.Snapshot.{snapshot}
use vr_poker.Server.Port.{ChipLedgerPort}
use vr_poker.Server.Casino.Map.{room_details}
use vr_poker.Server.Casino.Runtime.{
  Casino, check_pin, enter_room, fast_signup, signup, login, mark_ready,
}
use vr_poker.Server.Casino.Rpc.{ret_of, take_seat, leave_call}
use vr_poker.Server.Casino.Calls.{
  Call, fastsignup, signs_up, logs_in, logs_out, games, rooms, enters, looks, takes_seat, unseats,
  leaves, is_ready, plays, talks, RpcReq, Session, signed_up, logged, prompt, hall_games, said,
  listed, looked, seated, stood_up, made_ready, unknown_method, RpcRet, Done, answer, list_tables,
  viewed, after_enter, seat_of, in_room, play_call, uid_for, pin_for, with_session, returned,
}

module _ {L : Type 0} (port : ChipLedgerPort L) (text_of name_of : ℕ → String) (room : ℕ) where
  -- `room` is the id of the default room
  unfoldable pub logged_dispatch : ℕ → Call → Casino L → Done L
  unfolding list_tables enter_room snapshot room_details take_seat leave_call mark_ready play_call
  logged_dispatch uid games c = (inr hall_games, c)
  logged_dispatch uid rooms c = (inr (listed (list_tables name_of c)), c)
  logged_dispatch uid (enters none) c = after_enter room uid (enter_room uid room c)
  logged_dispatch uid (enters (some id)) c = after_enter id uid (enter_room uid id c)
  logged_dispatch uid looks c =
      in_room uid c (λ id. viewed (λ snap. looked (room_details (some uid) snap)) id uid c)
  logged_dispatch uid (takes_seat seat) c =
      let r = take_seat port text_of uid seat c in
      in_room uid c (λ id. answer (λ u. seated (seat_of id uid r.1)) r)
  logged_dispatch uid unseats c = answer (λ u. stood_up false) (leave_call port text_of false uid c)
  logged_dispatch uid leaves c = answer (λ u. stood_up true) (leave_call port text_of true uid c)
  logged_dispatch uid is_ready c =
      in_room uid c (λ id. answer (λ u. made_ready) (ret_of (mark_ready id uid c)))
  logged_dispatch uid (plays a n) c = play_call uid a n c
  logged_dispatch uid talks c = (inr said, c)
  logged_dispatch uid call c = (inl unknown_method, c)

  -- `uid_of`, `length_of`: the next user's id, and the length of an id's text; `passwd`, `fresh` and
  -- `pin` are what `randomPin` draws in this call
  unfoldable pub dispatch :
      (ℕ → ℕ) → (ℕ → ℕ) → ℕ → ℕ → ℕ → RpcReq → Option Session → Casino L → Done L
  unfolding fast_signup signup login check_pin logged_dispatch
  dispatch uid_of length_of passwd fresh pin req session c = elim req.call [
    | fastsignup ↦
        answer (λ u. signed_up u.0 (some u.1))
          (ret_of (fast_signup port uid_of text_of passwd fresh c))
    | signs_up uid p name ↦
        answer (λ u. signed_up uid p) (ret_of (signup port length_of text_of uid p name fresh c))
    | logs_in uid p ↦ answer (logged uid) (ret_of (login port text_of uid p fresh pin c))
    | logs_out ↦ with_session (uid_for req session) (pin_for req session) c (λ uid. (inr prompt, c))
    | call ↦
        with_session (uid_for req session) (pin_for req session) c
          (λ uid. logged_dispatch uid call c)
  ]

  unfoldable pub handle_rpc :
      (ℕ → ℕ) → (ℕ → ℕ) → ℕ → ℕ → ℕ → RpcReq → Option Session → Casino L → RpcRet × Casino L
  unfolding dispatch
  handle_rpc uid_of length_of passwd fresh pin req session c =
      returned req.seq (dispatch uid_of length_of passwd fresh pin req session c)

-- ===== src/Server/Casino/Gateway.antt =====
-- services/game-server/src/casino/gateway.ts: what a socket is sent for a message, and the session
-- that it keeps. A message "rpc" without the shape of a call is `none`.
use Prim.Native.String.{String}
use vr_poker.Prelude.{
  ℕ, ◌≡◌, ◌⊎◌, inl, inr, refl, Option, none, some, List, [], ◌∷◌, ◌==◌, if◌then◌else◌, Bool-cases,
}
use vr_poker.Prelude.Maps.{lookup_in}
use vr_poker.Table.Snapshot.{snapshot}
use vr_poker.Server.Port.{ChipLedgerPort}
use vr_poker.Server.Casino.Map.{CasinoCmds, RoomDetails, cmds_for_actor, room_details}
use vr_poker.Server.Casino.Runtime.{Casino, Outcome, gives, throws, check_pin, login, Login}
use vr_poker.Server.Casino.Sessions.{Admitted, login-Admitted}
use vr_poker.Server.Casino.Rpc.{ret_of}
use vr_poker.Server.Casino.Calls.{
  Call, RpcReq, RpcRet, Session, logged, logs_in, logs_out, answer, returned,
}
use vr_poker.Server.Casino.Dispatch.{dispatch, handle_rpc}

pub data GatewayMessage : Type 0 where
  unauth_prompt : GatewayMessage
  invalid_req : ℕ → GatewayMessage
  rpc_ret : RpcRet → GatewayMessage
  look : ℕ → RoomDetails → GatewayMessage
  cmds : ℕ → CasinoCmds → GatewayMessage

-- `socket.data.session` after a call; only a login that is answered has a token
abbrev pub session_after : Call → RpcRet → Option Session → Option Session
session_after (logs_in u p) r session = elim r.ret [
  | inr (logged uid l) ↦ some record { uid = uid; pin = l.pin }
  | inr a ↦ session
  | inl e ↦ session
]
session_after logs_out r session = if r.err == 0 then none else session
session_after call r session = session

-- the user who is shown the room after a call
abbrev pub viewer_of : Option Session → Option Session → Option ℕ
viewer_of (some s) old = some s.uid
viewer_of none none = none
viewer_of none (some s) = some s.uid

module _ {L : Type 0} where
  -- the two notices on the table that the user looks at
  unfoldable pub notices : Option ℕ → Casino L → List GatewayMessage
  unfolding snapshot room_details cmds_for_actor
  notices none c = []
  notices (some uid) c = elim (lookup_in uid c.rooms) [
    | none ↦ []
    | some id ↦ elim (lookup_in id c.server.tables) [
      | none ↦ []
      | some t ↦
          let snap = snapshot (some uid) t in
          look uid (room_details (some uid) snap) ∷ cmds uid (cmds_for_actor snap) ∷ []
    ]
  ]

  abbrev pub replied :
      Call → Option Session → RpcRet × Casino L → (List GatewayMessage × Option Session) × Casino L
  replied call session (r, c) =
      let next = session_after call r session in
      ((rpc_ret r ∷ notices (viewer_of next session) c, next), c)

module _ {L : Type 0} (port : ChipLedgerPort L) (text_of name_of : ℕ → String) (room : ℕ)
    (uid_of length_of : ℕ → ℕ) (passwd fresh pin : ℕ) where
  -- the message "rpc"; `seq` is the number that a message without a call still has
  unfoldable pub on_rpc :
      ℕ
      → Option RpcReq
      → Option Session
      → Casino L
      → (List GatewayMessage × Option Session) × Casino L
  unfolding handle_rpc notices
  on_rpc seq none session c = ((invalid_req seq ∷ [], session), c)
  on_rpc seq (some req) session c =
      replied req.call session
        (handle_rpc port text_of name_of room uid_of length_of passwd fresh pin req session c)

  -- The session that a socket has after a message is the one that it had, or none, or one whose pin
  -- lets its user in.
  abbrev pub SessionAfter :
      Option Session → (List GatewayMessage × Option Session) × Casino L → Type 0
  SessionAfter session r =
      (r.0.1 ≡ session)
      ⊎ (r.0.1 ≡ none)
      ⊎ ((s : Session) × (r.0.1 ≡ some s) × (check_pin s.uid s.pin r.1 ≡ none))

  logged_session :
      (seq u : ℕ) (p : Option ℕ) (session : Option Session) (c : Casino L)
      (r : Outcome Login × Casino L)
      → Admitted port u p pin c r
      → SessionAfter session
          (replied (logs_in u p) session (returned seq (answer (logged u) (ret_of r))))
  logged_session seq u p session c (throws e, c') h = inl refl
  logged_session seq u p session c (gives l, c') h =
      inr (inr (record { uid = u; pin = l.pin }, refl, h.0))

  out_session :
      (session : Option Session) (r : RpcRet × Casino L)
      → SessionAfter session (replied logs_out session r)
  out_session session (r, c) = elim (Bool-cases (r.err == 0)) [
    | inl y ↦ rw y (inr (inl refl))
    | inr n ↦ rw n (inl refl)
  ]

  pub on_rpc-SessionAfter :
      (seq : ℕ) (req : Option RpcReq) (session : Option Session) (c : Casino L)
      → SessionAfter session (on_rpc seq req session c)
  unfolding on_rpc handle_rpc dispatch
  on_rpc-SessionAfter seq none session c = inl refl
  on_rpc-SessionAfter seq (some req) session c = go req.call refl
    where
      go : (call : Call) → req.call ≡ call → SessionAfter session (on_rpc seq (some req) session c)
      go (logs_in u p) e =
          rw (e, on_rpc, handle_rpc, dispatch)
            (logged_session req.seq u p session c (login port text_of u p fresh pin c)
              (login-Admitted port text_of u p fresh pin c))
      go logs_out e =
          rw (e, on_rpc)
            (out_session session (
              handle_rpc port text_of name_of room uid_of length_of passwd fresh pin
                (record req { call = logs_out }) session c))
      go call e = rw (e, on_rpc) (inl refl)

-- ===== src/Netcode/Received.antt =====
-- packages/netcode/src/client.ts: which state a client shows after any messages.
use vr_poker.Prelude.{
  ℕ, ◌≤◌, ◌<◌, ◌≡◌, ◌⊎◌, inl, inr, refl, ◌∙◌, Option, none, some, List, [], ◌∷◌, arith, ltb, All,
  Bool-cases, ◌==◌,
}
use vr_poker.Prelude.Int.{ℤ}
use vr_poker.Table.Snapshot.{TableSnapshot}
use vr_poker.Server.Room.State.{
  PresencePose, ServerMessage, welcome, state, presence, pong, left, error,
}
use vr_poker.Netcode.Client.{
  TableClient, server_now, sync_server_time, take_state, take_poses, handle_message, receive,
}

-- What comes with a message: its number, if it is a state.
abbrev pub seq_of : {P : Type 0} → ℕ × Option (ServerMessage P) → ℕ
seq_of (now, some (state seq snap)) = seq
seq_of _ = 0

module _ {P : Type 0} where
  -- The state stands among the messages, with its number.
  abbrev pub HasState : ℕ → TableSnapshot → List (ℕ × Option (ServerMessage P)) → Type 0
  HasState seq snap [] = ⊥
  HasState seq snap ((now, m) ∷ ms) = (m ≡ some (state seq snap)) ⊎ HasState seq snap ms

  -- No state among the messages has a higher number than the client; and the client has the state that
  -- it had, or one of the messages with its number.
  abbrev pub IsNewest : TableClient P → List (ℕ × Option (ServerMessage P)) → TableClient P → Type 0
  IsNewest c ms c' =
      All (λ m. seq_of m ≤ c'.seq) ms
      × (c.seq ≤ c'.seq)
      × (((c'.seq ≡ c.seq) × (c'.snapshot ≡ c.snapshot))
          ⊎ ((snap : TableSnapshot) × HasState c'.seq snap ms × (c'.snapshot ≡ some snap)))

  -- The number and the state are those of another client.
  abbrev SameState : TableClient P → TableClient P → Type 0
  SameState c c' = (c'.seq ≡ c.seq) × (c'.snapshot ≡ c.snapshot)

module _ {P : Type 0} (lerp : P → P → ℕ → ℕ → P) where
  poses-SameState :
      (at : ℤ) (poses : List (ℕ × PresencePose P)) (c : TableClient P)
      → SameState c (take_poses lerp at poses c)
  poses-SameState at [] c = (refl, refl)
  poses-SameState at ((player, pose) ∷ poses) c = elim (Bool-cases (player == c.player_id)) [
    | inl y ↦ rw y (poses-SameState at poses c)
    | inr n ↦ rw n (poses-SameState at poses _)
  ]

  -- A message that is no state, or is older than what the client has.
  same-IsNewest :
      (now : ℕ) (m : Option (ServerMessage P)) (c c' : TableClient P)
      → seq_of (now, m) ≤ c.seq
      → SameState c c'
      → IsNewest c ((now, m) ∷ []) c'
  same-IsNewest now m c c' h same =
      ((omega (arith, h, same.0), tt), omega (arith, same.0), inl same)

  presence-SameState :
      (now seq time : ℕ) (poses : List (ℕ × PresencePose P)) (c : TableClient P)
      → SameState c (handle_message lerp now (some (presence seq time poses)) c)
  unfolding handle_message sync_server_time
  presence-SameState now seq time poses c = elim (Bool-cases (time == 0)) [
    | inl y ↦ rw (handle_message, y) (poses-SameState (server_now now c) poses c)
    | inr n ↦
        let synced = sync_server_time now time c in
        rw (handle_message, n) (poses-SameState (server_now now synced) poses synced)
  ]

  -- One message.
  message-IsNewest :
      (now : ℕ) (m : Option (ServerMessage P)) (c : TableClient P)
      → IsNewest c ((now, m) ∷ []) (handle_message lerp now m c)
  unfolding handle_message sync_server_time
  message-IsNewest now none c = same-IsNewest now none c c (omega arith) (refl, refl)
  message-IsNewest now (some (welcome table player time)) c =
      same-IsNewest now (some (welcome table player time)) c
        (handle_message lerp now (some (welcome table player time)) c) (omega arith) (refl, refl)
  message-IsNewest now (some (pong time)) c =
      same-IsNewest now (some (pong time)) c (handle_message lerp now (some (pong time)) c)
        (omega arith) (refl, refl)
  message-IsNewest now (some (state seq snap)) c = elim (Bool-cases (ltb seq c.seq)) [
    | inl y ↦
        rw (take_state, y)
          (same-IsNewest now (some (state seq snap)) c c (ground (arith, y)) (refl, refl))
    | inr n ↦ rw (take_state, n) ((omega arith, tt), ground (arith, n), inr (snap, inl refl, refl))
  ]
  message-IsNewest now (some (presence seq time poses)) c =
      same-IsNewest now (some (presence seq time poses)) c
        (handle_message lerp now (some (presence seq time poses)) c) (omega arith)
        (presence-SameState now seq time poses c)
  message-IsNewest now (some (left player chips)) c =
      same-IsNewest now (some (left player chips)) c
        (handle_message lerp now (some (left player chips)) c) (omega arith) (refl, refl)
  message-IsNewest now (some (error e)) c =
      same-IsNewest now (some (error e)) c (handle_message lerp now (some (error e)) c)
        (omega arith) (refl, refl)

  All-below :
      (a b : ℕ) (ms : List (ℕ × Option (ServerMessage P)))
      → a ≤ b
      → All (λ m. seq_of m < a) ms
      → All (λ m. seq_of m < b) ms
  All-below a b [] h k = tt
  All-below a b (m ∷ ms) h k = (omega (arith, h, k.0), All-below a b ms h k.1)

  followed :
      (m : ℕ × Option (ServerMessage P)) (ms : List (ℕ × Option (ServerMessage P)))
      (c d e : TableClient P)
      → IsNewest c (m ∷ []) d
      → IsNewest d ms e
      → IsNewest c (m ∷ ms) e
  followed m ms c d e one rest = (
    (omega (arith, one.0.0, rest.1), rest.0),
    omega (arith, one.1, rest.1),
    elim rest.2 [
      | inr (snap, there, shown) ↦ inr (snap, inr there, shown)
      | inl (same, kept) ↦ elim one.2 [
        | inl (before, old) ↦ inl (same ∙ before, kept ∙ old)
        | inr (snap, here, shown) ↦ elim here [
          | inl is ↦ inr (snap, inl (rw same is), kept ∙ shown)
          | inr none_left ↦ absurd none_left
        ]
      ]
    ],
  )

  -- After any messages, no state among them has a higher number than the client, whose own number never
  -- falls; and the client shows the state it had, with its number, or one of the messages with this
  -- highest number.
  pub receive-IsNewest :
      (ms : List (ℕ × Option (ServerMessage P))) (c : TableClient P)
      → IsNewest c ms (receive lerp ms c)
  receive-IsNewest [] c = (tt, omega arith, inl (refl, refl))
  receive-IsNewest ((now, m) ∷ ms) c =
      let d = handle_message lerp now m c in
      followed (now, m) ms c d (receive lerp ms d) (message-IsNewest now m c)
        (receive-IsNewest ms d)

  no_state :
      (seq : ℕ) (snap : TableSnapshot) (ms : List (ℕ × Option (ServerMessage P)))
      → All (λ m. seq_of m < seq) ms
      → HasState seq snap ms
      → ⊥
  no_state seq snap [] h k = k
  no_state seq snap ((now, m) ∷ ms) h (inl e) =
      let low : seq_of (now, m) < seq = h.0 in
      absurd (let same = rw e at low in omega (arith, same))
  no_state seq snap ((now, m) ∷ ms) h (inr k) = no_state seq snap ms h.1 k

  -- A client keeps the state that it shows as long as every message has a lower number, as it is where
  -- a server that has started again counts from the beginning.
  pub restart_unseen :
      (ms : List (ℕ × Option (ServerMessage P))) (c : TableClient P)
      → All (λ m. seq_of m < c.seq) ms
      → (receive lerp ms c).snapshot ≡ c.snapshot
  restart_unseen ms c h =
      let c' = receive lerp ms c in
      let newest = receive-IsNewest ms c in
      elim newest.2 [
        | inl same ↦ same.1
        | inr (snap, there, shown) ↦
            absurd (no_state c'.seq snap ms (All-below c.seq c'.seq ms newest.1 h) there)
      ]

-- ===== src/DealRng/Closed.antt =====
-- services/deal-rng/src/service.ts: what is reached by calls, and a hand that is closed.
use vr_poker.Prelude.{
  ℕ, ◌≡◌, inl, inr, refl, ap, ◌∙◌, sym, Bool, true, false, Option, none, some, List, ◌==◌,
  Bool-cases, Option-cases, get_elem?, arith,
}
use vr_poker.Prelude.Maps.{lookup_in}
use vr_poker.Deal.{Buffer, range, fisher_yates, cards_of}
use vr_poker.Deal.Verify.{checked, cards_of-ids}
use vr_poker.DealRng.{
  DrawKind, HandResult, hand_close, LiveHand, DealRng, hand_id_used, hand_not_found, latest_close,
  close_of, ok, err,
}
use vr_poker.DealRng.Service.{
  Extra, public_result, draw, peek_public, open_new, id_or, open_hand, result_of, closed_with,
  close_live, close,
}
use vr_poker.DealRng.History.{latest_close-snoc}
use vr_poker.DealRng.Sound.{IsSound, LiveOk, draw-IsSound, open_hand-IsSound, close-IsSound}

module _ (sha256 : List Buffer → Buffer) (fuel : ℕ) (to_hex from_hex : Buffer → Buffer) where
  -- a call of the service that changes it, whatever its arguments, the bytes drawn and the time
  pub data Step : DealRng → DealRng → Type 0 where
    opens :
        (fresh now : ℕ) (seed nonce : Buffer) (hand table : Option ℕ) (s : DealRng)
        → Step s (open_hand sha256 fuel to_hex fresh now seed nonce hand table s).1
    draws : (id : ℕ) (kind : DrawKind) (s : DealRng) → Step s (draw id kind s).1
    closes :
        (now id : ℕ) (extra : Extra) (s : DealRng)
        → Step s (close sha256 fuel to_hex from_hex now id extra s).1

  pub data Reaches (s : DealRng) : DealRng → Type 0 where
    stays : Reaches s s
    goes_on : {t u : DealRng} → Reaches s t → Step t u → Reaches s u

  step-IsSound :
      {s t : DealRng}
      → Step s t
      → IsSound sha256 fuel to_hex from_hex s
      → IsSound sha256 fuel to_hex from_hex t
  step-IsSound (opens fresh now seed nonce hand table s) h =
      open_hand-IsSound sha256 fuel to_hex from_hex fresh now seed nonce hand table s h
  step-IsSound (draws id kind s) h = draw-IsSound sha256 fuel to_hex from_hex id kind s h
  step-IsSound (closes now id extra s) h =
      close-IsSound sha256 fuel to_hex from_hex now id extra s h

  -- After any calls of a service that is as it should be: no id is live twice; the deck of a live hand
  -- is the shuffle of its seed and nonce, its commitment is theirs, and its draws are the first cards
  -- of the deck; a hand that is live has no close in the history; and the result of every close in the
  -- history has the first cards of its deck for its draws, and verifies against its commitment.
  pub reached-IsSound :
      {s t : DealRng}
      → Reaches s t
      → IsSound sha256 fuel to_hex from_hex s
      → IsSound sha256 fuel to_hex from_hex t
  reached-IsSound stays h = h
  reached-IsSound (goes_on r step) h = step-IsSound step (reached-IsSound r h)

  module _ (id : ℕ) (r : HandResult) where
    draw_kept : (i : ℕ) (kind : DrawKind) (s : DealRng) → (draw i kind s).1.history ≡ s.history
    unfolding draw
    draw_kept i kind s = elim (Option-cases (lookup_in i s.live)) [
      | inl e ↦ rw (draw, e) refl
      | inr (h, e) ↦ elim (Option-cases (get_elem? h.deck h.cursor)) [
        | inl f ↦ rw (draw, e, f) refl
        | inr (card, f) ↦ rw (draw, e, f) refl
      ]
    ]

    open_new_kept :
        (i now : ℕ) (seed nonce : Buffer) (table : Option ℕ) (s : DealRng)
        → latest_close id s.history ≡ some r
        → latest_close id (open_new sha256 fuel to_hex i table now seed nonce s).1.history ≡ some r
    open_new_kept i now seed nonce table s c =
        elim (Option-cases (fisher_yates sha256 fuel (range 0 52) seed nonce)) [
          | inl g ↦ rw (open_new, g) c
          | inr (order, g) ↦ elim (Option-cases (cards_of order)) [
            | inl d ↦ rw (open_new, g, d) c
            | inr (deck, d) ↦ rw (open_new, g, d) (latest_close-snoc id s.history _ ∙ c)
          ]
        ]

    -- the close of a hand without a close is the close of another hand
    live_kept :
        (now i : ℕ) (extra : Extra) (h : LiveHand) (s : DealRng)
        → latest_close i s.history ≡ none
        → latest_close id s.history ≡ some r
        → (v : Option Bool)
        → latest_close id (close_live sha256 fuel to_hex now i extra h s v).1.history ≡ some r
    live_kept now i extra h s e c none = c
    live_kept now i extra h s e c (some false) = c
    live_kept now i extra h s e c (some true) = elim (Bool-cases (i == id)) [
      | inl y ↦
          let same : i ≡ id = ground (arith, y) in
          absurd (let free = rw same at e in let no : none ≡ some r = sym free ∙ c in cc)
      | inr n ↦
          let event = hand_close now i (result_of to_hex now extra h) in
          let other : close_of id event ≡ none = rw n refl in
          latest_close-snoc id s.history event ∙ rw other c
    ]

    step_kept :
        {s t : DealRng}
        → Step s t
        → latest_close id s.history ≡ some r
        → latest_close id t.history ≡ some r
    unfolding open_hand close
    step_kept (opens fresh now seed nonce hand table s) c =
        elim (Option-cases (lookup_in (id_or hand fresh) s.live)) [
          | inr (h, e) ↦ rw (open_hand, e) c
          | inl e ↦ elim (Option-cases (latest_close (id_or hand fresh) s.history)) [
            | inr (q, f) ↦ rw (open_hand, e, f) c
            | inl f ↦
                rw (open_hand, e, f) (open_new_kept (id_or hand fresh) now seed nonce table s c)
          ]
        ]
    step_kept (draws i kind s) c = rw (draw_kept i kind s) c
    step_kept (closes now i extra s) c = elim (Option-cases (latest_close i s.history)) [
      | inr (q, e) ↦ rw (close, e) c
      | inl e ↦ elim (Option-cases (lookup_in i s.live)) [
        | inl f ↦ rw (close, e, f) c
        | inr (h, f) ↦ rw (close, e, f) (live_kept now i extra h s e c _)
      ]
    ]

    reached_kept :
        {s t : DealRng}
        → Reaches s t
        → latest_close id s.history ≡ some r
        → latest_close id t.history ≡ some r
    reached_kept stays c = c
    reached_kept (goes_on way step) c = step_kept step (reached_kept way c)

    -- What a service answers about a hand that was closed.
    abbrev pub AnswersClosed : DealRng → Type 0
    AnswersClosed t =
        (peek_public id t ≡ ok (public_result id r))
        × ((now : ℕ) (extra : Extra) → close sha256 fuel to_hex from_hex now id extra t ≡ (ok r, t))
        × ((kind : DrawKind) → draw id kind t ≡ (err hand_not_found, t))
        × ((fresh now : ℕ) (seed nonce : Buffer) (table : Option ℕ)
            → open_hand sha256 fuel to_hex fresh now seed nonce (some id) table t
              ≡ (err hand_id_used, t))

    not_live :
        (t : DealRng)
        → IsSound sha256 fuel to_hex from_hex t
        → latest_close id t.history ≡ some r
        → lookup_in id t.live ≡ none
    not_live t sound c = elim (Option-cases (lookup_in id t.live)) [
      | inl e ↦ e
      | inr (h, e) ↦ let no : none ≡ some r = sym (sound.live_ok id h e).1 ∙ c in absurd cc
    ]

    answers_closed :
        (t : DealRng)
        → IsSound sha256 fuel to_hex from_hex t
        → latest_close id t.history ≡ some r
        → AnswersClosed t
    unfolding peek_public close draw open_hand
    answers_closed t sound c =
        let gone = not_live t sound c in
        (
          rw (peek_public, c) refl,
          (λ now extra. rw (close, c) refl),
          (λ kind. rw (draw, gone) refl),
          (λ fresh now seed nonce table. rw (open_hand, gone, c) refl),
        )

  close_result :
      (now id : ℕ) (extra : Extra) (h : LiveHand) (s : DealRng)
      → LiveOk sha256 fuel to_hex from_hex id h
      → latest_close id s.history ≡ none
      → lookup_in id s.live ≡ some h
      → from_hex (to_hex h.seed) ≡ h.seed
      → from_hex (to_hex h.nonce) ≡ h.nonce
      → close sha256 fuel to_hex from_hex now id extra s
        ≡ closed_with now id (result_of to_hex now extra h) s
  unfolding close
  close_result now id extra h s good free e hs hn =
      let yes =
        checked sha256 fuel to_hex from_hex (to_hex h.seed) (to_hex h.nonce) h.commitment good.order
          h.deck (rw (hs, hn) (sym good.committed)) (rw (hs, hn) good.shuffled)
          (cards_of-ids good.order h.deck good.dealt) in
      rw (close, free, e, yes) refl

  -- A live hand of a sound service can be closed, where the hexadecimal texts of its seed and nonce
  -- read back as these: the call gives its result. In every state that calls then reach, the service
  -- answers a look at the hand and a further close with this result, and it refuses to draw from the
  -- hand and to open another one under its id.
  pub closed_for_good :
      (now id : ℕ) (extra : Extra) (h : LiveHand) (s t : DealRng)
      → IsSound sha256 fuel to_hex from_hex s
      → lookup_in id s.live ≡ some h
      → from_hex (to_hex h.seed) ≡ h.seed
      → from_hex (to_hex h.nonce) ≡ h.nonce
      → Reaches (close sha256 fuel to_hex from_hex now id extra s).1 t
      → ((close sha256 fuel to_hex from_hex now id extra s).0 ≡ ok (result_of to_hex now extra h))
        × AnswersClosed id (result_of to_hex now extra h) t
  closed_for_good now id extra h s t sound e hs hn way =
      let (good, free) = sound.live_ok id h e in
      let r = result_of to_hex now extra h in
      let shut = close_result now id extra h s good free e hs hn in
      let after = close-IsSound sha256 fuel to_hex from_hex now id extra s sound in
      let self : close_of id (hand_close now id r) ≡ some r = ground arith in
      let recorded : latest_close id (closed_with now id r s).1.history ≡ some r =
        latest_close-snoc id s.history (hand_close now id r) ∙ rw self refl in
      (
        ap (λ p. p.0) shut,
        answers_closed id r t (reached-IsSound way after)
            (reached_kept id r way (rw shut recorded)),
      )

-- ===== src/DealRng/Sound.antt =====
-- services/deal-rng/src/service.ts: what holds of the service after any calls.
use vr_poker.Prelude.{
  ℕ, ◌+◌, ◌≡◌, inl, inr, refl, sym, ◌∙◌, Bool, true, false, Option, none, some, List, [], ◌∷◌, ◌++◌,
  map, length, get_elem?, arith, length-append, get_elem?-map, All, All-append, Option-cases,
}
use vr_poker.Prelude.Maps.{
  lookup_in, Distinct, lookup_in-kept, write_in-each, write_in-Distinct, erase_in-Distinct,
}
use vr_poker.Cards.{Card, format_card}
use vr_poker.Deal.{Buffer, range, commit_seed, fisher_yates, cards_of, verify_shuffle}
use vr_poker.DealRng.{
  DrawKind, HandResult, HistoryEvent, hand_open, hand_close, LiveHand, DealRng, latest_close,
  close_of,
}
use vr_poker.DealRng.Service.{
  Extra, drawn, hand_after, draw, new_hand, opened, open_new, id_or, open_hand, result_of,
  closed_with, close_live, close,
}
use vr_poker.DealRng.History.{latest_close-snoc, DrawsFrom, DrawsFrom-snoc}

module _ (sha256 : List Buffer → Buffer) (fuel : ℕ) (to_hex from_hex : Buffer → Buffer) where
  -- A live hand: its deck is the shuffle of its seed and nonce, its commitment is theirs, and its draws
  -- are the first cards of the deck, as many as its cursor says.
  pub record LiveOk (id : ℕ) (h : LiveHand) : Type 0 where
    pub same_id : h.hand_id ≡ id
    pub counted : h.cursor ≡ length h.draws
    pub in_order : DrawsFrom 0 (map format_card h.deck) h.draws
    pub order : List ℕ
    pub shuffled : fisher_yates sha256 fuel (range 0 52) h.seed h.nonce ≡ some order
    pub dealt : cards_of order ≡ some h.deck
    pub committed : h.commitment ≡ commit_seed sha256 to_hex h.seed h.nonce

  -- A result: its draws are the first cards of its deck, which its seed and nonce verify against its
  -- commitment.
  abbrev pub ResultOk : HandResult → Type 0
  ResultOk r =
      DrawsFrom 0 r.deck_order r.draws
      × ((deck : List Card) × (r.deck_order ≡ map format_card deck)
          × (verify_shuffle sha256 fuel to_hex from_hex r.seed r.nonce r.commitment deck
              ≡ some true))

  abbrev pub EventOk : HistoryEvent → Type 0
  EventOk (hand_open at id table commitment) = Unit
  EventOk (hand_close at id r) = (r.hand_id ≡ id) × ResultOk r

  -- No id is live twice; a live hand is as it should be and has no close in the history; and every close
  -- in the history has a result that verifies.
  pub record IsSound (s : DealRng) : Type 0 where
    pub distinct : Distinct s.live
    pub live_ok :
        (id : ℕ) (h : LiveHand)
        → lookup_in id s.live ≡ some h
        → LiveOk id h × (latest_close id s.history ≡ none)
    pub events_ok : All EventOk s.history

  drawn-LiveOk :
      (id : ℕ) (h : LiveHand) (kind : DrawKind) (card : Card)
      → LiveOk id h
      → get_elem? h.deck h.cursor ≡ some card
      → LiveOk id (hand_after (drawn kind card h) h)
  drawn-LiveOk id h kind card good f =
      let d = drawn kind card h in
      let at : get_elem? (map format_card h.deck) h.cursor ≡ some (format_card card) =
        get_elem?-map format_card h.deck h.cursor card f in
      let place : h.cursor ≡ 0 + length h.draws = omega (arith, good.counted) in
      let more : length (h.draws ++ (d ∷ [])) ≡ length h.draws + 1 =
        length-append h.draws (d ∷ []) in
      record {
        same_id = good.same_id;
        counted = omega (arith, more, good.counted);
        in_order =
            DrawsFrom-snoc 0 (map format_card h.deck) h.draws d good.in_order place
              (rw (sym place) at);
        order = good.order;
        shuffled = good.shuffled;
        dealt = good.dealt;
        committed = good.committed;
      }

  opened-IsSound :
      (h : LiveHand) (s : DealRng)
      → latest_close h.hand_id s.history ≡ none
      → LiveOk h.hand_id h
      → IsSound s
      → IsSound (opened h s).1
  opened-IsSound h s free good ok_s =
      let e = hand_open h.opened_at h.hand_id h.table_id h.commitment in
      let same : (i : ℕ) → latest_close i (s.history ++ (e ∷ [])) ≡ latest_close i s.history =
        λ i. latest_close-snoc i s.history e in
      record {
        distinct = write_in-Distinct h.hand_id h s.live ok_s.distinct;
        live_ok =
            write_in-each (λ i k. LiveOk i k × (latest_close i (s.history ++ (e ∷ [])) ≡ none))
              h.hand_id h s.live (good, same h.hand_id ∙ free)
              (λ i k f. ((ok_s.live_ok i k f).0, same i ∙ (ok_s.live_ok i k f).1));
        events_ok = All-append EventOk s.history (e ∷ []) ok_s.events_ok (tt, tt);
      }

  pub draw-IsSound :
      (id : ℕ) (kind : DrawKind) (s : DealRng) → IsSound s → IsSound (draw id kind s).1
  unfolding draw
  draw-IsSound id kind s ok_s = elim (Option-cases (lookup_in id s.live)) [
    | inl e ↦ rw (draw, e) ok_s
    | inr (h, e) ↦ elim (Option-cases (get_elem? h.deck h.cursor)) [
      | inl f ↦ rw (draw, e, f) ok_s
      | inr (card, f) ↦
          let d = drawn kind card h in
          let (good, open_still) = ok_s.live_ok id h e in
          rw (draw, e, f)
            record {
              distinct = write_in-Distinct id (hand_after d h) s.live ok_s.distinct;
              live_ok =
                  write_in-each (λ i k. LiveOk i k × (latest_close i s.history ≡ none)) id
                    (hand_after d h) s.live (drawn-LiveOk id h kind card good f, open_still)
                    ok_s.live_ok;
              events_ok = ok_s.events_ok;
            }
    ]
  ]

  open_new-IsSound :
      (id now : ℕ) (seed nonce : Buffer) (table : Option ℕ) (s : DealRng)
      → latest_close id s.history ≡ none
      → IsSound s
      → IsSound (open_new sha256 fuel to_hex id table now seed nonce s).1
  open_new-IsSound id now seed nonce table s f ok_s =
      elim (Option-cases (fisher_yates sha256 fuel (range 0 52) seed nonce)) [
        | inl g ↦ rw (open_new, g) ok_s
        | inr (order, g) ↦ elim (Option-cases (cards_of order)) [
          | inl c ↦ rw (open_new, g, c) ok_s
          | inr (deck, c) ↦
              rw (open_new, g, c)
                (opened-IsSound (new_hand sha256 fuel to_hex id table now seed nonce deck) s f
                  record {
                    same_id = refl;
                    counted = refl;
                    in_order = tt;
                    order = order;
                    shuffled = g;
                    dealt = c;
                    committed = refl;
                  }
                  ok_s)
        ]
      ]

  pub open_hand-IsSound :
      (fresh now : ℕ) (seed nonce : Buffer) (hand table : Option ℕ) (s : DealRng)
      → IsSound s
      → IsSound (open_hand sha256 fuel to_hex fresh now seed nonce hand table s).1
  unfolding open_hand
  open_hand-IsSound fresh now seed nonce hand table s ok_s =
      let id = id_or hand fresh in
      elim (Option-cases (lookup_in id s.live)) [
        | inr (h, e) ↦ rw (open_hand, e) ok_s
        | inl e ↦ elim (Option-cases (latest_close id s.history)) [
          | inr (r, f) ↦ rw (open_hand, e, f) ok_s
          | inl f ↦ rw (open_hand, e, f) (open_new-IsSound id now seed nonce table s f ok_s)
        ]
      ]

  closed-IsSound :
      (id now : ℕ) (r : HandResult) (s : DealRng)
      → r.hand_id ≡ id
      → ResultOk r
      → IsSound s
      → IsSound (closed_with now id r s).1
  closed-IsSound id now r s same good ok_s =
      let e = hand_close now id r in
      record {
        distinct = erase_in-Distinct id s.live ok_s.distinct;
        live_ok = λ i k f.
            let (apart, there) = lookup_in-kept id s.live i k ok_s.distinct f in
            let (live, free) = ok_s.live_ok i k there in
            let other : close_of i e ≡ none = rw apart refl in
            (live, latest_close-snoc i s.history e ∙ rw (other, free) refl);
        events_ok = All-append EventOk s.history (e ∷ []) ok_s.events_ok ((same, good), tt);
      }

  verified-IsSound :
      (now id : ℕ) (extra : Extra) (h : LiveHand) (s : DealRng)
      → LiveOk id h
      → IsSound s
      → (v : Option Bool)
      → verify_shuffle sha256 fuel to_hex from_hex
          (to_hex h.seed)
          (to_hex h.nonce)
          h.commitment
          h.deck
        ≡ v
      → IsSound (close_live sha256 fuel to_hex now id extra h s v).1
  verified-IsSound now id extra h s good ok_s none e = ok_s
  verified-IsSound now id extra h s good ok_s (some false) e = ok_s
  verified-IsSound now id extra h s good ok_s (some true) e =
      closed-IsSound id now (result_of to_hex now extra h) s good.same_id
        (good.in_order, (h.deck, refl, e)) ok_s

  pub close-IsSound :
      (now id : ℕ) (extra : Extra) (s : DealRng)
      → IsSound s
      → IsSound (close sha256 fuel to_hex from_hex now id extra s).1
  unfolding close
  close-IsSound now id extra s ok_s = elim (Option-cases (latest_close id s.history)) [
    | inr (r, e) ↦ rw (close, e) ok_s
    | inl e ↦ elim (Option-cases (lookup_in id s.live)) [
      | inl f ↦ rw (close, e, f) ok_s
      | inr (h, f) ↦
          rw (close, e, f) (verified-IsSound now id extra h s (ok_s.live_ok id h f).0 ok_s _ refl)
    ]
  ]

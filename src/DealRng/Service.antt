-- ===== src/DealRng/Service.antt =====
-- services/deal-rng/src/service.ts: `DealRngService`. SHA-256, the conversions to and from hexadecimal
-- texts, the random bytes and ids and the clock are arguments.
use vr_poker.Prelude.{
  ℕ, suc, Bool, true, false, Option, none, some, List, [], ◌∷◌, ◌++◌, map, length, keep, get_elem?,
  if◌then◌else◌,
}
use vr_poker.Prelude.Maps.{lookup_in, write_in, erase_in}
use vr_poker.Cards.{Card, format_card}
use vr_poker.Deal.{Buffer, range, commit_seed, fisher_yates, cards_of, verify_shuffle}
use vr_poker.DealRng.{
  DrawKind, DrawnCard, HandResult, hand_open, hand_close, LiveHand, DealRng, hand_id_used,
  deck_exhausted, hand_not_found, verification_failed, internal, out_of_blocks, Result, ok, err,
  latest_close, next, burn,
}

pub record Opened : Type 0 where
  pub hand_id : ℕ
  pub table_id : Option ℕ
  pub commitment : Buffer
  pub opened_at : ℕ

pub record PublicHand : Type 0 where
  pub hand_id : ℕ
  pub table_id : Option ℕ
  pub commitment : Buffer
  pub opened_at : ℕ
  pub closed : Bool
  pub draw_count : ℕ
  pub result : Option HandResult

-- what a client says of the cards when it closes a hand
pub record Extra : Type 0 where
  pub hole_cards : Option (List (ℕ × List (List ℕ)))
  pub board_cards : Option (List (List ℕ))

abbrev pub is_in : {A : Type 0} → Option A → Bool
is_in none = false
is_in (some a) = true

abbrev pub is_burn : DrawnCard → Bool
is_burn d = elim d.kind [ burn ↦ true | next ↦ false ]

-- a hand after its next card was drawn
abbrev pub drawn : DrawKind → Card → LiveHand → DrawnCard
drawn kind card h = record { index = h.cursor; kind = kind; card = format_card card }

abbrev pub hand_after : DrawnCard → LiveHand → LiveHand
hand_after d h = record h { cursor = suc h.cursor; draws = h.draws ++ (d ∷ []) }

unfoldable pub draw : ℕ → DrawKind → DealRng → Result DrawnCard × DealRng
unfolding format_card
draw id kind s = elim (lookup_in id s.live) [
  | none ↦ (err hand_not_found, s)
  | some h ↦ elim (get_elem? h.deck h.cursor) [
    | none ↦ (err deck_exhausted, s)
    | some card ↦
        let d = drawn kind card h in (ok d, record s { live = write_in id (hand_after d h) s.live })
  ]
]

abbrev pub public_result : ℕ → HandResult → PublicHand
public_result id r = record {
  hand_id = id;
  table_id = r.table_id;
  commitment = r.commitment;
  opened_at = r.opened_at;
  closed = true;
  draw_count = length r.draws;
  result = some r;
}

abbrev pub public_live : LiveHand → PublicHand
public_live h = record {
  hand_id = h.hand_id;
  table_id = h.table_id;
  commitment = h.commitment;
  opened_at = h.opened_at;
  closed = false;
  draw_count = length h.draws;
  result = none;
}

unfoldable pub peek_public : ℕ → DealRng → Result PublicHand
peek_public id s = elim (latest_close id s.history) [
  | some r ↦ ok (public_result id r)
  | none ↦ elim (lookup_in id s.live) [ none ↦ err hand_not_found | some h ↦ ok (public_live h) ]
]

abbrev pub id_or : Option ℕ → ℕ → ℕ
id_or none fresh = fresh
id_or (some id) fresh = id

abbrev pub opened : LiveHand → DealRng → Result Opened × DealRng
opened h s = (
  ok record {
    hand_id = h.hand_id;
    table_id = h.table_id;
    commitment = h.commitment;
    opened_at = h.opened_at;
  },
  record {
    live = write_in h.hand_id h s.live;
    history = s.history ++ (hand_open h.opened_at h.hand_id h.table_id h.commitment ∷ []);
  },
)

abbrev pub result_of : (Buffer → Buffer) → ℕ → Extra → LiveHand → HandResult
result_of to_hex now extra h = record {
  hand_id = h.hand_id;
  table_id = h.table_id;
  opened_at = h.opened_at;
  closed_at = now;
  commitment = h.commitment;
  seed = to_hex h.seed;
  nonce = to_hex h.nonce;
  deck_order = map format_card h.deck;
  draws = h.draws;
  hole_cards = extra.hole_cards;
  board_cards = extra.board_cards;
  burn_cards = map (λ d. d.card) (keep is_burn h.draws);
  verified = true;
}

abbrev pub closed_with : ℕ → ℕ → HandResult → DealRng → Result HandResult × DealRng
closed_with now id r s =
    (ok r, record { live = erase_in id s.live; history = s.history ++ (hand_close now id r ∷ []) })

module _ (sha256 : List Buffer → Buffer) (fuel : ℕ) (to_hex : Buffer → Buffer) where
  abbrev pub new_hand : ℕ → Option ℕ → ℕ → Buffer → Buffer → List Card → LiveHand
  new_hand id table now seed nonce deck = record {
    hand_id = id;
    table_id = table;
    opened_at = now;
    commitment = commit_seed sha256 to_hex seed nonce;
    seed = seed;
    nonce = nonce;
    deck = deck;
    cursor = 0;
    draws = [];
  }

  abbrev pub open_new : ℕ → Option ℕ → ℕ → Buffer → Buffer → DealRng → Result Opened × DealRng
  open_new id table now seed nonce s = elim (fisher_yates sha256 fuel (range 0 52) seed nonce) [
    | none ↦ (err out_of_blocks, s)
    | some order ↦ elim (cards_of order) [
      | none ↦ (err internal, s)
      | some deck ↦ opened (new_hand id table now seed nonce deck) s
    ]
  ]

  -- `open`; `fresh` is the id that is drawn for a hand without one
  unfoldable pub open_hand :
      ℕ → ℕ → Buffer → Buffer → Option ℕ → Option ℕ → DealRng → Result Opened × DealRng
  unfolding commit_seed fisher_yates cards_of
  open_hand fresh now seed nonce hand table s =
      let id = id_or hand fresh in
      if is_in (lookup_in id s.live)
      then (err hand_id_used, s)
      else if is_in (latest_close id s.history)
      then (err hand_id_used, s)
      else open_new id table now seed nonce s

  -- the close of a hand that is live, for the outcome of its verification
  abbrev pub close_live :
      ℕ → ℕ → Extra → LiveHand → DealRng → Option Bool → Result HandResult × DealRng
  close_live now id extra h s none = (err out_of_blocks, s)
  close_live now id extra h s (some false) = (err verification_failed, s)
  close_live now id extra h s (some true) = closed_with now id (result_of to_hex now extra h) s

  unfoldable pub close : (Buffer → Buffer) → ℕ → ℕ → Extra → DealRng → Result HandResult × DealRng
  unfolding verify_shuffle format_card
  close from_hex now id extra s = elim (latest_close id s.history) [
    | some r ↦ (ok r, s)
    | none ↦ elim (lookup_in id s.live) [
      | none ↦ (err hand_not_found, s)
      | some h ↦ close_live now id extra h s (
          verify_shuffle sha256 fuel to_hex from_hex (to_hex h.seed) (to_hex h.nonce) h.commitment
            h.deck)
    ]
  ]

-- ===== src/Table/Snapshot.antt =====
-- packages/core/src/table.ts: `snapshot`, and `fixedDeal`; packages/core/src/types.ts:
-- `PublicPlayer` and `TableSnapshot`.
use Prim.Native.String.{String}
use vr_poker.Prelude.{
  ℕ, suc, ◌+◌, ◌-◌, ◌≡◌, ◌⊎◌, inl, inr, refl, Bool, true, false, ◌&&◌, ◌||◌, not, Option, none,
  some, List, [], ◌∷◌, map, length, drop, arith, ◌==◌, All, Bool-cases,
}
use vr_poker.Prelude.Sums.{sum_of}
use vr_poker.Cards.{Card, format_card, parse_cards}
use vr_poker.Table.State.{
  Table, Seat, HandDeal, Street, LegalAction, Award, Event, waiting, showdown, payout, dealing,
  preflop, flop, turn, river,
}
use vr_poker.Table.Seats.{Seats, occupied}
use vr_poker.Table.Legal.{legal_actions}

pub record PublicPlayer : Type 0 where
  pub player_id : Option ℕ
  pub name : String
  pub seat : ℕ
  pub stack : ℕ
  pub street_commit : ℕ
  pub hand_commit : ℕ
  pub folded : Bool
  pub is_all_in : Bool
  pub sitting_out : Bool
  pub hole : Option (List (List ℕ))

pub record TableSnapshot : Type 0 where
  pub table_id : ℕ
  pub street : Street
  pub hand_id : ℕ
  pub button_seat : Option ℕ
  pub to_act_seat : Option ℕ
  pub current_bet : ℕ
  pub min_raise_to : ℕ
  pub pot : ℕ
  pub board : List (List ℕ)
  pub burns : List (List ℕ)
  pub commitment : Option String
  pub reveal : Option (String × String)
  pub players : List PublicPlayer
  pub legal : List LegalAction
  pub last_events : List Event
  pub winners : Option (List Award)

abbrev pub is_showdown : Street → Bool
is_showdown showdown = true
is_showdown _ = false

-- `showAll`
abbrev pub shows_all : Street → Bool
shows_all waiting = true
shows_all showdown = true
shows_all payout = true
shows_all _ = false

abbrev pub is_viewer : Option ℕ → ℕ → Bool
is_viewer none id = false
is_viewer (some v) id = id == v

-- An empty list of hole cards is not sent.
abbrev pub sent_hole : Bool → List Card → Option (List (List ℕ))
sent_hole false hole = none
sent_hole true [] = none
sent_hole true (c ∷ cs) = some (map format_card (c ∷ cs))

-- the empty seat, whose player has the empty id
abbrev pub no_player : ℕ → PublicPlayer
no_player seat = record {
  player_id = none;
  name = "";
  seat = seat;
  stack = 0;
  street_commit = 0;
  hand_commit = 0;
  folded = true;
  is_all_in = false;
  sitting_out = false;
  hole = none;
}

abbrev pub public_player : Street → Option ℕ → ℕ → Seat → PublicPlayer
public_player street viewer seat p =
    let reveal_hole =
      shows_all street || is_viewer viewer p.player_id || (is_showdown street && not p.folded) in
    record {
      player_id = some p.player_id;
      name = p.name;
      seat = seat;
      stack = p.stack;
      street_commit = p.street_commit;
      hand_commit = p.hand_commit;
      folded = p.folded;
      is_all_in = p.is_all_in;
      sitting_out = p.sitting_out;
      hole = sent_hole reveal_hole p.hole;
    }

abbrev pub players_from : Street → Option ℕ → ℕ → Seats → List PublicPlayer
players_from street viewer i [] = []
players_from street viewer i (none ∷ seats) = no_player i ∷ players_from street viewer (suc i) seats
players_from street viewer i (some p ∷ seats) =
    public_player street viewer i p ∷ players_from street viewer (suc i) seats

abbrev pub reveal_of : Street → Option HandDeal → Option (String × String)
reveal_of waiting (some d) = some (d.seed, d.nonce)
reveal_of _ _ = none

abbrev pub legal_of : Table → Option ℕ → List LegalAction
legal_of t none = []
legal_of t (some v) = legal_actions t v

unfoldable pub snapshot : Option ℕ → Table → TableSnapshot
unfolding occupied legal_actions
snapshot viewer t = record {
  table_id = t.table_id;
  street = t.street;
  hand_id = t.hand_id;
  button_seat = t.button_seat;
  to_act_seat = t.to_act_seat;
  current_bet = t.current_bet;
  min_raise_to = t.current_bet + t.last_full_raise_size;
  pot = sum_of (λ p. p.hand_commit) (occupied t.seats);
  board = map format_card t.board;
  burns = map format_card t.burns;
  commitment = elim t.deal [ none ↦ none | some d ↦ some d.commitment ];
  reveal = reveal_of t.street t.deal;
  players = players_from t.street viewer 0 t.seats;
  legal = legal_of t viewer;
  last_events = drop (length t.events - 12) t.events;
  winners = t.winners;
}

-- `fixedDeal`: every hand is dealt from the same cards, where they parse.
unfoldable pub fixed_deal : List ℕ → Option (ℕ → ℕ → HandDeal)
unfolding parse_cards
fixed_deal cards = elim (parse_cards cards) [
  | none ↦ none
  | some parsed ↦
      some (λ t h. record { commitment = "fixed"; left = parsed; seed = "fixed"; nonce = "fixed" })
]

-- The seat is the viewer's, or its cards are not sent.
abbrev pub Guarded : Option ℕ → PublicPlayer → Type 0
Guarded viewer p = (p.player_id ≡ viewer) ⊎ (p.hole ≡ none)

not_showdown : (s : Street) → shows_all s ≡ false → is_showdown s ≡ false
not_showdown showdown e = cc
not_showdown waiting e = refl
not_showdown dealing e = refl
not_showdown preflop e = refl
not_showdown flop e = refl
not_showdown turn e = refl
not_showdown river e = refl
not_showdown payout e = refl

not_revealed : (s : Street) (d : Option HandDeal) → shows_all s ≡ false → reveal_of s d ≡ none
not_revealed waiting d e = cc
not_revealed dealing d e = refl
not_revealed preflop d e = refl
not_revealed flop d e = refl
not_revealed turn d e = refl
not_revealed river d e = refl
not_revealed showdown d e = refl
not_revealed payout d e = refl

viewer_is : (viewer : Option ℕ) (id : ℕ) → is_viewer viewer id ≡ true → some id ≡ viewer
viewer_is none id e = cc
viewer_is (some v) id e = ground arith

viewer_or_hidden :
    (street : Street) (viewer : Option ℕ) (i : ℕ) (p : Seat)
    → shows_all street ≡ false
    → Guarded viewer (public_player street viewer i p)
viewer_or_hidden street viewer i p e = elim (Bool-cases (is_viewer viewer p.player_id)) [
  | inl y ↦ inl (viewer_is viewer p.player_id y)
  | inr n ↦ inr (rw (e, n, not_showdown street e) refl)
]

players-Guarded :
    (street : Street) (viewer : Option ℕ) (i : ℕ) (seats : Seats)
    → shows_all street ≡ false
    → All (Guarded viewer) (players_from street viewer i seats)
players-Guarded street viewer i [] e = tt
players-Guarded street viewer i (none ∷ seats) e =
    (inr refl, players-Guarded street viewer (suc i) seats e)
players-Guarded street viewer i (some p ∷ seats) e =
    (viewer_or_hidden street viewer i p e, players-Guarded street viewer (suc i) seats e)

-- While a hand is dealt or bet on, a snapshot holds the hole cards of no player but the viewer, and
-- does not reveal the seed of the deal.
pub snapshot_hides :
    (viewer : Option ℕ) (t : Table)
    → shows_all t.street ≡ false
    → All (λ p. (p.player_id ≡ viewer) ⊎ (p.hole ≡ none)) (snapshot viewer t).players
      × ((snapshot viewer t).reveal ≡ none)
unfolding snapshot
snapshot_hides viewer t e =
    (players-Guarded t.street viewer 0 t.seats e, not_revealed t.street t.deal e)

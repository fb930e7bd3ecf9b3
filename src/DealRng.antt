-- ===== src/DealRng.antt =====
-- services/deal-rng/src: history.ts and service.ts, the service that deals hands and keeps their
-- results. Ids and times are numbers. The file of the history is the list of its events, in the order
-- in which they were appended: a line is read back as the event that was written. What the service
-- writes to its log is left out.
pub mod Service
pub mod History
pub mod Sound
pub mod Closed
pub mod Routes
mod Examples
use vr_poker.Prelude.{ℕ, Bool, Option, none, some, List, [], ◌∷◌, ◌==◌, if◌then◌else◌}
use vr_poker.Cards.{Card}
use vr_poker.Deal.{Buffer}

pub data DrawKind : Type 0 where
  next burn : DrawKind

pub record DrawnCard : Type 0 where
  pub index : ℕ
  pub kind : DrawKind
  pub card : List ℕ

pub record HandResult : Type 0 where
  pub hand_id : ℕ
  pub table_id : Option ℕ
  pub opened_at : ℕ
  pub closed_at : ℕ
  pub commitment : Buffer
  pub seed : Buffer
  pub nonce : Buffer
  pub deck_order : List (List ℕ)
  pub draws : List DrawnCard
  pub hole_cards : Option (List (ℕ × List (List ℕ)))
  pub board_cards : Option (List (List ℕ))
  pub burn_cards : List (List ℕ)
  pub verified : Bool

pub data HistoryEvent : Type 0 where
  hand_open : ℕ → ℕ → Option ℕ → Buffer → HistoryEvent
  hand_close : ℕ → ℕ → HandResult → HistoryEvent

pub record LiveHand : Type 0 where
  pub hand_id : ℕ
  pub table_id : Option ℕ
  pub opened_at : ℕ
  pub commitment : Buffer
  pub seed : Buffer
  pub nonce : Buffer
  pub deck : List Card
  pub cursor : ℕ
  pub draws : List DrawnCard

pub record DealRng : Type 0 where
  pub live : List (ℕ × LiveHand)
  pub history : List HistoryEvent

-- The messages of `DealRngError`. `internal` is the error of a card that has no number, and
-- `out_of_blocks` no error of the source: it marks fuel that ran out in the shuffle.
pub data DealRngError : Type 0 where
  hand_id_used deck_exhausted hand_not_found verification_failed : DealRngError
  internal out_of_blocks : DealRngError

pub data Result (A : Type 0) : Type 0 where
  ok : A → Result A
  err : DealRngError → Result A

abbrev pub close_of : ℕ → HistoryEvent → Option HandResult
close_of id (hand_open at i table commitment) = none
close_of id (hand_close at i r) = if i == id then some r else none

-- `latestClose`: the result of the last close of the hand
abbrev pub latest_close : ℕ → List HistoryEvent → Option HandResult
latest_close id [] = none
latest_close id (e ∷ es) = elim (latest_close id es) [ some r ↦ some r | none ↦ close_of id e ]

-- ===== src/Table/State.antt =====
-- packages/core/src/types.ts and the fields of `Table` in packages/core/src/table.ts.
-- Identifiers of players and tables are only compared, so they are numbers, and so are the hand
-- numbers. Chips are numbers that are not negative; an amount that a client sends is an integer.
-- A log line is a value with the parts that the source formats into its text.
use Prim.Native.String.{String}
use vr_poker.Prelude.{ℕ, Bool, Option, List}
use vr_poker.Prelude.Int.{ℤ}
use vr_poker.Cards.{Card}
use vr_poker.Evaluator.{CategoryName}
use vr_poker.Pots.{Rate}

pub data Street : Type 0 where
  waiting dealing preflop flop turn river showdown payout : Street

pub data ActionType : Type 0 where
  fold check call bet raise all_in : ActionType

pub record TableConfig : Type 0 where
  pub seats : ℕ
  pub small_blind : ℕ
  pub big_blind : ℕ
  pub min_buy_in : ℕ
  pub max_buy_in : ℕ
  pub rake_percent : Rate
  pub rake_cap : ℕ
  pub no_flop_no_rake : Bool
  pub action_timeout_ms : ℕ

-- The amount is a whole number, or none. The source takes any number, NaN and fractions included,
-- which are outside of this model.
pub record PlayerAction : Type 0 where
  pub type : ActionType
  pub amount : Option ℤ

pub record LegalAction : Type 0 where
  pub type : ActionType
  pub min : Option ℕ
  pub max : Option ℕ

pub record Seat : Type 0 where
  pub player_id : ℕ
  pub name : String
  pub stack : ℕ
  pub street_commit : ℕ
  pub hand_commit : ℕ
  pub folded : Bool
  pub is_all_in : Bool
  pub sitting_out : Bool
  pub hole : List Card
  pub acted_this_round : Bool

-- packages/core/src/deal.ts: a deal in progress. In every source of deals of the repository
-- `next` and `burn` both take the next card of a deck that was fixed when the hand was opened.
pub record HandDeal : Type 0 where
  pub commitment : String
  pub left : List Card
  pub seed : String
  pub nonce : String

pub record Award : Type 0 where
  pub player_id : ℕ
  pub amount : ℕ
  pub hand : Option (CategoryName × List Card)

pub data Event : Type 0 where
  buys_in : String → ℕ → ℕ → Event
  adds_on : String → ℕ → ℕ → Event
  cashes_out : String → ℕ → Event
  dealt : ℕ → Option ℕ → String → Event
  folds checks : String → Event
  calls bets raises_to goes_all_in : String → ℕ → Event
  begins : Street → List Card → Event
  returned : ℕ → String → Event
  wins : String → ℕ → CategoryName → List Card → Event
  wins_uncontested : String → ℕ → Event
  raked : ℕ → Event
  revealed : String → Event
  posts : String → ℕ → Bool → Event

pub record Table : Type 0 where
  pub table_id : ℕ
  pub config : TableConfig
  pub deal_source : ℕ → ℕ → HandDeal
  pub seats : List (Option Seat)
  pub street : Street
  pub hand_id : ℕ
  pub button_seat : Option ℕ
  pub to_act_seat : Option ℕ
  pub current_bet : ℕ
  pub last_full_raise_size : ℕ
  pub board : List Card
  pub burns : List Card
  pub deal : Option HandDeal
  pub events : List Event
  pub winners : Option (List Award)
  pub flop_seen : Bool
  pub hand_awaiting_finalize : Bool

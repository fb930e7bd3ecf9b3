-- ===== src/Server/Casino/Map.antt =====
-- services/game-server/src/casino/map.ts: the commands and the room that a casino client is shown.
-- A range is its two ends, which the code writes into a text.
use Prim.Native.String.{String}
use vr_poker.Prelude.{
  ℕ, ◌-◌, Bool, true, false, not, ◌&&◌, ◌||◌, Option, none, some, List, [], ◌∷◌, map, length, keep,
  find, ◌==◌, if◌then◌else◌,
}
use vr_poker.Prelude.Int.{ℤ, pos, ◌-ℤ◌}
use vr_poker.Table.State.{
  LegalAction, ActionType, fold, check, call, bet, raise, all_in, Street, waiting, showdown, payout,
  Award, Event,
}
use vr_poker.Table.Snapshot.{TableSnapshot, PublicPlayer}

-- `null`, `true` or a range
pub data CasinoCmd : Type 0 where
  no_cmd always : CasinoCmd
  range : ℤ → ℤ → CasinoCmd

pub record CasinoCmds : Type 0 where
  pub fold : CasinoCmd
  pub check : CasinoCmd
  pub call : CasinoCmd
  pub raise : CasinoCmd
  pub all_in : CasinoCmd
  pub bet : CasinoCmd
  pub ready : CasinoCmd

abbrev pub no_cmds : CasinoCmds
no_cmds = record {
  fold = no_cmd;
  check = no_cmd;
  call = no_cmd;
  raise = no_cmd;
  all_in = no_cmd;
  bet = no_cmd;
  ready = no_cmd;
}

abbrev pub range_of : Option ℕ → Option ℕ → CasinoCmd
range_of (some lo) (some hi) = range (pos lo) (pos hi)
range_of _ _ = always

abbrev pub set_cmd : ActionType → CasinoCmd → CasinoCmds → CasinoCmds
set_cmd fold r cmds = record cmds { fold = always }
set_cmd check r cmds = record cmds { check = always }
set_cmd call r cmds = record cmds { call = always }
set_cmd all_in r cmds = record cmds { all_in = always }
set_cmd bet r cmds = record cmds { bet = r }
set_cmd raise r cmds = record cmds { raise = r }

-- the loop of `cmdsFromLegal`
abbrev pub cmds_into : CasinoCmds → List LegalAction → CasinoCmds
cmds_into cmds [] = cmds
cmds_into cmds (a ∷ legal) = cmds_into (set_cmd a.type (range_of a.min a.max) cmds) legal

unfoldable pub cmds_from_legal : List LegalAction → CasinoCmds
cmds_from_legal legal = cmds_into no_cmds legal

abbrev pub is_raise : LegalAction → Bool
is_raise a = elim a.type [
  | raise ↦ true
  | fold ↦ false
  | check ↦ false
  | call ↦ false
  | bet ↦ false
  | all_in ↦ false
]

abbrev pub increments : ℕ → LegalAction → Option (ℤ × ℤ)
increments current_bet a = elim a.min [
  | none ↦ none
  | some lo ↦ elim a.max [
    | none ↦ none
    | some hi ↦ some (pos lo -ℤ pos current_bet, pos hi -ℤ pos current_bet)
  ]
]

unfoldable pub raise_increment_range : ℕ → List LegalAction → Option (ℤ × ℤ)
raise_increment_range current_bet legal = elim (find is_raise legal) [
  | none ↦ none
  | some a ↦ increments current_bet a
]

abbrev pub is_waiting : Street → Bool
is_waiting waiting = true
is_waiting _ = false

abbrev pub with_range : Option (ℤ × ℤ) → CasinoCmds → CasinoCmds
with_range none cmds = cmds
with_range (some r) cmds = record cmds { raise = range r.0 r.1 }

unfoldable pub cmds_for_actor : TableSnapshot → CasinoCmds
unfolding cmds_from_legal raise_increment_range
cmds_for_actor snap =
    let cmds =
      with_range (raise_increment_range snap.current_bet snap.legal) (cmds_from_legal snap.legal) in
    if is_waiting snap.street then record no_cmds { ready = always } else cmds

pub record Gamer : Type 0 where
  pub uid : ℕ
  pub name : String
  pub seat : ℕ
  pub coins : ℕ
  pub chips : ℕ
  pub is_ingame : Bool
  pub is_allin : Bool
  pub cards : List (List ℕ)

pub record RoomDetails : Type 0 where
  pub id : ℕ
  pub seats : List (Option ℕ)
  pub seats_taken : ℕ
  pub dealer_seat : Option ℕ
  pub shared_cards : List (List ℕ)
  pub pot : ℕ
  pub max_chip : ℕ
  pub last_raise : ℕ
  pub street : Street
  pub hand_id : ℕ
  pub to_act_seat : Option ℕ
  pub commitment : Option String
  pub gamers : List Gamer
  pub winners : Option (List Award)
  pub last_events : List Event

abbrev pub is_shown : Street → Bool
is_shown showdown = true
is_shown payout = true
is_shown _ = false

abbrev pub is_same : Option ℕ → ℕ → Bool
is_same none id = false
is_same (some v) id = id == v

abbrev pub gamer : TableSnapshot → Option ℕ → ℕ → PublicPlayer → Gamer
gamer snap viewer id p = record {
  uid = id;
  name = p.name;
  seat = p.seat;
  coins = p.stack;
  chips = p.street_commit;
  is_ingame = not p.folded && not (is_waiting snap.street);
  is_allin = p.is_all_in;
  cards =
      if is_same viewer id || is_shown snap.street
      then elim p.hole [ none ↦ [] | some cards ↦ cards ]
      else [];
}

-- In the order of the seats; no two seats have the same player.
abbrev pub gamers_of : TableSnapshot → Option ℕ → List PublicPlayer → List Gamer
gamers_of snap viewer [] = []
gamers_of snap viewer (p ∷ ps) =
    let rest = gamers_of snap viewer ps in
    elim p.player_id [ none ↦ rest | some id ↦ gamer snap viewer id p ∷ rest ]

abbrev pub is_taken : PublicPlayer → Bool
is_taken p = elim p.player_id [ none ↦ false | some id ↦ true ]

unfoldable pub room_details : Option ℕ → TableSnapshot → RoomDetails
room_details viewer snap = record {
  id = snap.table_id;
  seats = map (λ p. p.player_id) snap.players;
  seats_taken = length (keep is_taken snap.players);
  dealer_seat = snap.button_seat;
  shared_cards = snap.board;
  pot = snap.pot;
  max_chip = snap.current_bet;
  last_raise = snap.min_raise_to - snap.current_bet;
  street = snap.street;
  hand_id = snap.hand_id;
  to_act_seat = snap.to_act_seat;
  commitment = snap.commitment;
  gamers = gamers_of snap viewer snap.players;
  winners = snap.winners;
  last_events = snap.last_events;
}

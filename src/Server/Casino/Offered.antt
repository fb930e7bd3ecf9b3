-- ===== src/Server/Casino/Offered.antt =====
-- services/game-server/src/casino/map.ts: what the commands offer, and whose cards a room shows.
use vr_poker.Prelude.{
  ℕ, ◌≡◌, ◌⊎◌, inl, inr, refl, ◌∙◌, Bool, true, false, ◌||◌, Option, none, some, List, [], ◌∷◌,
  arith, some_of, Bool-cases, Option-cases, All,
}
use vr_poker.Prelude.Int.{ℤ}
use vr_poker.Table.State.{LegalAction, ActionType, fold, check, call, bet, raise, all_in}
use vr_poker.Table.Snapshot.{TableSnapshot, PublicPlayer}
use vr_poker.Server.Casino.Map.{
  CasinoCmd, CasinoCmds, no_cmd, always, range, no_cmds, range_of, set_cmd, cmds_into,
  cmds_from_legal, raise_increment_range, is_waiting, with_range, cmds_for_actor, is_same, is_shown,
  gamers_of, room_details,
}

abbrev pub is_offered : CasinoCmd → Bool
is_offered no_cmd = false
is_offered always = true
is_offered (range lo hi) = true

-- the command of a kind of action
abbrev pub cmd_of : ActionType → CasinoCmds → CasinoCmd
cmd_of fold cmds = cmds.fold
cmd_of check cmds = cmds.check
cmd_of call cmds = cmds.call
cmd_of bet cmds = cmds.bet
cmd_of raise cmds = cmds.raise
cmd_of all_in cmds = cmds.all_in

abbrev pub same_type : ActionType → ActionType → Bool
same_type fold fold = true
same_type check check = true
same_type call call = true
same_type bet bet = true
same_type raise raise = true
same_type all_in all_in = true
same_type _ _ = false

range-offered : (lo hi : Option ℕ) → is_offered (range_of lo hi) ≡ true
range-offered none hi = refl
range-offered (some lo) none = refl
range-offered (some lo) (some hi) = refl

set-offered :
    (a b : ActionType) (r : CasinoCmd) (cmds : CasinoCmds)
    → is_offered r ≡ true
    → is_offered (cmd_of a (set_cmd b r cmds)) ≡ (same_type a b || is_offered (cmd_of a cmds))
set-offered a b r cmds h = ground (arith, h)

into-offered :
    (a : ActionType) (cmds : CasinoCmds) (legal : List LegalAction)
    → is_offered (cmd_of a (cmds_into cmds legal))
      ≡ (some_of (λ l. same_type a l.type) legal || is_offered (cmd_of a cmds))
into-offered a cmds [] = refl
into-offered a cmds (l ∷ legal) =
    let r = range_of l.min l.max in
    into-offered a (set_cmd l.type r cmds) legal
    ∙ rw (set-offered a l.type r cmds (range-offered l.min l.max)) (
        either_way (some_of (λ l. same_type a l.type) legal) (same_type a l.type)
          (is_offered (cmd_of a cmds)))
  where
    either_way : (x y z : Bool) → (x || (y || z)) ≡ ((y || x) || z)
    either_way x y z = ground arith

legal-offered :
    (a : ActionType) (legal : List LegalAction)
    → is_offered (cmd_of a (cmds_from_legal legal)) ≡ some_of (λ l. same_type a l.type) legal
unfolding cmds_from_legal
legal-offered a legal =
    into-offered a no_cmds legal ∙ none_set a (some_of (λ l. same_type a l.type) legal)
  where
    none_set : (a : ActionType) (b : Bool) → (b || is_offered (cmd_of a no_cmds)) ≡ b
    none_set a b = ground arith

raise_found :
    (current_bet : ℕ) (legal : List LegalAction) (r : ℤ × ℤ)
    → raise_increment_range current_bet legal ≡ some r
    → some_of (λ l. same_type raise l.type) legal ≡ true
unfolding raise_increment_range
raise_found current_bet [] r e = absurd cc
raise_found current_bet (l ∷ legal) r e = ground (arith, raise_found current_bet legal r, e)

with_range-offered :
    (a : ActionType) (o : Option (ℤ × ℤ)) (cmds : CasinoCmds)
    → ((r : ℤ × ℤ) → o ≡ some r → is_offered cmds.raise ≡ true)
    → is_offered (cmd_of a (with_range o cmds)) ≡ is_offered (cmd_of a cmds)
with_range-offered a none cmds h = refl
with_range-offered a (some r) cmds h = let known = h r refl in ground (arith, known)

-- Once a hand is dealt, a casino client is offered the command of an action exactly where the action is
-- among those that the table allows the viewer.
pub cmds_for_actor-offered :
    (a : ActionType) (snap : TableSnapshot)
    → is_waiting snap.street ≡ false
    → is_offered (cmd_of a (cmds_for_actor snap)) ≡ some_of (λ l. same_type a l.type) snap.legal
unfolding cmds_for_actor
cmds_for_actor-offered a snap w =
    rw (cmds_for_actor, w)
      (with_range-offered a (raise_increment_range snap.current_bet snap.legal)
          (cmds_from_legal snap.legal)
          (λ r e. legal-offered raise snap.legal ∙ raise_found snap.current_bet snap.legal r e)
        ∙ legal-offered a snap.legal)

same_viewer : (viewer : Option ℕ) (id : ℕ) → is_same viewer id ≡ true → some id ≡ viewer
same_viewer none id e = absurd cc
same_viewer (some v) id e = ground arith

gamers-hidden :
    (snap : TableSnapshot) (viewer : Option ℕ) (ps : List PublicPlayer)
    → is_shown snap.street ≡ false
    → All (λ g. (some g.uid ≡ viewer) ⊎ (g.cards ≡ [])) (gamers_of snap viewer ps)
gamers-hidden snap viewer [] h = tt
gamers-hidden snap viewer (p ∷ ps) h = elim (Option-cases p.player_id) [
  | inl e ↦ rw e (gamers-hidden snap viewer ps h)
  | inr (id, e) ↦ rw e (
    elim (Bool-cases (is_same viewer id)) [
      | inl y ↦ inl (same_viewer viewer id y)
      | inr n ↦ inr (rw (n, h) refl)
    ],
    gamers-hidden snap viewer ps h,
  )
]

-- Until the showdown, the room that a casino client is shown holds the cards of no player but the
-- client, whatever the snapshot has.
pub room_details-hidden :
    (viewer : Option ℕ) (snap : TableSnapshot)
    → is_shown snap.street ≡ false
    → All (λ g. (some g.uid ≡ viewer) ⊎ (g.cards ≡ [])) (room_details viewer snap).gamers
unfolding room_details
room_details-hidden viewer snap h = gamers-hidden snap viewer snap.players h

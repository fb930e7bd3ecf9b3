-- ===== src/Tournament/Charges.antt =====
-- services/tournament/src/index.ts: what a registration costs.
use Prim.Native.String.{String}
use vr_poker.Prelude.{
  ℕ, ◌≡◌, inl, inr, refl, ap, ◌∙◌, true, false, none, some, Bool-cases, leb, length,
}
use vr_poker.Prelude.Int.{pos, ◌+ℤ◌, ◌-ℤ◌}
use vr_poker.Prelude.Maps.{lookup_in, lookup_in-write_in}
use vr_poker.Ledger.Entries.{LedgerEntry, done, failed, tournament_buy_in}
use vr_poker.Ledger.Chips.{ChipLedger, balance}
use vr_poker.Ledger.Store.{MemoryLedgerStore, UserAccount, Answer, ensure_user}
use vr_poker.Ledger.Welcome.{IsCreated, ensure_user-IsCreated}
use vr_poker.Ledger.Debits.{Debited, store_append-Debited}
use vr_poker.Tournament.Engine.{
  Tournament, Step, register, entrant, is_status, registering, is_some,
}
use vr_poker.Tournament.Service.{
  TournamentService, Handled, of_tournament, of_ledger, tournament_not_found, stepped, put_store,
  after_buy_in, after_account, register_player,
}

-- The player's balance, which was at `opened` when the account was open, has been debited by the
-- buy-in where the tournament was asked, whether it took the player in or refused; the ledger's refusal
-- moves nothing.
abbrev pub Charged : ℕ → ℕ → Tournament → ChipLedger → Handled → Type 0
Charged id player t opened (none, s) =
    (balance player s.store.chips ≡ balance player opened +ℤ (pos 0 -ℤ pos t.config.buy_in))
    × ((t' : Tournament) × (lookup_in id s.tournaments ≡ some t')
        × (is_some (lookup_in player t'.players) ≡ true))
Charged id player t opened (some (of_tournament e), s) =
    (balance player s.store.chips ≡ balance player opened +ℤ (pos 0 -ℤ pos t.config.buy_in))
    × (lookup_in id s.tournaments ≡ some t)
Charged id player t opened (some (of_ledger e), s) = s.store.chips ≡ opened
Charged id player t opened (some tournament_not_found, s) = true ≡ false

-- The tournament holds the player after a registration, and is as it was after a refusal.
abbrev Entered : ℕ → Tournament → Step → Type 0
Entered player t (none, t') = is_some (lookup_in player t'.players) ≡ true
Entered player t (some e, t') = t' ≡ t

register-Entered :
    (player : ℕ) (name : String) (t : Tournament) → Entered player t (register player name t)
unfolding register
register-Entered player name t = elim (Bool-cases (is_status t.status registering)) [
  | inr n ↦ rw n refl
  | inl y ↦ elim (Bool-cases (is_some (lookup_in player t.players))) [
    | inl found ↦ rw (y, found) refl
    | inr new ↦ elim (Bool-cases (leb t.config.max_players (length t.players))) [
      | inl full ↦ rw (y, new, full) refl
      | inr room ↦
          rw
            (
              y,
              new,
              room,
              lookup_in-write_in player (entrant player name t.config.starting_stack) t.players,
            )
            refl
    ]
  ]
]

module _ (id player : ℕ) (name : String) (t : Tournament) (s : TournamentService) where
  after_step :
      (l : ChipLedger) (m : MemoryLedgerStore) (r : Step)
      → balance player m.chips ≡ balance player l +ℤ (pos 0 -ℤ pos t.config.buy_in)
      → Entered player t r
      → Charged id player t l (stepped id (put_store m s) r)
  after_step l m (none, t') h e = (h, (t', lookup_in-write_in id t' s.tournaments, e))
  after_step l m (some x, t') h e = (h, lookup_in-write_in id t' s.tournaments ∙ ap some e)

  after_append :
      (l : ChipLedger) (r : Answer LedgerEntry)
      → Debited player (pos 0 -ℤ pos t.config.buy_in) l r
      → Charged id player t l (after_buy_in id player name t s r)
  after_append l (failed e, m) h = h
  after_append l (done entry, m) h =
      after_step l m (register player name t) h (register-Entered player name t)

  after_open :
      (now : String) (text_of : ℕ → String) (r : Answer UserAccount)
      → IsCreated player r.1
      → Charged id player t r.1.chips (after_account now text_of id player name t s r)
  after_open now text_of (failed e, m) h = refl
  after_open now text_of (done u, m) h = after_append m.chips _ (
      store_append-Debited now player (pos 0 -ℤ pos t.config.buy_in) tournament_buy_in
        (some (text_of id)) m h)

-- A registration for a tournament debits its buy-in once where the player is taken in, and also where
-- the tournament then refuses the player, which leaves the tournament as it was and gives nothing back;
-- where the ledger refuses the buy-in no chips move but for the opening of the account.
pub register_player-Charged :
    (now : String) (text_of : ℕ → String) (id player : ℕ) (name : String) (s : TournamentService)
    (t : Tournament)
    → lookup_in id s.tournaments ≡ some t
    → Charged id player t
        (ensure_user now player none s.store).1.chips
        (register_player now text_of id player name s)
unfolding register_player
register_player-Charged now text_of id player name s t e =
    rw (register_player, e)
      (after_open id player name t s now text_of (ensure_user now player none s.store)
        (ensure_user-IsCreated now player none s.store))

-- ===== src/Ledger/Examples.antt =====
-- The theorems on the ledger at concrete ones.
use vr_poker.Prelude.{◌≡◌, refl, true, false, none, some, List, [], ◌∷◌, ◌++◌, ◌&&◌}
use vr_poker.Prelude.Int.{pos, negsuc, ◌+ℤ◌}
use vr_poker.Ledger.Entries.{After, buy_in, failed, forbidden}
use vr_poker.Ledger.Chips.{append, balance, is_negative, empty_ledger}
use vr_poker.Ledger.Balances.{append_balances, append-IsSolvent, IsSolvent}
use vr_poker.Ledger.Ownership.{OwnershipLedger, purchase, grant, owns, Once, grant-Once}
use vr_poker.Ledger.Clubs.{
  Club, ClubRegistry, ClubMember, ClubPatch, member_role, admin, update_club, remove_member,
  add_member,
}
use vr_poker.Ledger.Roles.{outsider_changes_nothing}

append_balances_example :
    After
      (λ r.
        (r.1.entries ≡ empty_ledger.entries ++ (r.0 ∷ []))
        × (balance 7 r.1 ≡ balance 7 empty_ledger +ℤ pos 500)
        × (balance 8 r.1 ≡ balance 8 empty_ledger)
        × ((is_negative (pos 500) && is_negative (balance 7 r.1)) ≡ false))
      (append "now" 7 (some (pos 500)) buy_in none empty_ledger)
append_balances_example = append_balances "now" 7 8 (pos 500) buy_in none empty_ledger refl

empty-IsSolvent : IsSolvent empty_ledger
unfolding balance
empty-IsSolvent user = refl

append-IsSolvent_example :
    After (λ r. IsSolvent r.1) (append "now" 7 (some (negsuc 499)) buy_in none empty_ledger)
append-IsSolvent_example =
    append-IsSolvent "now" 7 (negsuc 499) buy_in none empty_ledger empty-IsSolvent

abbrev no_cosmetics : OwnershipLedger
no_cosmetics = record { entries = []; next_id = 1 }

grant-Once_example :
    After
      (λ r.
        (r.1.entries ≡ no_cosmetics.entries ++ (r.0 ∷ []))
        × (owns 7 3 r.1 ≡ true)
        × Once r.1.entries)
      (grant "now" 7 3 purchase none no_cosmetics)
grant-Once_example = grant-Once "now" 7 3 purchase none no_cosmetics tt

abbrev players_club : List ClubMember
players_club = record { club_id = 5; user_id = 7; role = member_role; joined_at = "now" } ∷ []

abbrev club : Club
club = record {
  id = 5;
  name = "ours";
  owner_user_id = 1;
  rake_percent = record {
    rate = record { positive = false; floor_of = λ n. 0 };
    below_zero = false;
    above_limit = false;
  };
  rake_cap = 300;
  no_flop_no_rake = true;
  min_buy_in = 4000;
  max_buy_in = 20_000;
  created_at = "now";
}

abbrev registry : ClubRegistry
registry = record { clubs = (5, club) ∷ []; members = (5, players_club) ∷ [] }

abbrev rename : ClubPatch
rename = record {
  name = some "mine";
  rake_percent = none;
  rake_cap = none;
  no_flop_no_rake = none;
  min_buy_in = none;
  max_buy_in = none;
}

outsider_changes_nothing_example :
    ((update_club 5 7 rename registry).1 ≡ registry)
    × ((remove_member 5 7 9 registry).1 ≡ registry)
    × (add_member "now" 5 7 9 (some admin) registry ≡ (failed forbidden, registry))
outsider_changes_nothing_example =
    outsider_changes_nothing registry 5 7 players_club refl refl "now" rename 9 (some admin)

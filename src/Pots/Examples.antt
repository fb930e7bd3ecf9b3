-- ===== src/Pots/Examples.antt =====
-- Runs of the pot arithmetic, and its theorems at a hand with a short all-in and a fold.
use vr_poker.Prelude.{
  ◌+◌, ◌-◌, ◌*◌, ◌/◌, ◌≤◌, ◌≡◌, refl, true, false, inl, List, [], ◌∷◌, map, arith, All,
}
use vr_poker.Prelude.Sums.{sum_of}
use vr_poker.Prelude.Sort.{sort_by}
use vr_poker.Pots.{
  Contribution, Rate, IsFraction, return_uncalled, build_pots, take_rake, split_pot,
}
use vr_poker.Pots.Uncalled.{Distinct, ids_of, most, runner_up, capped, return_uncalled_lem}
use vr_poker.Pots.Layers.{winnable, covered, build_pots-sum}
use vr_poker.Pots.Barred.{live_wins_covered}
use vr_poker.Pots.Shares.{IsFairShare, split_pot_fair, take_rake_lem}

-- Player 1 is all in for 100, player 2 folded after 300, player 3 put in 500 and player 4 800.
abbrev contribs : List Contribution
contribs =
    record { player_id = 1; committed = 100; folded = false }
    ∷ record { player_id = 2; committed = 300; folded = true }
    ∷ record { player_id = 3; committed = 500; folded = false }
    ∷ record { player_id = 4; committed = 800; folded = false }
    ∷ []

abbrev short : Contribution
short = record { player_id = 1; committed = 100; folded = false }

abbrev quitter : Contribution
quitter = record { player_id = 2; committed = 300; folded = true }

abbrev leader : Contribution
leader = record { player_id = 4; committed = 800; folded = false }

abbrev five_percent : Rate
five_percent = record { positive = true; floor_of = λ n. n * 5 / 100 }

return_uncalled-contribs :
    (return_uncalled contribs).0 ≡ record { player_id = 4; amount = 300 } ∷ []
unfolding return_uncalled sort_by
return_uncalled-contribs = refl

build_pots-contribs : map (λ p. p.amount) (build_pots contribs) ≡ 400 ∷ 600 ∷ 400 ∷ 300 ∷ []
unfolding build_pots
build_pots-contribs = refl

take_rake-capped : take_rake 10_000 five_percent 300 ≡ record { net = 9700; rake = 300 }
unfolding take_rake
take_rake-capped = refl

distinct : Distinct (ids_of contribs)
distinct = (refl, (refl, (refl, (refl, tt))))

return_uncalled_lem_example :
    let (shares, after) = return_uncalled contribs in
    (after ≡ map (capped (runner_up contribs)) contribs)
    × (sum_of (λ s. s.amount) shares ≡ most contribs - runner_up contribs)
    × (sum_of (λ c. c.committed) after + sum_of (λ s. s.amount) shares
        ≡ sum_of (λ c. c.committed) contribs)
return_uncalled_lem_example = return_uncalled_lem contribs distinct

build_pots-sum_example :
    sum_of (λ p. p.amount) (build_pots contribs) ≡ sum_of (λ c. c.committed) contribs
build_pots-sum_example = build_pots-sum contribs

live_wins_covered_example : winnable 1 (build_pots contribs) ≡ covered 100 contribs
live_wins_covered_example = live_wins_covered short contribs distinct (inl refl) refl

split_pot_fair_example :
    (sum_of (λ s. s.amount) (split_pot 101 (3 ∷ 1 ∷ [])) ≡ 101)
    × (map (λ s. s.player_id) (split_pot 101 (3 ∷ 1 ∷ [])) ≡ 3 ∷ 1 ∷ [])
    × All (IsFairShare 101 2) (split_pot 101 (3 ∷ 1 ∷ []))
split_pot_fair_example = split_pot_fair 101 (3 ∷ 1 ∷ []) (omega arith) (λ e. cc)

five_percent-IsFraction : IsFraction five_percent
five_percent-IsFraction n = omega arith

take_rake_lem_example :
    let r = take_rake 4000 five_percent 300 in
    (r.net + r.rake ≡ 4000) × (r.rake ≤ 300) × (r.rake ≤ 200) × (true ≡ false → r.rake ≡ 0)
take_rake_lem_example = take_rake_lem 4000 five_percent 300 five_percent-IsFraction

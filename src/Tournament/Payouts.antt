-- ===== src/Tournament/Payouts.antt =====
-- packages/tournament/src/payouts.ts: what the places of a tournament are paid.
-- The chips that remain are an integer, as nothing in the code keeps the shares from adding up to
-- more than the pool. The floating-point products are known by their floors.
use vr_poker.Prelude.{
  ℕ, zero, suc, ◌+◌, ◌/◌, ◌≤◌, ◌≡◌, min, max, Option, List, [], ◌∷◌, arith, if◌then◌else◌, ◌==◌,
  leb, length, get_elem?, ap, ◌∙◌,
}
use vr_poker.Prelude.Int.{ℤ, pos, ◌+ℤ◌, ◌-ℤ◌, int_laws}

-- `Math.floor(fieldSize * 0.15)`, and `Math.floor(prizePool * shares[i])` for a pool, a number of
-- paid places and a place counted from 0.
pub record Floors : Type 0 where
  pub fifteen_percent : ℕ → ℕ
  pub share : ℕ → ℕ → ℕ → ℕ

pub record PlacePayout : Type 0 where
  pub player_id : Option ℕ
  pub place : ℕ
  pub chips : ℤ
  pub leaderboard_points : ℕ

unfoldable pub paid_places : Floors → ℕ → ℕ
paid_places fl field =
    if leb field 2
    then 1
    else if leb field 6
    then 2
    else if leb field 9
    then 3
    else max 3 (fl.fifteen_percent field)

unfoldable pub leaderboard_points_for_place : ℕ → ℕ → ℕ
leaderboard_points_for_place place field =
    if place == 1
    then 100 + min field 100
    else if place == 2
    then 60
    else if place == 3
    then 40
    else max 5 (30 / place)

-- the rounds of the loop from place `i` on, `left` of them; the last place takes what remains
unfoldable pub pay_places : Floors → ℕ → List ℕ → ℕ → ℕ → ℤ → ℕ → List PlacePayout
unfolding leaderboard_points_for_place
pay_places fl pool order places i remaining zero = []
pay_places fl pool order places i remaining (suc left) =
    let chips = if suc i == places then remaining else pos (fl.share pool places i) in
    let rest = pay_places fl pool order places (suc i) (remaining -ℤ chips) left in
    record {
      player_id = get_elem? order i;
      place = suc i;
      chips = chips;
      leaderboard_points = leaderboard_points_for_place (suc i) (length order);
    }
    ∷ rest

unfoldable pub compute_payouts : Floors → ℕ → List ℕ → List PlacePayout
unfolding pay_places paid_places
compute_payouts fl pool order =
    let places = paid_places fl (length order) in
    pay_places fl pool order places 0 (pos pool) places

abbrev pub total_chips : List PlacePayout → ℤ
total_chips [] = pos 0
total_chips (p ∷ ps) = p.chips +ℤ total_chips ps

some_place : (fl : Floors) (field : ℕ) → 1 ≤ paid_places fl field
unfolding paid_places
some_place fl field = ground arith

take_back_all : (r : ℤ) → r +ℤ pos 0 ≡ r
take_back_all r = grind int_laws

split_off : (r c : ℤ) → c +ℤ (r -ℤ c) ≡ r
split_off r c = grind int_laws

pay_places-total :
    (fl : Floors) (pool : ℕ) (order : List ℕ) (places i : ℕ) (remaining : ℤ) (left : ℕ)
    → i + suc left ≡ places
    → total_chips (pay_places fl pool order places i remaining (suc left)) ≡ remaining
unfolding pay_places
pay_places-total fl pool order places i remaining zero h =
    let last : (if suc i == places then remaining else pos (fl.share pool places i)) ≡ remaining =
      ground arith in
    ap (λ c. c +ℤ pos 0) last ∙ take_back_all remaining
pay_places-total fl pool order places i remaining (suc left) h =
    let c : ℤ = if suc i == places then remaining else pos (fl.share pool places i) in
    ap (λ x. c +ℤ x)
      (pay_places-total fl pool order places (suc i) (remaining -ℤ c) left (omega arith))
    ∙ split_off remaining c

-- The places of a tournament are paid the prize pool, neither more nor less, whatever the shares.
pub compute_payouts-total :
    (fl : Floors) (pool : ℕ) (order : List ℕ)
    → total_chips (compute_payouts fl pool order) ≡ pos pool
unfolding compute_payouts
compute_payouts-total fl pool order =
    pay_all (paid_places fl (length order)) (some_place fl (length order))
  where
    pay_all : (n : ℕ) → 1 ≤ n → total_chips (pay_places fl pool order n 0 (pos pool) n) ≡ pos pool
    pay_all zero h = absurd (omega arith)
    pay_all (suc n) h = pay_places-total fl pool order (suc n) 0 (pos pool) n (omega arith)

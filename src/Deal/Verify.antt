-- ===== src/Deal/Verify.antt =====
-- packages/deal/src/index.ts: a deal passes its own check, and a deck that passes it is the shuffle.
use vr_poker.Prelude.{
  ℕ, zero, suc, ◌+◌, ◌≤◌, ◌<◌, ◌≡◌, inl, inr, refl, ap, sym, ◌∙◌, true, some, List, [], ◌∷◌, map,
  arith, length, take, All, Bool-cases, Option-cases, dec_lt, ltb,
}
use vr_poker.Cards.{Card, card_id, card_from_id}
use vr_poker.Cards.Texts.{card_from_id_lem}
use vr_poker.Deal.{
  Buffer, SealedDeal, same_bytes, range, cards_of, matches, commit_seed, fisher_yates, open_hand,
  verify_shuffle,
}
use vr_poker.Deal.Shuffle.{count, Plentiful, fisher_yates-Rearranged}

count-range : (a i n : ℕ) → i + n ≤ a → count a (range i n) ≡ 0
count-range a i zero h = refl
count-range a i (suc n) h = ground (arith, count-range a (suc i) n)

length-range : (i n : ℕ) → length (range i n) ≡ n
length-range i zero = refl
length-range i (suc n) = ap suc (length-range (suc i) n)

-- What does not stand in a list is not among its numbers.
below_of_counts : (m : ℕ) (xs : List ℕ) → ((a : ℕ) → m ≤ a → count a xs ≡ 0) → All (λ x. x < m) xs
below_of_counts m [] h = tt
below_of_counts m (x ∷ xs) h = elim (dec_lt x m) [
  | yes lt ↦ (lt, below_of_counts m xs (λ a le. omega (arith, h a le)))
  | no ge ↦ absurd (ground (arith, h x))
]

cards_of-cons :
    (id : ℕ) (ids : List ℕ) (c : Card) (cs : List Card)
    → card_from_id id ≡ some c
    → cards_of ids ≡ some cs
    → cards_of (id ∷ ids) ≡ some (c ∷ cs)
unfolding cards_of
cards_of-cons id ids c cs e es = rw (e, es, cards_of) refl

cards_of-some :
    (ids : List ℕ)
    → All (λ x. x < 52) ids
    → (deck : List Card) × (cards_of ids ≡ some deck) × (map card_id deck ≡ ids)
unfolding cards_of
cards_of-some [] h = ([], refl, refl)
cards_of-some (id ∷ ids) h =
    let (c, e, ok, same) = card_from_id_lem id (omega (arith, h.0)) in
    let (cs, es, all_same) = cards_of-some ids h.1 in
    (c ∷ cs, cards_of-cons id ids c cs e es, ground (arith, same, all_same))

id_of_card : (id : ℕ) (c : Card) → card_from_id id ≡ some c → card_id c ≡ id
unfolding card_from_id
id_of_card id c e = elim (Bool-cases (ltb 51 id)) [
  | inl y ↦ absurd (let no = rw (y, card_from_id) at e in cc)
  | inr n ↦
      let (found, f, fine, same) = card_from_id_lem id (ground (arith, n)) in
      let one : some found ≡ some c = sym f ∙ e in let card : found ≡ c = cc in rw card at same
]

-- The cards that a list of numbers gives have these numbers.
pub cards_of-ids :
    (ids : List ℕ) (deck : List Card) → cards_of ids ≡ some deck → map card_id deck ≡ ids
unfolding cards_of
cards_of-ids [] deck e = let same : [] ≡ deck = cc in rw (sym same) refl
cards_of-ids (id ∷ ids) deck e = elim (Option-cases (card_from_id id)) [
  | inl n ↦ absurd (let no = rw (n, cards_of) at e in cc)
  | inr (c, f) ↦ elim (Option-cases (cards_of ids)) [
    | inl n ↦ absurd (let no = rw (f, n, cards_of) at e in cc)
    | inr (cs, g) ↦
        let found : some (c ∷ cs) ≡ some deck = sym (cards_of-cons id ids c cs f g) ∙ e in
        let same : c ∷ cs ≡ deck = cc in
        rw (sym same, id_of_card id c f, cards_of-ids ids cs g) refl
  ]
]

matches-own : (ids : List ℕ) (deck : List Card) → map card_id deck ≡ ids → matches ids deck ≡ true
unfolding matches
matches-own [] deck h = refl
matches-own (id ∷ ids) [] h = cc
matches-own (id ∷ ids) (c ∷ cs) h = ground (arith, h, matches-own ids cs)

matches-take :
    (ids : List ℕ) (deck : List Card)
    → matches ids deck ≡ true
    → take (length ids) (map card_id deck) ≡ ids
unfolding matches
matches-take [] deck h = refl
matches-take (id ∷ ids) [] h = cc
matches-take (id ∷ ids) (c ∷ cs) h = ground (arith, h, matches-take ids cs)

same_bytes_refl : (b : Buffer) → same_bytes b b ≡ true
same_bytes_refl [] = refl
same_bytes_refl (x ∷ xs) = ground (arith, same_bytes_refl xs)

same_bytes-eq : (a b : Buffer) → same_bytes a b ≡ true → a ≡ b
same_bytes-eq [] [] h = refl
same_bytes-eq [] (y ∷ ys) h = cc
same_bytes-eq (x ∷ xs) [] h = cc
same_bytes-eq (x ∷ xs) (y ∷ ys) h = ground (arith, h, same_bytes-eq xs ys)

abbrev sealed :
    (List Buffer → Buffer) → (Buffer → Buffer) → Buffer → Buffer → List Card → SealedDeal
sealed sha256 to_hex seed nonce deck = record {
  commitment = commit_seed sha256 to_hex seed nonce;
  deck = deck;
  seed = to_hex seed;
  nonce = to_hex nonce;
}

module _ (sha256 : List Buffer → Buffer) (fuel : ℕ) (to_hex from_hex : Buffer → Buffer) where
  opened :
      (seed nonce : Buffer) (order : List ℕ) (deck : List Card)
      → fisher_yates sha256 fuel (range 0 52) seed nonce ≡ some order
      → cards_of order ≡ some deck
      → open_hand sha256 fuel to_hex seed nonce ≡ some (sealed sha256 to_hex seed nonce deck)
  unfolding open_hand
  opened seed nonce order deck e d = rw (e, d, open_hand) refl

  -- A deck whose numbers are the shuffle that was committed to verifies.
  pub checked :
      (a b commitment : Buffer) (order : List ℕ) (deck : List Card)
      → commit_seed sha256 to_hex (from_hex a) (from_hex b) ≡ commitment
      → fisher_yates sha256 fuel (range 0 52) (from_hex a) (from_hex b) ≡ some order
      → map card_id deck ≡ order
      → verify_shuffle sha256 fuel to_hex from_hex a b commitment deck ≡ some true
  unfolding verify_shuffle
  checked a b commitment order deck same e ids =
      rw (same, same_bytes_refl commitment, e, matches-own order deck ids) refl

  -- Where the stream has enough blocks, the shuffle gives a deck.
  pub deck_dealt :
      (seed nonce : Buffer)
      → Plentiful sha256 fuel seed nonce 52
      → (order : List ℕ) × (deck : List Card) × (fisher_yates sha256 fuel (range 0 52) seed nonce
          ≡ some order)
        × (cards_of order ≡ some deck)
        × (map card_id deck ≡ order)
        × ((id : ℕ) → count id order ≡ count id (range 0 52))
  deck_dealt seed nonce plenty =
      let (order, e, counts) = fisher_yates-Rearranged sha256 fuel seed nonce (range 0 52) plenty in
      let bounded = below_of_counts 52 order (λ a le. counts.0 a ∙ count-range a 0 52 le) in
      let (deck, dealt, ids) = cards_of-some order bounded in (order, deck, e, dealt, ids, counts.0)

  -- Where the stream has enough blocks, and the hexadecimal texts of the seed and the nonce read back
  -- as these, a hand opens; its deck has every card once; and the check of what the deal reveals,
  -- against its commitment and its deck, succeeds.
  pub deal_verifies :
      (seed nonce : Buffer)
      → from_hex (to_hex seed) ≡ seed
      → from_hex (to_hex nonce) ≡ nonce
      → Plentiful sha256 fuel seed nonce 52
      → (d : SealedDeal) × (open_hand sha256 fuel to_hex seed nonce ≡ some d)
        × ((id : ℕ) → count id (map card_id d.deck) ≡ count id (range 0 52))
        × (verify_shuffle sha256 fuel to_hex from_hex d.seed d.nonce d.commitment d.deck
            ≡ some true)
  deal_verifies seed nonce hs hn plenty =
      let (order, deck, e, dealt, ids, counts) = deck_dealt seed nonce plenty in
      (
        sealed sha256 to_hex seed nonce deck,
        opened seed nonce order deck e dealt,
        (λ id. rw ids (counts id)),
        checked (to_hex seed) (to_hex nonce) (commit_seed sha256 to_hex seed nonce) order deck
            (rw (hs, hn) refl) (rw (hs, hn) e) ids,
      )

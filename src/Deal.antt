-- ===== src/Deal.antt =====
-- packages/deal/src/index.ts: the shuffle that is committed to before a hand and checked after it.
-- A buffer is the list of its bytes. SHA-256, the random bytes and the hexadecimal texts are Node's:
-- the digest of a list of buffers, the seed and the nonce are arguments, and so are the two
-- conversions of buffers. The loop that waits for an acceptable block runs on fuel.
pub mod Shuffle
pub mod Verify
mod Examples
use vr_poker.Prelude.{
  ℕ, zero, suc, ◌+◌, ◌-◌, ◌*◌, ◌/◌, ◌%◌, ◌^◌, Bool, true, false, not, ◌&&◌, Option, none, some,
  List, [], ◌∷◌, if◌then◌else◌, ltb, ◌==◌, length, get_or, set,
}
use vr_poker.Cards.{Card, card_id, card_from_id}

abbrev pub Buffer : Type 0
Buffer = List ℕ

-- `readUInt32BE(0)`, of a digest, which has 32 bytes
abbrev pub read_word : Buffer → ℕ
read_word b = get_or b 0 0 * 2 ^ 24 + get_or b 1 0 * 2 ^ 16 + get_or b 2 0 * 2 ^ 8 + get_or b 3 0

-- `Buffer.from([c >> 24, c >> 16, c >> 8, c])`, of which each entry is kept modulo 256
abbrev pub counter_bytes : ℕ → Buffer
counter_bytes c = c / 2 ^ 24 % 256 ∷ c / 2 ^ 16 % 256 ∷ c / 2 ^ 8 % 256 ∷ c % 256 ∷ []

-- the blocks below this bound are taken, which is a multiple of `n`
abbrev pub limit : ℕ → ℕ
limit n = 2 ^ 32 - 2 ^ 32 % n

abbrev pub swap : ℕ → ℕ → List ℕ → List ℕ
swap i j xs = set (set xs i (get_or xs j 0)) j (get_or xs i 0)

abbrev pub same_bytes : Buffer → Buffer → Bool
same_bytes [] [] = true
same_bytes (x ∷ xs) (y ∷ ys) = x == y && same_bytes xs ys
same_bytes _ _ = false

-- `[...Array(n).keys()]`, from `i` on
abbrev pub range : ℕ → ℕ → List ℕ
range i zero = []
range i (suc n) = i ∷ range (suc i) n

-- `order.map(cardFromId)`
unfoldable pub cards_of : List ℕ → Option (List Card)
unfolding card_from_id
cards_of [] = some []
cards_of (id ∷ ids) =
    let rest = cards_of ids in
    elim (card_from_id id) [
      | none ↦ none
      | some c ↦ elim rest [ none ↦ none | some cs ↦ some (c ∷ cs) ]
    ]

-- the `every` of `verifyShuffle`
unfoldable pub matches : List ℕ → List Card → Bool
unfolding card_id
matches [] deck = true
matches (id ∷ ids) [] = false
matches (id ∷ ids) (c ∷ cs) = id == card_id c && matches ids cs

pub record SealedDeal : Type 0 where
  pub commitment : Buffer
  pub deck : List Card
  pub seed : Buffer
  pub nonce : Buffer

module _ (sha256 : List Buffer → Buffer) where
  -- the word that `hmacCounter` gives for a counter
  abbrev pub block : Buffer → Buffer → ℕ → ℕ
  block seed nonce c = read_word (sha256 (seed ∷ nonce ∷ counter_bytes c ∷ []))

  -- the hexadecimal text of the digest
  unfoldable pub commit_seed : (Buffer → Buffer) → Buffer → Buffer → Buffer
  commit_seed to_hex seed nonce = to_hex (sha256 (seed ∷ nonce ∷ []))

module _ (sha256 : List Buffer → Buffer) (fuel : ℕ) where
  -- the rounds that are left; the result is the number with the counter that follows
  unfoldable pub draw : Buffer → Buffer → ℕ → ℕ → ℕ → Option (ℕ × ℕ)
  draw seed nonce n zero c = none
  draw seed nonce n (suc left) c =
      let later = draw seed nonce n left (suc c) in
      if ltb (block sha256 seed nonce c) (limit n)
      then some (block sha256 seed nonce c % n, suc c)
      else later

  unfoldable pub stream_int : Buffer → Buffer → ℕ → ℕ → Option (ℕ × ℕ)
  unfolding draw
  stream_int seed nonce n c = draw seed nonce n fuel c

  -- the loop from `i` down to 1
  unfoldable pub shuffle_from : Buffer → Buffer → ℕ → List ℕ → ℕ → Option (List ℕ)
  unfolding stream_int
  shuffle_from seed nonce zero out c = some out
  shuffle_from seed nonce (suc i) out c = elim (stream_int seed nonce (suc (suc i)) c) [
    | none ↦ none
    | some (j, c') ↦ shuffle_from seed nonce i (swap (suc i) j out) c'
  ]

  unfoldable pub fisher_yates : List ℕ → Buffer → Buffer → Option (List ℕ)
  unfolding shuffle_from
  fisher_yates ids seed nonce = shuffle_from seed nonce (length ids - 1) ids 0

  -- `CsprngDealSource.openHand`, for the random bytes drawn
  unfoldable pub open_hand : (Buffer → Buffer) → Buffer → Buffer → Option SealedDeal
  unfolding fisher_yates commit_seed cards_of
  open_hand to_hex seed nonce = elim (fisher_yates (range 0 52) seed nonce) [
    | none ↦ none
    | some order ↦ elim (cards_of order) [
      | none ↦ none
      | some deck ↦ some record {
        commitment = commit_seed sha256 to_hex seed nonce;
        deck = deck;
        seed = to_hex seed;
        nonce = to_hex nonce;
      }
    ]
  ]

  unfoldable pub verify_shuffle :
      (Buffer → Buffer) → (Buffer → Buffer) → Buffer → Buffer → Buffer → List Card → Option Bool
  unfolding fisher_yates commit_seed matches
  verify_shuffle to_hex from_hex seed_hex nonce_hex commitment deck =
      let seed = from_hex seed_hex in
      let nonce = from_hex nonce_hex in
      if not (same_bytes (commit_seed sha256 to_hex seed nonce) commitment)
      then some false
      else elim (fisher_yates (range 0 52) seed nonce) [
        | none ↦ none
        | some ids ↦ some (matches ids deck)
      ]

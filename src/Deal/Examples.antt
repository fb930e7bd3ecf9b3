-- ===== src/Deal/Examples.antt =====
-- The theorems on the shuffle for a digest that does not depend on its input.
use native.Mathlib.Nat.{mod-lt}
use vr_poker.Prelude.{ℕ, ◌^◌, ◌≡◌, refl, some, List, [], ◌∷◌, map, true, arith, replicate}
use vr_poker.Cards.{card_id}
use vr_poker.Deal.{Buffer, SealedDeal, range, fisher_yates, open_hand, verify_shuffle}
use vr_poker.Deal.Shuffle.{count, Rearranged, Plentiful, fisher_yates-Rearranged}
use vr_poker.Deal.Verify.{deal_verifies}

abbrev digest : List Buffer → Buffer
digest parts = replicate 32 7

abbrev same : Buffer → Buffer
same b = b

digest-Plentiful : Plentiful digest 1 (1 ∷ []) (2 ∷ []) 52
digest-Plentiful c n p le = (0, omega arith, omega (arith, mod-lt (2 ^ 32) p, le))

fisher_yates-Rearranged_example :
    (r : List ℕ) × (fisher_yates digest 1 (4 ∷ 4 ∷ 9 ∷ []) (1 ∷ []) (2 ∷ []) ≡ some r)
    × Rearranged (4 ∷ 4 ∷ 9 ∷ []) r
fisher_yates-Rearranged_example =
    fisher_yates-Rearranged digest 1 (1 ∷ []) (2 ∷ []) (4 ∷ 4 ∷ 9 ∷ [])
      (λ c n p le. digest-Plentiful c n p (omega (arith, le)))

deal_verifies_example :
    (d : SealedDeal) × (open_hand digest 1 same (1 ∷ []) (2 ∷ []) ≡ some d)
    × ((id : ℕ) → count id (map card_id d.deck) ≡ count id (range 0 52))
    × (verify_shuffle digest 1 same same d.seed d.nonce d.commitment d.deck ≡ some true)
deal_verifies_example =
    deal_verifies digest 1 same same (1 ∷ []) (2 ∷ []) refl refl digest-Plentiful

-- ===== src/DealRng/History.antt =====
-- services/deal-rng/src/history.ts: the last close of a hand, and the cards that were drawn in order.
use vr_poker.Prelude.{
  arith, ℕ, suc, ◌+◌, ◌≡◌, refl, Option, none, some, List, [], ◌∷◌, ◌++◌, length, get_elem?, inl,
  inr, Option-cases,
}
use vr_poker.DealRng.{DrawnCard, HistoryEvent, HandResult, close_of, latest_close}

-- The last of two that is there.
abbrev pub later : Option HandResult → Option HandResult → Option HandResult
later (some r) before = some r
later none before = before

pub latest_close-snoc :
    (id : ℕ) (es : List HistoryEvent) (e : HistoryEvent)
    → latest_close id (es ++ (e ∷ [])) ≡ later (close_of id e) (latest_close id es)
latest_close-snoc id [] e = elim (Option-cases (close_of id e)) [
  | inl n ↦ rw n refl
  | inr (r, y) ↦ rw y refl
]
latest_close-snoc id (x ∷ es) e = elim (Option-cases (close_of id e)) [
  | inl n ↦ rw (latest_close-snoc id es e, n) refl
  | inr (r, y) ↦ rw (latest_close-snoc id es e, y) refl
]

-- The cards are those of the deck, in its order and with their places, from place `i` on.
abbrev pub DrawsFrom : ℕ → List (List ℕ) → List DrawnCard → Type 0
DrawsFrom i deck [] = Unit
DrawsFrom i deck (d ∷ ds) =
    (d.index ≡ i) × (get_elem? deck i ≡ some d.card) × DrawsFrom (suc i) deck ds

pub DrawsFrom-snoc :
    (i : ℕ) (deck : List (List ℕ)) (ds : List DrawnCard) (d : DrawnCard)
    → DrawsFrom i deck ds
    → d.index ≡ i + length ds
    → get_elem? deck (i + length ds) ≡ some d.card
    → DrawsFrom i deck (ds ++ (d ∷ []))
DrawsFrom-snoc i deck [] d h e g =
    let at_start : i + 0 ≡ i = omega arith in (omega (arith, e), rw at_start at g, tt)
DrawsFrom-snoc i deck (x ∷ ds) d h e g =
    let shift : i + suc (length ds) ≡ suc i + length ds = omega arith in
    (h.0, h.1, DrawsFrom-snoc (suc i) deck ds d h.2 (omega (arith, e)) (rw shift at g))

-- ===== src/DealRng/Routes.antt =====
-- services/deal-rng/src/index.ts: the routes of the service. A request is the route that its method and
-- path pick, with the id of the path and the body that the route reads: an id that does not decode is
-- `none`, and so is a body whose JSON does not parse.
use vr_poker.Prelude.{ℕ, Option, none, some, List}
use vr_poker.Deal.{Buffer}
use vr_poker.DealRng.{
  DealRng, DealRngError, internal, out_of_blocks, Result, ok, err, DrawKind, DrawnCard, HandResult,
}
use vr_poker.DealRng.Service.{Extra, Opened, PublicHand, draw, peek_public, open_hand, close}
use vr_poker.DealRng.Closed.{Reaches, opens, draws, closes, stays, goes_on}

pub record OpenBody : Type 0 where
  pub hand_id : Option ℕ
  pub table_id : Option ℕ

pub data Route : Type 0 where
  options health : Route
  post_hand : Option OpenBody → Route
  post_draw : Option ℕ → Option DrawKind → Route
  post_close : Option ℕ → Option Extra → Route
  get_hand : Option ℕ → Route
  no_route : Route

pub data Body : Type 0 where
  no_content is_well not_found internal_error : Body
  hand_opened : Opened → Body
  card_drawn : DrawnCard → Body
  hand_closed : HandResult → Body
  hand_shown : PublicHand → Body
  refused : DealRngError → Body

abbrev pub Response : Type 0
Response = ℕ × Body

-- an error that is not the service's own is answered as internal
abbrev pub failure : DealRngError → Response
failure internal = (500, internal_error)
failure out_of_blocks = (500, internal_error)
failure e = (400, refused e)

abbrev pub reply : {A : Type 0} → ℕ → (A → Body) → Result A → Response
reply status f (ok a) = (status, f a)
reply status f (err e) = failure e

abbrev pub replied : {A : Type 0} → ℕ → (A → Body) → Result A × DealRng → Response × DealRng
replied status f (r, s) = (reply status f r, s)

module _ (sha256 : List Buffer → Buffer) (fuel : ℕ) (to_hex from_hex : Buffer → Buffer) where
  -- the arguments before the route are what the service draws, and the time
  unfoldable pub serve : ℕ → ℕ → Buffer → Buffer → Route → DealRng → Response × DealRng
  unfolding open_hand draw close peek_public
  serve fresh now seed nonce options s = ((204, no_content), s)
  serve fresh now seed nonce health s = ((200, is_well), s)
  serve fresh now seed nonce (post_hand (some b)) s =
      replied 201 hand_opened
        (open_hand sha256 fuel to_hex fresh now seed nonce b.hand_id b.table_id s)
  serve fresh now seed nonce (post_draw (some id) (some kind)) s =
      replied 200 card_drawn (draw id kind s)
  serve fresh now seed nonce (post_close (some id) (some extra)) s =
      replied 200 hand_closed (close sha256 fuel to_hex from_hex now id extra s)
  serve fresh now seed nonce (get_hand (some id)) s = (reply 200 hand_shown (peek_public id s), s)
  serve fresh now seed nonce no_route s = ((404, not_found), s)
  serve fresh now seed nonce route s = ((500, internal_error), s)

  -- What a request leaves is reached by the calls of the service.
  pub serve-Reaches :
      (fresh now : ℕ) (seed nonce : Buffer) (route : Route) (s : DealRng)
      → Reaches sha256 fuel to_hex from_hex s (serve fresh now seed nonce route s).1
  unfolding serve
  serve-Reaches fresh now seed nonce options s = stays
  serve-Reaches fresh now seed nonce health s = stays
  serve-Reaches fresh now seed nonce (post_hand none) s = stays
  serve-Reaches fresh now seed nonce (post_hand (some b)) s =
      goes_on stays (opens fresh now seed nonce b.hand_id b.table_id s)
  serve-Reaches fresh now seed nonce (post_draw none kind) s = stays
  serve-Reaches fresh now seed nonce (post_draw (some id) none) s = stays
  serve-Reaches fresh now seed nonce (post_draw (some id) (some kind)) s =
      goes_on stays (draws id kind s)
  serve-Reaches fresh now seed nonce (post_close none extra) s = stays
  serve-Reaches fresh now seed nonce (post_close (some id) none) s = stays
  serve-Reaches fresh now seed nonce (post_close (some id) (some extra)) s =
      goes_on stays (closes now id extra s)
  serve-Reaches fresh now seed nonce (get_hand none) s = stays
  serve-Reaches fresh now seed nonce (get_hand (some id)) s = stays
  serve-Reaches fresh now seed nonce no_route s = stays

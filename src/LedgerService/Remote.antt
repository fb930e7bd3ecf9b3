-- ===== src/LedgerService/Remote.antt =====
-- services/game-server/src/remote-ledger.ts: the ledger of the game server that is the ledger service,
-- where every request is answered. A call returns, or throws with the service's error as its text.
use Prim.Native.String.{String}
use vr_poker.Prelude.{ℕ, Bool, true, false, Option, none, some, List, [], ◌∷◌, ◌++◌}
use vr_poker.Prelude.Int.{ℤ, pos}
use vr_poker.Ledger.Entries.{LedgerEntry}
use vr_poker.Ledger.Clubs.{Percent}
use vr_poker.Ledger.Store.{MemoryLedgerStore}
use vr_poker.Auth.Subject.{AuthVerifyOptions, Key, Payload}
use vr_poker.LedgerService.{
  Route, post_account, get_account, post_buy_in, post_cash_out, Response, account, error,
  ServiceError,
}
use vr_poker.LedgerService.Handle.{handle, text_or}

pub data Remote (A : Type 0) : Type 0 where
  returned : A → Remote A
  thrown : ServiceError → Remote A

-- "Bearer "
abbrev bearer : List ℕ
bearer = 66 ∷ 101 ∷ 97 ∷ 114 ∷ 101 ∷ 114 ∷ 32 ∷ []

-- `authHeader`: the token of the server itself, if it has one, and else the header of the request that
-- the server answers; an empty token is none
abbrev pub auth_header : Option (List ℕ) → Option (List ℕ) → Option (List ℕ)
auth_header none own = own
auth_header (some token) own = some (bearer ++ token)

-- `postJson`, of which the data are not read
abbrev pub posted : Response × MemoryLedgerStore → Remote (Unit {0}) × MemoryLedgerStore
posted ((status, error e), s) = (thrown e, s)
posted ((status, body), s) = (returned tt, s)

-- `Number(data.balance ?? 0)` and `data.history ?? []`
abbrev pub balance_in : Response → Remote ℤ
balance_in (status, error e) = thrown e
balance_in (status, account user history) = returned user.balance
balance_in (status, body) = returned (pos 0)

abbrev pub history_in : Response → Remote (List LedgerEntry)
history_in (status, error e) = thrown e
history_in (status, account user (some history)) = returned history
history_in (status, body) = returned []

module _ (jwt_verify : List ℕ → Key → Option String → Option String → Option Payload)
    (disabled : Bool) (config : AuthVerifyOptions) (now : String) (uuid : ℕ)
    (default_rake : Percent) (text_of : ℕ → String) (empty : ℕ) where
  -- the service at the other end
  abbrev pub request : Option (List ℕ) → Route → MemoryLedgerStore → Response × MemoryLedgerStore
  request header route s =
      handle jwt_verify disabled config now uuid default_rake text_of empty header route s

  -- the arguments before the player are the two headers of `authHeader`
  unfoldable pub remote_balance :
      Option (List ℕ) → Option (List ℕ) → ℕ → MemoryLedgerStore → Remote ℤ
  unfolding handle
  remote_balance service own player s =
      balance_in (request (auth_header service own) (get_account player false) s).0

  unfoldable pub remote_history :
      Option (List ℕ) → Option (List ℕ) → ℕ → MemoryLedgerStore → Remote (List LedgerEntry)
  unfolding handle
  remote_history service own player s =
      history_in (request (auth_header service own) (get_account player true) s).0

  unfoldable pub remote_account :
      Option (List ℕ)
      → Option (List ℕ)
      → ℕ
      → Option String
      → MemoryLedgerStore
      → Remote (Unit {0}) × MemoryLedgerStore
  unfolding handle
  remote_account service own player name s = posted (
      request (auth_header service own)
        (post_account (
          some
            record { claimed = some player; display_name = some (text_or (text_of player) name) }))
        s)

  -- `ref_of` is the text of a table's id
  unfoldable pub remote_buy_in :
      (ℕ → String)
      → Option (List ℕ)
      → Option (List ℕ)
      → ℕ
      → ℤ
      → ℕ
      → MemoryLedgerStore
      → Remote (Unit {0}) × MemoryLedgerStore
  unfolding handle
  remote_buy_in ref_of service own player amount table s = posted (
      request (auth_header service own)
        (post_buy_in
          (some record { claimed = some player; amount = some amount; ref = some (ref_of table) }))
        s)

  -- an add-on is a buy-in, whose `ref_of` is that text with ":add-on" after it
  unfoldable pub remote_cash_out :
      (ℕ → String)
      → Option (List ℕ)
      → Option (List ℕ)
      → ℕ
      → ℤ
      → ℕ
      → MemoryLedgerStore
      → Remote (Unit {0}) × MemoryLedgerStore
  unfolding handle
  remote_cash_out ref_of service own player amount table s = posted (
      request (auth_header service own)
        (post_cash_out
          (some record { claimed = some player; amount = some amount; ref = some (ref_of table) }))
        s)

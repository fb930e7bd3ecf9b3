-- ===== src/Server/Http.antt =====
-- services/game-server/src/app.ts: what `handleHttp` takes and gives, and `handleError`.
-- A request is the route that its method and path pick, with the parts of the path and the body that
-- the route reads; a body whose JSON does not parse is `none`. Numbers in a body are integers.
pub mod Handle
pub mod Refusals
pub mod Owners
mod Examples
use Prim.Native.String.{String}
use vr_poker.Prelude.{ℕ, Bool, true, false, Option, List}
use vr_poker.Prelude.Int.{ℤ}
use vr_poker.Ledger.Entries.{LedgerEntry, LedgerError, ledger_error_not_bound}
use vr_poker.Auth.Subject.{AuthError, bad_token}
use vr_poker.Table.State.{TableConfig, PlayerAction}
use vr_poker.Table.Monad.{Error, bad_hand, null_access}
use vr_poker.Table.Snapshot.{TableSnapshot}
use vr_poker.Server.Ops.{ServerError, of_table, of_ledger, table_not_found}

-- A text that is empty or absent is no player.
pub record AccountBody : Type 0 where
  pub player_id : Option ℕ
  pub name : Option String

-- the configuration with the defaults under it
pub record TableBody : Type 0 where
  pub id : Option ℕ
  pub config : TableConfig

pub record SitBody : Type 0 where
  pub player_id : Option ℕ
  pub name : Option String
  pub buy_in : ℤ
  pub seat : Option ℤ

pub record AmountBody : Type 0 where
  pub player_id : Option ℕ
  pub amount : ℤ

pub record PlayerBody : Type 0 where
  pub player_id : Option ℕ

pub record ActBody : Type 0 where
  pub player_id : Option ℕ
  pub action : PlayerAction

-- The routes in the order in which they are tried; of the account that is read, `none` is a part of
-- the path that does not decode.
pub data Route : Type 0 where
  options health : Route
  opens_account : Option AccountBody → Route
  reads_account : Option (Option ℕ) → Route
  opens_table : Option TableBody → Route
  sits_at : ℕ → Option SitBody → Route
  adds_on_at : ℕ → Option AmountBody → Route
  leaves_from : ℕ → Option PlayerBody → Route
  starts_at : ℕ → Route
  acts_at : ℕ → Option ActBody → Route
  reads_table : ℕ → Option ℕ → Route
  no_route : Route

pub data HttpError : Type 0 where
  of_auth : AuthError → HttpError
  of_server : ServerError → HttpError
  not_found internal : HttpError

pub data Body : Type 0 where
  no_content : Body
  is_well : ℕ → Body
  account_opened : ℕ → String → ℤ → Option ℕ → Body
  account : ℕ → String → ℤ → List LedgerEntry → Body
  table : TableSnapshot → Body
  cashed_out : ℕ → ℕ → ℤ → Body
  error : HttpError → Body

pub record Response : Type 0 where
  pub status : ℕ
  pub body : Body

abbrev pub response : ℕ → Body → Response
response status body = record { status = status; body = body }

-- An error that is not one of the program's own is answered as internal.
abbrev pub error_for : ServerError → HttpError
error_for (of_table bad_hand) = internal
error_for (of_table null_access) = internal
error_for (of_ledger ledger_error_not_bound) = internal
error_for e = of_server e

abbrev pub error_of : AuthError → HttpError
error_of bad_token = internal
error_of e = of_auth e

abbrev pub error_status : HttpError → ℕ
error_status (of_auth e) = 401
error_status (of_server e) = 400
error_status not_found = 404
error_status internal = 500

-- `handleError`, and the answer to what no route matches
abbrev pub failure : HttpError → Response
failure e = response (error_status e) (error e)

-- ===== src/LedgerService.antt =====
-- services/ledger/src/index.ts: what the ledger service takes and gives, and `handleError`. A request
-- is the route that its method and path pick, with the parts of the path, which decode, and the body
-- that the route reads; a body whose JSON does not parse is `none`. The store is the one in memory.
pub mod Handle
pub mod Grown
pub mod Tokens
pub mod Remote
pub mod Serviced
mod Examples
use Prim.Native.String.{String}
use vr_poker.Prelude.{ℕ, Bool, Option, List}
use vr_poker.Prelude.Int.{ℤ}
use vr_poker.Ledger.Entries.{LedgerEntry, LedgerError, ledger_error_not_bound}
use vr_poker.Ledger.Chips.{Amount}
use vr_poker.Ledger.Clubs.{Club, ClubMember, ClubRole, ClubPatch, ClubTableConfig}
use vr_poker.Ledger.Store.{UserAccount}
use vr_poker.Auth.Subject.{AuthError, bad_token}

-- `claimed` is what the body says first of `authSubject` and `playerId`; an empty text is none.
pub record ActorBody : Type 0 where
  pub claimed : Option ℕ

pub record AccountBody : Type 0 where
  pub claimed : Option ℕ
  pub display_name : Option String

-- an amount that is no integer is `none`
pub record AmountBody : Type 0 where
  pub claimed : Option ℕ
  pub amount : Amount
  pub ref : Option String

-- the settings of a new club, or of a change; a new club does not read the name among these
pub record ClubBody : Type 0 where
  pub claimed : Option ℕ
  pub settings : ClubPatch

pub record MemberBody : Type 0 where
  pub claimed : Option ℕ
  pub member : Option ℕ
  pub role : Option ClubRole

pub data Route : Type 0 where
  options health : Route
  post_account : Option AccountBody → Route
  get_account : ℕ → Bool → Route
  post_buy_in post_cash_out : Option AmountBody → Route
  post_club : Option ClubBody → Route
  get_club : ℕ → Route
  patch_club : ℕ → Option ClubBody → Route
  delete_club : ℕ → Option ActorBody → Route
  get_members : ℕ → Route
  post_member : ℕ → Option MemberBody → Route
  delete_member : ℕ → ℕ → Option ActorBody → Route
  get_table_config get_user_clubs : ℕ → Route
  no_route : Route

pub data ServiceError : Type 0 where
  of_auth : AuthError → ServiceError
  of_ledger : LedgerError → ServiceError
  auth_subject_required not_found internal : ServiceError

pub data Body : Type 0 where
  no_content is_well done_well : Body
  account : UserAccount → Option (List LedgerEntry) → Body
  posted : LedgerEntry → ℤ → Body
  club : Club → Body
  members : List ClubMember → Body
  member : ClubMember → Body
  table_config : ClubTableConfig → Body
  clubs : List Club → Body
  error : ServiceError → Body

abbrev pub Response : Type 0
Response = ℕ × Body

abbrev pub error_status : ServiceError → ℕ
error_status (of_auth e) = 401
error_status (of_ledger e) = 400
error_status auth_subject_required = 400
error_status not_found = 404
error_status internal = 500

-- `handleError`: what is no error of the program's own is answered as internal
abbrev pub error_for : LedgerError → ServiceError
error_for ledger_error_not_bound = internal
error_for e = of_ledger e

abbrev pub error_of : AuthError → ServiceError
error_of bad_token = internal
error_of e = of_auth e

abbrev pub failure : ServiceError → Response
failure e = (error_status e, error e)

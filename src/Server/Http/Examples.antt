-- ===== src/Server/Http/Examples.antt =====
-- Tests of services/game-server/src/app.ts: requests to a server with one table.
use Prim.Native.String.{String}
use vr_poker.Prelude.{ℕ, ◌≡◌, ◌⊎◌, refl, false, Option, none, some, List, [], ◌∷◌}
use vr_poker.Prelude.Int.{pos, ◌+ℤ◌, ◌-ℤ◌}
use vr_poker.Ledger.Chips.{ChipLedger, empty_ledger, balance, post_buy_in}
use vr_poker.Auth.Bearer.{bearer_from_header}
use vr_poker.Auth.Subject.{
  AuthVerifyOptions, Key, Payload, SpeaksFor, require_auth_header, resolve_subject,
  missing_bearer_token, verify_access_token,
}
use vr_poker.Table.Scenes.{config_of, source}
use vr_poker.Table.Monad.{running}
use vr_poker.Table.Play.{sit, new_table}
use vr_poker.Server.Port.{ChipLedgerPort}
use vr_poker.Server.LocalPort.{local_port, open_account}
use vr_poker.Server.LocalOthers.{local_port-KeepsOthers}
use vr_poker.Server.Ops.{Server, ensure_account, sit_at_table, broadcast_table}
use vr_poker.Server.Http.{Route, opens_table, sits_at, starts_at}
use vr_poker.Server.Http.Handle.{handle_http}
use vr_poker.Server.Http.Refusals.{Refused, unauthorised_changes_nothing}
use vr_poker.Server.Http.Owners.{only_owners_move}

abbrev port : ChipLedgerPort ChipLedger
port = local_port "now" (λ id. "table")

-- every token is one of the player 7
abbrev jose : List ℕ → Key → Option String → Option String → Option Payload
jose token key issuer audience = some record { sub = some 7; email = none }

abbrev config : AuthVerifyOptions
config = record { jwks_url = none; issuer = none; audience = none; secret = some "secret" }

-- "Bearer t"
abbrev header : Option (List ℕ)
header = some (66 ∷ 101 ∷ 97 ∷ 114 ∷ 101 ∷ 114 ∷ 32 ∷ 116 ∷ [])

abbrev empty_server : Server ChipLedger
empty_server = record { tables = []; ledger = empty_ledger; names = []; timers = [] }

abbrev opening : Route
opening = opens_table (some record { id = some 3; config = config_of 2 })

-- the server after a request for a table, which needs no token
abbrev server : Server ChipLedger
server =
    (handle_http jose false config port (λ id. "Ann") (λ n. n) source none opening empty_server).1

abbrev sitting : Route
sitting =
    sits_at 3 (some record { player_id = some 7; name = none; buy_in = pos 5000; seat = none })

seated :
    let r =
      handle_http jose false config port (λ id. "Ann") (λ n. n) source header sitting server in
    (r.0.status ≡ 200) × (balance 7 r.1.ledger ≡ pos 95_000)
unfolding handle_http require_auth_header resolve_subject verify_access_token bearer_from_header
    new_table sit_at_table sit running open_account post_buy_in ensure_account broadcast_table ◌-ℤ◌
    ◌+ℤ◌
seated = (refl, refl)

only_owners_move_example :
    (balance 8
        (handle_http jose false config port
          (λ id. "Ann")
          (λ n. n)
          source
          header
          sitting
          server).1.ledger
      ≡ balance 8 server.ledger)
    ⊎ SpeaksFor jose config (bearer_from_header header) none 8
only_owners_move_example =
    only_owners_move jose config port (local_port-KeepsOthers "now" (λ id. "table")) (λ id. "Ann")
      header 8 server (λ n. n) source sitting

unauthorised_changes_nothing_example :
    Refused server
      (handle_http jose false config port (λ id. "Ann") (λ n. n) source none (starts_at 3) server)
unfolding require_auth_header bearer_from_header
unauthorised_changes_nothing_example =
    unauthorised_changes_nothing jose false config none server missing_bearer_token refl port
      (λ id. "Ann") (λ n. n) source (starts_at 3) refl

-- ===== src/Lib.antt =====
-- The poker engine, the ledger and the game server of the repository.
--
-- Parts. A table (packages/core) seats players, deals a hand, takes their actions and settles the
-- pots; it evaluates hands with the evaluator, splits what was bet with the functions on pots, and
-- writes cards with the functions on cards. The ledger (packages/ledger) keeps the chips that
-- players hold away from the tables, the cosmetics they own, and the clubs that set the rake. A
-- tournament (packages/tournament) registers players, seats and reseats them, and pays the places.
-- A deal (packages/deal) shuffles a deck from a seed that is committed to; the cosmetics
-- (packages/cosmetics) are bought with chips of the ledger. The game server (services/game-server)
-- moves chips between the ledger and the tables for players whom it knows by their tokens
-- (packages/auth), and speaks to them over HTTP, in rooms of web sockets and in the protocol of a
-- casino. The deal service (services/deal-rng) deals hands of its own and keeps their results, and
-- the game server can mirror its deals there. The ledger service (services/ledger) is the ledger
-- behind HTTP, which the game server can use in place of one in memory. A client (packages/netcode)
-- keeps the states and the poses that a room sends it.
--
-- Files.
--   Pots       packages/core/src/pots.ts (returnUncalled, buildPots, takeRake, splitPot)
--   Cards      packages/core/src/cards.ts
--   Evaluator  packages/core/src/evaluator.ts
--   Table      packages/core/src/table.ts, types.ts and deal.ts. State is the class's fields; Monad
--              is a method, a function from the table to a result and the table it leaves, also
--              when it throws; Seats, Legal, Betting, Settle, Streets, Play and Snapshot hold the
--              methods, named as in the source but in snake case (applyAction is apply_action,
--              showdown is run_showdown). Chips, Credit, Wager, Payout, Showdown, Accounts, Bank
--              and Shape are about the number of chips and of seats; Fuel, Rounds, Closing and
--              Termination about the rounds of streets.
--   Ledger     packages/ledger/src: Entries (entries.ts, errors.ts), Chips (chip-ledger.ts),
--              Ownership (ownership-ledger.ts), Clubs (clubs.ts, types.ts), Store (memory-store.ts).
--              Balances, Debits, Roles and Welcome are about them.
--   Tournament packages/tournament/src: Payouts (payouts.ts), Tables (balance.ts), Engine (engine.ts
--              and types.ts), Leaderboard (engine.ts), Scheduler (scheduler.ts); Service and Charges
--              are services/tournament/src/index.ts.
--   Deal       packages/deal/src/index.ts; Shuffle and Verify are about it.
--   DealRng    services/deal-rng/src: the types and the history (history.ts), Service (service.ts),
--              Routes (index.ts); History, Sound and Closed are about them, where Closed has the
--              relation of the states that calls reach.
--   LedgerService  services/ledger/src/index.ts: the requests, and Handle; Remote is
--              services/game-server/src/remote-ledger.ts over the model of the service. Grown and
--              Tokens are about the entries that requests append, Serviced about the token of a server.
--   Auth       packages/auth/src/index.ts: Bearer (bearerFromHeader) and Subject (the rest).
--   Cosmetics  packages/cosmetics/src: Shop (store.ts, catalog.ts, types.ts); Purchase is about it.
--   Server     services/game-server/src: Port and LocalPort (ledger-port.ts), Ops (table-ops.ts and
--              the handlers of app.ts), Balance about them; Interleaved cuts the requests that move
--              chips at their awaits (a job is the rest of a request after its ledger call, an event
--              is a request or the going on of a job), Flight and LocalTotal about it; Others and
--              LocalOthers say that a request is for one player; Http with Handle (handleHttp of
--              app.ts), Refusals and Owners about it; Casino with Map, Runtime, Rpc with Calls and
--              Dispatch, and Gateway (the files of casino/ of these names), Offered, Sessions,
--              Access, Kept, Own and Balances about them; Room with State and Handle (ws.ts, and the
--              messages of packages/netcode/src/protocol.ts), Presence about them. What the server
--              needs of a ledger is the record ChipLedgerPort with the laws IsPort; the handlers are
--              written for any such port. A remote ledger whose calls can fail does not keep the law
--              `credits`, that chips are always taken back.
--   Netcode    packages/netcode/src: Pose (PoseInterpolator of pose.ts), Client (TableClient of
--              client.ts); Buffer and Received are about them.
--   Prelude    the shared types, operators and lemmas: lists, maps, sums, sorting, integers, bits.
--
-- Conventions. Chips are natural numbers, identifiers are natural numbers, since they are only
-- compared. The amounts, buy-ins and seats that a client sends are integers: the server takes any
-- number of JavaScript (app.ts, Number(body.amount)), and the model says nothing of requests with
-- NaN or a fraction, which get past some of the guards. The rake percentage is a floating-point
-- number: the model knows it by whether it is positive and by the floor of its product with an
-- amount, and the lemmas that need it ask that this floor is at most the amount (IsFraction). A
-- text of cards is the list of its character codes. The times and the random ids of the platform
-- are arguments.
--
-- But for Interleaved, a request of a server is handled as a whole, and a promise is its result.
--
-- Fuel. The loop of buildPots runs once for each player still in it, and each round takes one out,
-- so the number of contributions is enough, which its theorems show without a hypothesis on fuel.
-- The loop that passes over players all-in has the bound of the source. The streets that close at
-- once call each other at most four times, for the four streets of a hand; running out would be the
-- error out_of_streets, which the source does not have. A draw of the shuffle tries words of a stream
-- of hashes until one is below its bound, which no bound on the rounds ensures: the theorems on it
-- ask that within the fuel of each draw the stream has such a word (Plentiful).
--
-- Not modelled. The mirror of deals at the deal service (services/game-server/src/audited-deal.ts),
-- whose wait for a promise (packages/deal/src/block-promise.ts) stops the event loop that the
-- promise needs, so that its calls do not return; the text of log lines, errors and messages, of
-- which the parts are kept; the Postgres store, the service of cosmetics, the clients and the
-- scripts, which are input and output; the interpolation of two poses, which is floating-point; and
-- the interleaving of the other requests. Tokens, hashes, random bytes, the clock and the texts of
-- ids are arguments.
pub mod Prelude
pub mod Pots
pub mod Cards
pub mod Evaluator
pub mod Table
pub mod Ledger
pub mod Netcode
pub mod Tournament
pub mod Deal
pub mod DealRng
pub mod LedgerService
pub mod Auth
pub mod Cosmetics
pub mod Server

-- ===== src/Lib.antt =====
-- jungle_gaming: the core of the betting wallet service.
--
-- The service keeps wallets of players, each in one currency, and applies the operations that game
-- providers send (BET, WIN, LOSS, REFUND, ROLLBACK). An operation arrives over HTTP or SQS, is validated,
-- recognised as a replay or a conflict by its idempotency key and its external identifier, and applied in
-- one unit of work that writes the transaction, the ledger entry, the wallet and the events of the
-- outbox together. A wallet is opened with an initial balance that has its own transaction and entry;
-- reconciliation compares the stored balance with the sum of the entries.
--
-- The parts:
--   Prelude     numbers, integers, int64 with its wrap-around, texts as lists of bytes, Boolean tests
--   Shared      internal/domain/shared: errors with their causes (errors_is is errors.Is), identifiers
--   Money       internal/domain/money: amounts, checked arithmetic; Money/Text is Parse and String
--   Wallet      internal/domain/wallet: Open, Rehydrate, Credit, Debit
--   Ledger      internal/domain/ledger: NewEntry and the balance equation
--   Wagering    internal/domain/wagering: kinds, states, failure codes; Wagering/Transaction is the
--               aggregate with its state machine (Machine) and its snapshot (Rehydrate)
--   Repository  internal/platform/postgres/repository with migrations/000001_initial_schema.up.sql: a table
--               is the list of its rows, newest first, and a statement runs on the tables under the
--               constraints of the schema; Ordered is the form of the queries in an order, Paging where
--               one goes on
--   UseCase     internal/application/usecase and repository/unit_of_work.go: the use cases run in a
--               state monad over the database and the number of outside calls made so far; UseCase/Process
--               is ProcessWagerTransaction, OpenWallet and Reconcile the other two; Triple has the rules
--               for what a success leaves of the wallets and the ledger, Gives those for the whole database,
--               Preserves those for what a run keeps however it ends; Books is the invariant, Atomic the
--               unit of work, Replay the idempotency and Report the reconciliation. UseCase/Pending is
--               ResolvePendingReferences: a tick is a series of units of work, each of which claims one
--               pending operation and settles, rejects or reschedules it. UseCase/Inbox is
--               HandleWagerMessage: a delivery and its inbox record in one unit of work
--   Messaging   internal/platform/awssqs: Publisher is the tick that claims a batch of the outbox under a lease,
--               sends its events and confirms or releases each in a unit of work of its own; Consumer is
--               handleOne, which deletes a message, moves it to the dead letter queue or leaves it
--   Http        internal/platform/httpserver: the routes of the operations, with the identity that
--               internal/platform/auth finds in the claims of a token, and the answers to errors
--
-- Names follow the source: MarkProcessed is mark_processed, ExecuteIn is execute_in, Add of Money is
-- add_money and the checked int64 addition under it add. A method that mutates its receiver returns the new
-- value. An error is a value of Result; message texts are left out, codes and causes are kept.
--
-- Parameters (the record Env): uuid.NewV7, uuid.Parse, the clock, the failures of the database, the digest
-- of the payload, uuid.UUID.String and the correlation identifier; json.Unmarshal is the record Decoder, the
-- queues are the records Sender and Sqs, the check of a token the record Tokens; the decoder of a request is
-- applied before the route.
-- A commit whose answer is lost has been applied or not, as Env says; it is atomic either way. A transaction
-- in which PostgreSQL has refused a statement refuses every other one and rolls back at its commit, with an
-- error. An identifier is a number, 0 the nil UUID; an instant is a number of nanoseconds, 0 the zero time.
-- A row keeps the instant that was written; the query for pending operations compares microseconds, as
-- PostgreSQL does.
--
-- Loops of the source run over the bytes of a text or over rows and are structural recursion. The digits of
-- a number are written on fuel of one more than the number, enough since each division by ten makes it
-- smaller. A tick runs on the rounds that its batch has, and the backoff on the rounds of its loop; nothing
-- else has fuel or a bound.
--
-- Not modelled: the routes of wallets, the keys of tokens, configuration, the loops of the workers,
-- logging, metrics, health and wiring; the bytes of the JSON payloads; interleavings of units of work,
-- since the row lock of a wallet and the database serialise them.
pub mod Prelude
pub mod Shared
pub mod Money
pub mod Wallet
pub mod Ledger
pub mod Wagering
pub mod Repository
pub mod UseCase
pub mod Messaging
pub mod Http

-- ===== src/Lib.antt =====
-- The loyalty points wallet: its ledger, accounts, audit trail, and who may do what.
--
-- The program is a JSON-RPC server over PostgreSQL. A request passes the policy gate, reaches a
-- handler with the caller's login claim, and goes on to a service, which calls repositories; a
-- repository method is one or two SQL statements. `ProcessTransaction` is the heart: it reads the
-- account in the caller's scope, and in one unit of work inserts a ledger row (a conflict on `ref`
-- is the sign of a duplicate), updates the balance under the overdraft guard and writes an audit
-- row; a rejected attempt is audited outside the unit of work that was rolled back.
--
-- The parts, and where they stand:
--   Prelude        shared names, Boolean tests, list searches, integers over the native numbers
--   Errs           pkg/errs/errors.go: `Error` has one constructor for each way to build an error
--   Sql            pkg/postgres/tx.go, pkg/postgres/errors.go, pkg/sql, pkg/time/time.go and the
--                  tables of pkg/postgres/migrations/0001_init.sql (Sql.Schema)
--   Authentication pkg/authentication: the login claim in a request's context
--   Authorization  pkg/authorization/permissions.go and policy.go; Scopes is pkg/scope/scope.go
--   Accounts       internal/pkg/accounts and pkg/accounts: Repository and Listing (the SQL), Service
--                  (with the opener), Adaptor (the handlers); Effects, Rows, Located, Credit,
--                  Privacy and Admin are about them
--   Audits         internal/pkg/audit and pkg/audits, in the same way
--   Wallets        internal/pkg/wallets and pkg/wallets: Repository, Service, Ingestion (the batch)
--                  and Adaptor; Effects, Settles and Attempt follow one attempt, Steps is the
--                  abstract machine, Invariant and Drift are about the tables, Retry about
--                  idempotency, Listing is the pages of the ledger (Order, Suffix, Cursor, Page,
--                  Cuts, Walk and Whole are about them), Liveness and Overdraft are about what the
--                  balance decides, Trail about the audit trail, Batch about batches. Concurrent has
--                  attempts at once: Turns is their steps; Alone sets an attempt
--                  without others beside `ProcessTransaction`, and Invariants, Once and Durable are
--                  about interleavings; Pages is about the size of a page
--   Users          internal/pkg/users/userRepositoryImpl.go and pkg/users: the user repository;
--                  (Listing its `List`); Revocation is about the session epoch, Privacy about the
--                  scoped reads
--   Sessions       internal/pkg/authentication and pkg/authentication: Tokens, Login, Logout; Validity,
--                  RoundTrip, Revoked, Credentials and SignedIn are about them
--   Registration   internal/pkg/users/userRegistrationServiceImpl.go and pkg/users: Service and Adaptor;
--                  Inserts, Enrolment and Outcome are about what it writes
--   Gateway        pkg/authorization/authorizationMiddleware.go (Authorizing), pkg/rateLimiting
--                  (Limiting), the chain of cmd/app/setupRPCServer.go (Chain), and what they write by
--                  pkg/jsonrpc/error.go (Http), and pkg/logger/middleware.go (Logging); Gate, Brake and
--                  Tokenless are about who gets through
--   Ingest         cmd/cli/pkg/ingest: Rows (the CSV file), Batch (the request), Summary, Printing (its
--                  `Format`), Preview, and Command (`Send`, and `runIngest` of cmd/cli/cmd/ingest.go);
--                  Order, Accounting, Sending and Repeats are about them
--   Migrations     pkg/postgres/migrate.go and client.go: Client, Statements and Run; Again is about a
--                  second start
--   Server         the services of cmd/app/setupRPCServer.go (Services) behind its codec (Calls);
--                  Methods sets them beside the policy, Anonymous and Reached are about the whole
--                  way of a request
--   Bootstrap      cmd/bootstrap/main.go: Run; Fresh and FirstLogin are about what it leaves
--   Startup        cmd/app/config.go, dependencies.go and main.go; Closed is about a start outside the
--                  local environment
--   Jsonrpc        pkg/jsonrpc/mapper.go and error.go: the errors that a client sees
--   Tests          a sample shop on which the theorems are used
--
-- An operation is an action: from an environment (clock, random ids, the driver's failures, the
-- texts of the libraries) and a state (the tables, and how often the environment was called) to a
-- result and a state. Each statement, BEGIN, COMMIT and ROLLBACK draws from the environment whether
-- the driver fails there, so the theorems hold for every pattern of failures. A statement that
-- fails has written nothing, and a COMMIT that reports a failure is taken not to have committed. A
-- query's text is the function of the tables that it denotes, with the owner clause where the
-- caller's scope adds it, and the constraints of the schema in the INSERTs. Wallets.Concurrent
-- interleaves attempts of any number of requests at their steps (the read of the account, the unit
-- of work, the audit of a rejection). A unit of work is one step there, since the unique index on
-- `ref` and the row lock of the UPDATE make conflicting ones wait; elsewhere requests run one by
-- one. `RowsAffected` is taken not to fail. Amounts are integers; a balance that leaves int64 is an
-- error of the UPDATE, as in PostgreSQL. Points come from validated requests, so their negation
-- stays in range. A response with one field is that field. All recursion is on lists and texts, so
-- no fuel is needed.
--
-- The libraries behind sessions and the gateway (encoding/json, go-jose, bcrypt, net/http, the
-- limiters package over Redis) are records that the definitions take as arguments; a theorem that
-- relies on one of their laws states it as a hypothesis. A middleware takes the next handler as an
-- argument, and an error reply is the value that WriteError writes. The buckets of the limiters are
-- outside, so what a limiter answers depends on the number of the call.
--
-- A process that ends by `log.Fatal` is an error. The codec's reading of a call and of its params is a
-- parameter, and a theorem that needs the gate and the codec to agree on a method says so.
--
-- Not modelled: the reading of flags, log lines but that of a request, the listener, the shutdown,
-- mocks and tests. A CSV file is what encoding/csv makes of it, with five fields in its first record.
pub mod Prelude
pub mod Errs
pub mod Sql
pub mod Authentication
pub mod Authorization
pub mod Accounts
pub mod Audits
pub mod Wallets
pub mod Users
pub mod Jsonrpc
pub mod Sessions
pub mod Registration
pub mod Gateway
pub mod Ingest
pub mod Migrations
pub mod Server
pub mod Bootstrap
pub mod Startup
pub mod Tests

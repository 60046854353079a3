-- ===== src/Lib.antt =====
-- Mixin Safe: custody of Bitcoin and Ethereum assets by a group of nodes. A keeper node receives
-- the outputs of a Mixin group (`mtg.Action`), reads a request out of each, and answers with
-- transactions of the group; it keeps safes, keys, deposits and transactions in a SQLite database.
-- A signer group holds the shares of the signer keys, and an observer watches the chains and sends
-- requests to the keeper. The development covers the vocabulary that the three share, the store of
-- the keeper, which every request ends in, and the keeper node: every handler that processAction
-- calls.
--
-- Parts and files:
--   Prelude         tests, lists and numbers that the modules share, strings as bytes.
--   Common          common/: the constants (Constants), `NormalizeCurve` and the chains of chain.go
--                   (Chain), `encoding/hex` as the code uses it (Hex), base91.go (Base91), the
--                   operation that a memo carries (Operation), the request (Request).
--   Keeper/Store    keeper/store/: the rows of schema.sql (Tables) and its unique indexes
--                   (Clashes), a transaction of database/sql and the statements of sqlite3.go (Tx),
--                   the tables as columns of the database and the statements that several
--                   methods run (Schema), and one module per file
--                   of methods: Requests (request.go, request_transactions.go), Keys (key.go),
--                   Safes (safe.go), Outputs (bitcoin.go, deposit.go), Balances (ethereum.go,
--                   migrate_asset.go), Networks (network.go, sqlite3.go), Transactions
--                   (transaction.go) and Signatures (signature.go).
--   Keeper/Calls    the methods that write, as calls of one type, so that a history of the
--                   database is a list of calls: each method locks the mutex of the store.
--                   Spending, History, Deposits, Answers and Finishing follow what a call does to the
--                   outputs, to the rows, and to the request and the result of an action.
--   Keeper/Node/Calls
--                   the calls of the store that each handler makes (a rule for each shape of a
--                   handler, one module per file of handlers), sequences of actions (History), and an output
--                    that comes again (Replay).
--   Keeper/Node     keeper/: what a node knows of the libraries and its configuration (World), the
--                   shape of a handler (Handler), the role and the handler of an action (Dispatch),
--                   ProcessOutput and processAction (Actions), request.go (Requests), node.go and
--                   observer.go (Build),
--                   signer.go (Signers, Keys), common.go (Keys), network.go (Network), the
--                   proposals of accounts and the extras (Proposal with ProposalBounds, Extras,
--                   Accounts), bitcoin.go with ParseSequence and ParseSatoshi of apps/bitcoin
--                   (Bitcoin), deposit.go (Deposits), ethereum.go (Ethereum), and the revocation,
--                   the response of the signers and migrate.go (Revoking).
--
-- A handler of the node is a function of the database: it goes on, replies with transactions and
-- the asset of a compaction, or panics, and it leaves a database. A call of a method of the store
-- that returns an error is a panic of the handler, as in the code. The clock is read once per run
-- of an action.
--
-- A method `FooWithRequest` of the source is the function `foo_with_request` here, in the state
-- and error monad `Tx`: `work` is what the open transaction sees, `db` what is committed, and
-- `closed` says that a commit has been made, after which a statement fails as `sql.ErrTxDone`
-- does. A method that returns without a commit leaves `db`, as `common.Rollback` does. A panic is
-- an outcome.
--
-- Numbers: an amount is the number of its units of 10^-8, a time is a number of nanoseconds, a
-- wall clock is an argument `now`, a `byte` is a number. A string is the list of its bytes. The
-- only fuel is that of `drain` in Common/Base91, the number of bits in the queue, which each step
-- shortens by eight. A row keeps the decimal digits of a balance as the number that they denote.
--
-- Parameters stand for the libraries: the encoder and the decoder of the mixin kernel, the text of
-- a uuid, the serialization of the transactions of a group, the balances of the group, the
-- building and reading of Bitcoin and Safe transactions, the hashes, keys and signatures, the
-- assets of the Mixin API, and what the RPCs know. An SQL engine that fails for a reason other
-- than a constraint or a number of rows, such as a full disk, is not modelled; neither are the
-- branches of the test environment, the one-off migration of the database, the signer, the
-- observer, and the commands.
pub mod Prelude
pub mod Common
pub mod Keeper

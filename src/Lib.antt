-- ===== src/Lib.antt =====
-- Trinetra, a platform for weighbridges: a server (apps/api), a gateway on each site (apps/edge)
-- and a web client (apps/web). A truck arrives, is identified and weighed, its material picks a
-- workflow, departments approve it, it unloads at an unloading point, is weighed again and is
-- completed with its net weight. This library models the part of the server that decides what a
-- transaction may do next and carries it out, the approvals, and how a gateway keeps its events
-- while it is offline and hands them to the server.
--
-- Parts, and the code that each models:
-- - Transaction/Status, Transaction/Graph: apps/api/src/domain/transactionState.ts, the statuses
--   and the platform graph `ALLOWED`; a path through it is an indexed data type, `Reach`.
-- - Workflow/Snapshot: the types of apps/api/src/domain/workflowSnapshot.ts.
-- - Workflow/Steps, Guards, Actions: apps/api/src/domain/workflowEngine.ts: which steps are done
--   and which approvals are due, the guards `assertCan...` with their refusals and messages, and
--   the next step and the actions that a client is shown.
-- - Weight/Decimal, Net, Parse: apps/api/src/domain/netWeight.ts and weight.ts. Weight/Stability:
--   the tracker of apps/api/src/domain/stability.ts.
-- - Lifecycle/State, Progress, Points, Handlers: the handlers of
--   apps/api/src/modules/transactions/lifecycle.ts from the assignment of an unloading point to the
--   finalization, with `transactionProgress` of mapper.ts, `loadTransaction` of service.ts,
--   apps/api/src/domain/transactionMutability.ts and unloadingAssignment.ts. A handler reads the
--   rows, forms the context of the workflow engine, asks its guard, checks the platform graph,
--   occupies or frees a point, and writes the rows and the audit log.
-- - Lifecycle/Operation: those handlers as one data type of requests, the effect they share, and
--   what every sequence of requests keeps.
-- - Edge/Connectivity: apps/api/src/domain/connectivityState.ts and
--   apps/edge/src/connectivity/manager.ts. Edge/OfflinePolicy: apps/api/src/domain/offlinePolicy.ts.
-- - Edge/Events, Edge/Store: the events of a gateway, their order and retries
--   (apps/edge/src/queue/types.ts, events/envelope.ts, offline/priority.ts, core/backoff.ts) and
--   the store that keeps them (apps/edge/src/store/localStore.ts), each operation of which ends by
--   pruning old events of low priority.
-- - Edge/Sync: `SyncLoop` of apps/edge/src/sync/syncLoop.ts. A round recovers events that were left
--   in SYNCING, uploads files, sends a batch and writes each acknowledgement or failure.
-- - Intake: the other end, apps/api/src/modules/sync/batch.ts and modules/edge/ingest.ts with
--   domain/edgeEnvelope.ts, edgeTypes.ts, edgeQueue.ts and syncConflict.ts: window of time,
--   prerequisites, duplicates, conflicts, special events, device events, errors and dead letters.
-- - Approvals: apps/api/src/domain/approvalState.ts and approvalEligibility.ts,
--   modules/approvals/engine.ts and the decisions of service.ts. They read the progress of a
--   transaction as Lifecycle/Progress gives it.
-- - Common: the names that all modules share; a module called Tests holds sample runs.
--
-- How the model is made:
-- - The database is a record of lists of rows. A handler is a function from a database to an HTTP
--   error or a new database with the answer: a handler that throws inside its database transaction
--   leaves no trace, and database transactions run one after the other. Ids are not empty.
-- - What the handlers take from elsewhere is a parameter: `Env` has the text of a stored decimal,
--   `localeCompare` and the configured limits; `Actor` has the decisions about access.
-- - A text whose characters matter is the list of its code points. A weight is a whole number of
--   thousandths of a kilogram, which the code calls milligrams, and is not rounded; an operator's
--   number has three decimals at most. Sort orders and counters are natural numbers.
-- - The gateway's clock is read once in a round, the server's once for a batch. The answers of the
--   backend, the order that `sort` gives and the hash of a payload are parameters; the file of the
--   store is written without errors.
-- - `Handlers` is the interface to the handlers that the intake runs on the rest of the database,
--   whose type is a parameter; one that throws may have changed rows before.
-- - `decimal` runs on fuel of the number plus one, more than it has digits.
-- - Instants, notes and users are not kept; `completed_at` and `exception_reason` say whether the
--   column is set. A row's relation is its id.
--
-- Not modelled: the handlers of service.ts that create, identify and first weigh a transaction, the
-- correction request, the building and parsing of stored snapshots, notifications, the public
-- shape of answers, the gateway's configuration cache and counters, what an event does to
-- transactions, readings and documents on the server, races between requests, weight anomalies,
-- support, onboarding, reliability, integrations, devices, authentication, and the web client.
pub mod Common
pub mod Transaction
pub mod Workflow
pub mod Weight
pub mod Lifecycle
pub mod Edge
pub mod Intake
pub mod Approvals

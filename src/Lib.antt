-- ===== src/Lib.antt =====
-- A model of tronvent, a service that scans the Tron chain for transfers of watched addresses and
-- delivers them to subscribers as signed webhooks.
--
-- The parts and how they interact. A replica's poller claims a scope (native TRX, or a TRC-20
-- contract) by a lease in the table scanner_cursors, fetches blocks, matches their transfers with the
-- watched addresses, confirms a match in the database, and enqueues one event for each subscribing
-- endpoint in the table webhook_events. The delivery worker claims due events from that table, posts
-- them to their endpoints with signed headers, and records the result, which schedules a retry, ends
-- the event, or disables the endpoint. Endpoints are kept in the table webhook_endpoints and in a store
-- in memory, as the watched addresses and contracts are, which the HTTP API changes in both places.
--
-- The files, with the Go files they model (paths from the repository's root):
--   Base                 names, tests and lemmas that the other modules share
--   Cursor               internal/db/scanner.go: the leases and cursors (TryClaimScannerScope,
--                        RenewScannerScopeLease, ReleaseScannerScope, SetScannedBlock, GetScannedBlock)
--   Payload              internal/webhookpayload: event types, subscriptions, envelope, transfer keys
--   Outbox               internal/db/scanner.go and dashboard.go: webhook_events; Outbox.Enqueue is
--                        EnqueueWebhookEvent, Outbox.Lifecycle the claim, the results, the retries and
--                        what the deletion of an endpoint removes
--   Retry                internal/webhookspec/retry.go: NextAttemptTime and ClassifyDelivery
--   Signing              internal/webhookspec/secret.go, asymmetric.go, signing_normalize.go, signer.go
--   UrlPolicy            internal/webhookspec/url.go: ValidateWebhookURL
--   Endpoints            internal/db/webhook_endpoints.go: the table webhook_endpoints;
--                        Endpoints.Primary the endpoint of the environment
--   Stores               internal/store/webhook_config_store.go
--   Delivery             internal/webhook/worker.go and endpoint_lifecycle.go: deliverOne
--   Confirm              internal/scanner/address_confirm.go
--   Scanner              internal/scanner: matched_events.go, trx_block.go and transfer_key.go in
--                        Scanner.Match, scope_lease.go in Scanner.Replicas, the scan and the replay of
--                        poller.go in Scanner.Trx (TRX), and Scanner.Trc20 and its child Scan (a
--                        TRC-20 contract), which are written in the actions of Scanner.Steps
--   Keys                 internal/scanner/trongrid_keys.go: the API keys of TronGrid; Keys.Request is
--                        tronGridDo of internal/scanner/poller.go, which uses them
--   Jobs                 internal/db/db.go and retry_jobs.go: the table queue_jobs, by which an admin
--                        has a range of blocks scanned again
--   Reconcile            cmd/tronvent/main.go: runStartupReconcile, which puts the blocks that a scope is
--                        behind into jobs and moves its cursor
--   Watched              internal/db/scanner.go: the tables of watched addresses and contracts
--   Api                  internal/api: the handlers of the admin API and of the dashboard's forms
--                        (Api.Watchlist, Api.Webhooks, Api.Retries), the guards and sessions of
--                        dashboard_auth.go and requireAuth (Api.Session), the routes of server.go
--                        (Api.Routes); Api.Store is internal/scanner/bloom.go, the address and contract
--                        stores of internal/store and internal/validate/tron.go; Api.Process the loading
--                        of the stores in cmd/tronvent/main.go; Api.Runtime runtime.go
--   Migrate              internal/migrate/migrate.go: Up
--
-- How state is modelled. A table is a list of rows in the order of insertion, or a function of its
-- primary key. A statement or a transaction of SQL is one function on the table, at the database's time
-- `now`; the worker's own time is a second number where the code reads it. Concurrent replicas are
-- histories: lists of statements, in any order, and Scanner.Replicas puts such a history between any
-- two statements of the scan. Numbers of blocks and nanoseconds are natural numbers; the one
-- arithmetic of the code that wraps around, the seconds of a Retry-After header, wraps around here.
-- An error is a value: `none`, `false`, or a constructor of a result type; error texts that no caller
-- reads are left out.
--
-- Fuel. The loops over the batches of a scan and of the startup reconciliation run on fuel; each batch
-- takes one unit and moves at least one block on, so the number of the last block, or the number of
-- blocks that are left, is enough, and theorems say so. The pages of one answer of TronGrid's events
-- API have their own fuel: the code asks for pages as long as TronGrid names a next one, so the theorem
-- about that scan has a bound on the pages as a condition. The digits of an int64 have fuel 19, which is
-- enough below 2 ^ 63. Every other loop is recursion on a list or on the number of attempts.
--
-- Parameters are what the code does not contain: the JSON encoder, base64, ed25519 and the library
-- standardwebhooks, the parsers of URLs, addresses and dates, the resolver, the HTTP client, TronGrid's
-- answers, random numbers, and failures of the database. The texts of a base58 address and of a TRX
-- amount are parameters as well, since they come from a hash and from floating point.
--
-- Not modelled: the polling loop and the loop of the reconciler, the configuration, the listener of
-- notifications, the metrics, and queries and pages that only list rows.
pub mod Base
pub mod Cursor
pub mod Payload
pub mod Outbox
pub mod Retry
pub mod Signing
pub mod Endpoints
pub mod Stores
pub mod Delivery
pub mod Keys
pub mod Confirm
pub mod Scanner
pub mod Jobs
pub mod Reconcile
pub mod Watched
pub mod Api
pub mod Migrate
pub mod UrlPolicy

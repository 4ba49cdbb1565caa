-- ===== src/Lib.antt =====
-- Verification of PPOps, a merchant daemon that takes private RAILGUN payments. This library models
-- the daemon's core and states what makes it correct.
--
-- A merchant creates a payment intent (src/intents/service.ts) and gets a signed descriptor
-- (src/security/descriptor.ts) with a random reference. The payer puts the reference into the memo
-- of a RAILGUN note. The scanner (src/railgun/scanner.ts) turns notes into settlements, asking several
-- RPC providers for receipts and blocks (src/railgun/rpc-quorum.ts). The reconciliation service
-- (src/reconciliation/service.ts) attaches each settlement to its intent, derives the intent's
-- projection (src/reconciliation/projection.ts) and puts events into an outbox, all in one transaction
-- on the SQLite tables (src/db/database.ts). Webhooks (src/events/webhook.ts) deliver the outbox to the
-- merchant. The runtime (src/runtime.ts) composes these steps into one scan. The HTTP API limits
-- requests by address (src/security/rate-limit.ts), and serves each intent's payment request
-- (src/api/app.ts), which the checkout page (src/api/checkout-model.ts) and the payer's tool
-- (tools/ppops-payer/src/request.ts) verify. That tool keeps a journal of what it submitted
-- (tools/ppops-payer/src/security/submission-journal.ts), to guard against paying twice.
--
-- Files, each function named as in the source, in snake_case:
--   Prelude         tests, lists, texts, stable sorting, results, keyed tables
--   Domain          src/domain.ts; Domain/Amount and Domain/Memo are its functions on texts
--   Projection      statusFor and deriveProjection
--   Database        the tables as lists of rows in row order, with one function per statement:
--                   Database/Intents, Database/Settlements, Database/Outbox
--   Reconciliation  reconcile, refreshExpirations, and src/events/event-factory.ts
--   Descriptor      createSignedDescriptor and verifySignedDescriptor
--   Intents         create, createIdempotent, createRecord, get, requireView, list, verifyDescriptor
--   Webhook         signatures, failure classes, deliverPendingExclusive; Webhook/Retrying follows an
--                   event through several deliveries
--   RateLimit       FixedWindowRateLimiter
--   Quorum          RpcQuorum
--   Scanner         bucketToPOIStatus, chainStatusFor, refreshKnownChainState, normalizeTXO, scan;
--                   Scanner/Workers is mapWithConcurrency as steps of its workers, in any order
--   Runtime         scanOnce and maintenanceOnce (src/runtime.ts); Runtime/Health is
--                   src/operations/health.ts
--   Checkout        paymentStage (src/api/payin.ts), checkoutIntent and its route (src/api/app.ts);
--                   Checkout/Page is src/api/checkout-model.ts
--   Payer           the payer's tool, tools/ppops-payer/src:
--     Failures      broadcaster/failures.ts
--     Request       request.ts, descriptor.ts and constants.ts: a request and its verification;
--                   Request/Made and Request/Verified follow an intent from the daemon to there
--     Loading       request.ts: the sources of a request and the size of its body
--     Guards        execution-guards.ts
--     GasQuorum     railgun/rpc-quorum.ts: the choice of a gas price
--     Journal       security/submission-journal.ts: Journal/Schema is its file, Journal/Marks the calls
--                   on one record, Journal/Methods all calls, Journal/Runs their sequences,
--                   Journal/Phases what they promise without the records
--   Scenarios       the theorems at concrete inputs
--
-- State is passed explicitly: an operation takes the tables and returns its result with the tables it
-- leaves. An exception is the `err` of a result, and `transaction` drops the writes of an operation
-- that throws. Texts are lists of UTF-16 code units. Amounts, times, heights and positions are natural
-- numbers; the code keeps amounts as bigints or canonical decimal texts, and times and heights as safe
-- integers. Subtractions are written so that they do not go below zero, or as the distance or the sum
-- that the code compares.
--
-- Code outside the repository is an argument of the definitions that use it: SHA-256, HMAC, the
-- JSON text of a request, ethers (the record Ethers), the answers of RPC providers in the two
-- attempts of each question, the outcome of a webhook request, the notes of the RAILGUN wallet, its
-- check of an address, and the size of the journal's JSON text. What a theorem relies on of them is a
-- named hypothesis: SignsFor for ethers, PrintsDigests for HMAC, FitsPayer for a daemon on the payer's
-- network.
--
-- Where the code waits, others may run. While createRecord awaits its signature, and while
-- scanOnce awaits the scan of the wallet and each refresh, a function on the tables stands for
-- what they do. A run of deliveries is modelled without other writes in between. The flag
-- `scanning` of the scanner is set by the guard of a scan and cleared when its notes are handed to
-- mapWithConcurrency, as in the source, whose `finally` does not wait for the mapping; a scan is
-- modelled as one step, with the flag that it finds and the flag that it leaves. A refreshed
-- settlement is reconciled without the fields of its record that a candidate does not have.
--
-- Loops are structural recursions; only the printing of decimals has fuel, one more than the
-- number, which is more than its digits.
--
-- Not modelled: the HTTP server and its other routes, the RAILGUN engine, backups, the command lines,
-- configuration, the mainnet gate, the rendering of checkout pages, and what of the payer's tool drives
-- the RAILGUN SDK, the broadcaster and the terminal: third-party calls and I/O.
pub mod Prelude
pub mod Domain
pub mod Projection
pub mod Database
pub mod Reconciliation
pub mod Descriptor
pub mod Intents
pub mod Webhook
pub mod RateLimit
pub mod Quorum
pub mod Scanner
pub mod Runtime
pub mod Checkout
pub mod Payer
pub mod Scenarios

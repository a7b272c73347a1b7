-- ===== src/Lib.antt =====
-- The Secret Rotation Kit: the storage of keys, their lifecycle, and the rotation workflow.
--
-- A secret has several keys, at most one of them active. `RotationWorkflow.execute` generates a new
-- key, hands it to a provider, waits for its verification, makes it the active key and expires the
-- previous one; on an error it takes all of that back. It works on a `KeyStore` through the
-- `KeyLifecycleManager`, and takes back through the `RollbackManager` where one is given.
--
-- The files, and the code that they model (paths from the repository's root):
--   Prelude, Map, Sort: numbers, lists, equality tests; JavaScript's `Map` as an association list in
--     the order of insertion; its stable `sort`, by insertion.
--   Effect: an asynchronous call that returns or throws, as a function from a state; errors with
--     their class (packages/core/src/errors.ts); the Hoare triples of such calls.
--   Types, Verification: packages/types/src/rotation.ts and verification.ts. An instant is a number of
--     milliseconds; metadata is a list of entries.
--   KeyStore: the interface of packages/types/src/interfaces.ts with the laws that its clients use;
--     KeyStore/InMemory: packages/core/src/in-memory-key-store.ts. Its locks are held for one
--     synchronous body each, so that a call is one step; `snapshot` is left out.
--   FileStore: packages/core/src/filesystem-key-store.ts over a file system, a cipher and JSON that are
--     parameters (Format). Sealing is about encryption, Paths and Writing about single files, Entries,
--     Refines and Reads relate it to the store in memory.
--   Js: values of JavaScript, as trees. Validation: packages/core/src/input-validator.ts. Config:
--     packages/core/src/config-service.ts; Sections describes its merge apart from the code.
--   Lifecycle: packages/core/src/key-lifecycle-manager.ts. Writes gives what each call writes,
--     Handover is about `activate`, Machine about what one call writes and about sequences of calls.
--   World: what a rotation reads and writes. The generator, the provider, the verifier, the clock and
--     the random ids are functions of `Env`, on a state of their own, and may throw at any call.
--   Rollback: packages/core/src/rollback-manager.ts.
--   Workflow, Workflow/Execute: packages/core/src/rotation-workflow.ts. Stores, Steps, Attempt, Recovery,
--     Failure and Correct lead to the theorem on `execute`, for every store that keeps the laws.
--   Circuit: packages/core/src/circuit-breaker.ts, with overlapping calls.
--   Generator: packages/core/src/crypto-key-generator.ts, over a cipher given as a parameter.
--   Manager: packages/core/src/rotation-manager.ts: Admission and Whole are about one call of rotate,
--     Overlap about calls that overlap, Schedule about the automatic rounds.
--   Retry: packages/core/src/retry-handler.ts.
--   Polling: packages/core/src/polling-verifier.ts, with arbitrary effects in each wait; Guard is about
--     a second verification of a session, Outcomes and Ending about how one ends.
--   Active: packages/core/src/active-verifier.ts, with the check of one consumer in Checks.
--   Limiter: packages/core/src/rate-limiter.ts.
--   Lock: packages/core/src/per-key-lock.ts, as a step relation on arriving and leaving calls.
--   Windows: packages/core/src/key-window-manager.ts.
--   Sidecar: packages/sidecar/src/server.ts, with who reaches the manager in Access.
--   Metrics: packages/observability/src/metrics.ts: Counters, Histograms and Summaries; Samples and
--     Buckets are about what a service shows of a histogram.
--   Provider: packages/types/src/provider.ts; Vercel: packages/provider-vercel/src/provider.ts, over
--     arbitrary answers; its Service is what is documented of the service, and Restore is about a
--     rotation that is cancelled. Aws, Gcp, Vault: src/provider.ts of packages/provider-aws,
--     provider-gcp and provider-vault, over arbitrary clients; Promotion is about the stages of a
--     secret of the first, Verifying about the polling of the second, Cancelling about what the third
--     serves after a rotation that is cancelled.
--   Events: packages/core/src/in-memory-event-emitter.ts.
--   EventLog: packages/core/src/event-store.ts, with the order of the writes in Order.
--   Consumers: packages/core/src/consumer-registry.ts.
--   Tests: sample data, runs of the code, and the theorems at concrete inputs.
--
-- Fuel: `list` of the in-memory store calls itself by name, and takes a bound on the nested calls; 2
-- is enough unless a secret is named by the empty text. The polling loop takes a bound on its rounds;
-- one more than the timeout has milliseconds is enough where time passes in each pause. The listing of
-- versions of the AWS provider takes a bound on its pages, and answers none where there are more;
-- a larger bound changes no other answer (Aws/Paging).
-- Nothing else takes fuel.
--
-- Not modelled: logging, the loading of the SDKs, the command line, and the connections of the HTTP
-- server. Ciphers and the file system are parameters with named laws. Between the steps of one
-- rotation no other call writes to the store. Of the operations of a key store `update` alone may throw
-- where the lifecycle and the rotation use it, while the interface allows each to reject; FileStore is
-- about writes that throw. Values that are validated or merged are trees, without shared or cyclic
-- objects. A timer goes off as soon as its time is reached.
mod Prelude
pub mod Map
pub mod Sort
pub mod Effect
pub mod Types
pub mod Verification
pub mod Js
pub mod Validation
pub mod Config
pub mod KeyStore
pub mod FileStore
pub mod Lifecycle
pub mod World
pub mod Generator
pub mod Rollback
pub mod Workflow
pub mod Circuit
pub mod Windows
pub mod Consumers
pub mod Limiter
pub mod Retry
pub mod Lock
pub mod Polling
pub mod Active
pub mod Manager
pub mod Events
pub mod EventLog
pub mod Sidecar
pub mod Metrics
pub mod Provider
mod Tests

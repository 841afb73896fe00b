-- ===== src/Lib.antt =====
-- The verification library of bloom-signer, a daemon that holds wallet keys and signs for a broker
-- under sealed approvals.
--
-- The parts of the program and the files that model them:
--
-- * The derivation registry (crates/bloom-signer/src/derivation_registry.rs) hands out the derivation
--   paths of a wallet. It keeps four SQL tables: namespaces with a counter, allocations, tombstones
--   and a hash chain of events. Registry/Types.antt has the rows, Registry/Tables.antt the
--   statements on one table, Registry/Prepare.antt `prepare_allocation_at`, Registry/Lifecycle.antt
--   `commit_index`, `commit_account`, `activate`, `retire` and `tombstone`, Registry/Events.antt
--   `append_event` and `verify_event_chain`, Registry/Path.antt the canonical paths,
--   Registry/Accounts.antt `next_account_number`. A table is a list of rows in the order of insertion;
--   a transaction is a function to a result with the new tables (Prelude/Tx.antt), and an error
--   leaves the tables as they were.
-- * The walk to the next valid index (crates/bloom-signer-derive/src/allocation.rs) is in
--   Derive/Walk.antt. Its fuel is the number of the indices of a `u32` from the start on, which is
--   enough: the walk ends or panics before.
-- * The signing part of the engine (crates/bloom-signer/src/engine.rs): Signing/State.antt has the
--   tables, the audit latch and `mutation_transaction`; Signing/Checks.antt and Signing/Petal.antt
--   the checks of a request against its approval and of a Petal key against its scope;
--   Signing/Limits.antt `reserve_parser_free_limits`; Signing/Authorize.antt `authorize_sign`;
--   Signing/Effects.antt `mark_operation_dispatched`, `commit_operation_result`,
--   `finalize_operation`, `operation_status` and `stored_operation_result`. Signing reads the
--   allocations of the registry to refuse a derived account that is not active. Signing/Revoke.antt
--   has `revoke_approval` and `revoke_all` with the tombstones and the wallet epochs, Signing/Clock.antt
--   the durable clock: `observe_time`, `observe_time_read_only` and `repair_clock`,
--   Signing/Expiring.antt `active_approvals_expiring_by`.
-- * The service (crates/bloom-signer/src/service.rs): Service/Sign.antt has `sign`, which observes the
--   clock (crates/bloom-signer/src/clock.rs), authorizes, answers a retry with the stored result, or
--   dispatches, calls a backend for each hash and commits, with every error path. Each step commits
--   by itself and stays when a later one fails (Prelude/Action.antt). The calls of backends are kept
--   as a list. Service/Types.antt has what is exchanged with backends
--   (crates/bloom-signer-backend-api/src/lib.rs). The gate that serialises `sign` is the order of the
--   calls of a history (Service/History.antt).
-- * The request and the terms (crates/bloom-signer-api/src/signing.rs, approval.rs, petal_key.rs and
--   crypto.rs) are in Signing/Request.antt and Signing/Terms.antt; the error codes
--   (crates/bloom-signer-api/src/error.rs) in Prelude/Result.antt, with their texts, their contracts
--   and the reading of an error from the wire in Errors.antt.
-- * The size limits of payloads and envelopes (crates/bloom-signer-api/src/codec.rs) are in
--   Codec.antt.
--
-- Proofs: Registry/Changes.antt and Signing/Changes.antt say what a call may change; Registry/Moves
-- and Registry/Prepared, and Signing/Steps, show that each call is such a change; Registry/Run.antt
-- and Signing/History.antt carry an invariant through every history of calls. Signing/Calls.antt has
-- the calls of the engine and a step; Signing/Respects.antt carries a property of the revocation and
-- clock tables, which Signing/Revoked.antt and Signing/Observed.antt describe. Signing/Within.antt,
-- Signing/Genuine.antt and Signing/Available.antt read the checks of an authorization as facts on fields and rows.
-- Service/Follows.antt takes the service's steps to steps of the engine; Service/Collected.antt says
-- which inputs are sent and which signatures come back, Service/Answers.antt has the rules for runs
-- that end with `Ok`.
--
-- Bounds: numbers are natural numbers; a `u32` read from a column is taken modulo 2 ^ 32, a counter
-- that is added with `checked_add` fails at 2 ^ 64, a time that is cast to `i64` fails at 2 ^ 63.
-- The times of allocation rows, which no decision reads, are kept without the cast to `i64`; a stored
-- epoch is a number, so that the error for one that does not parse is left out.
--
-- Identifiers and digests that the program only compares are numbers. Parameters are the hash
-- functions with the canonical JSON text, the hex decoder, the check of a signature, the backends,
-- which may answer anything, the text of an opaque identifier, the evaluation of the durable clock
-- (the trusted-time crate), and the audit journal, which may refuse an entry.
--
-- Not modelled: the schema migration and public_accounts of the registry; the activation of
-- approvals, the summaries of revocations, the audit chain and the backups of the engine; the
-- readiness of the clock; the service's batches and routing. Ceremonies, custody, the backends,
-- derivation over curves, the other wire formats, process start and administration are mostly
-- cryptography of libraries or input and output.
pub mod Prelude
pub mod Derive
pub mod Registry
pub mod Signing
pub mod Service
pub mod Errors
pub mod Codec

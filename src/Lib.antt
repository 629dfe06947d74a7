-- ===== src/Lib.antt =====
-- Verification of vor-commander's decision core: from an action request to a decision, a signed
-- approval, its single consumption, and the ledger of what happened.
--
-- The parts and how they interact. A client seals an action envelope (Protocol). The broker (Core)
-- verifies it, asks the policy engine (Policy) for a decision, limits automatic writes by what the
-- ledger (Audit) has counted in the last minute, and writes the decision to the ledger. Where a
-- decision needs a signature, a challenge is issued, signed and verified (Approval), and the broker
-- consumes the approval once before the action is executed. A device does this for remote requests
-- (Dispatch): it asks its broker, consumes the approval, and only then tells a worker, among them
-- the terminal (Terminal) and the process worker (Process). Frames that carry requests between
-- devices pass a guard against replay (Wire), and clients hold grants that are issued, paired,
-- checked and revoked (Auth). Requests reach a device through the relay, which gives each result to
-- the call that waits for it (Relay). The gateway keeps what a payment service reports of
-- subscriptions (Gateway).
--
-- Which file models which code:
--   * Protocol: crates/vor-protocol/src/lib.rs. `seal`, `verify`, `digest`, `normalized` and
--     `validate_envelope` under their names.
--   * WinPath: crates/vor-path/src/lib.rs. `windows_path_within`, `sensitive_windows_path`.
--   * Policy: crates/vor-policy/src/lib.rs. Policy/Config has the configuration, Policy/Normalize
--     `normalize_windows_path` with what it calls, Policy/Terminal `command_is_inline_eval` and
--     `safe_command_matches`, and Policy/Engine `PolicyEngine` with `evaluate`.
--   * Approval: crates/vor-approval/src/lib.rs. `issue`, `sign_approval`, `ApprovalVerifier` with
--     its registry and `verify`, `approval_message`.
--   * Audit: crates/vor-audit/src/lib.rs. Audit/Types has the data, Audit/Table the tables with the
--     key `(request_id, envelope_digest)`, Audit/Store `Ledger` with `open`, `append`,
--     `verify_integrity` and the queries, Audit/Recovery the claims and the execution states.
--   * Core: crates/vor-core/src/lib.rs. `Broker` with `authorize_at`, `consume_approval_at`,
--     `audit_outcome_at` and the execution states.
--   * Wire: crates/vor-wire/src/lib.rs. Relay frames with `encode_frame`, `decode_frame` and
--     `verify_frame_at`, the timestamps, and `ReplayGuard`, whose two maps are Wire/Expiring.
--   * Auth: crates/vor-auth/src/lib.rs. `GrantStore` with `issue_for_tenant`, `create_pairing`,
--     `redeem_pairing`, `validate`, `revoke` and the prunings, all through `mutate_state`; the file
--     and what the process holds are two fields.
--   * Dispatch: crates/vor-dispatch/src/lib.rs. Dispatch/State has `ReadOnlyDispatcher` with the
--     list of the effects so far, Dispatch/Dispatcher what the handlers share, Dispatch/Approved
--     `dispatch_approved_at`, Dispatch/Direct `dispatch_at`, Dispatch/Prepare `prepare_approved_at`
--     and `dispatch_proto_at`, each cut where their proofs need a name, and Dispatch/Steps the step
--     relation of requests, changes of approvers and restarts.
--   * Terminal: crates/vor-terminal/src/lib.rs. Terminal/CommandLine has
--     `argv_to_windows_command_line`, Terminal/Reading the rules by which Windows programs take a
--     command line apart, Terminal/Run `BoundedTerminal` with `prepare` and `run`, and
--     Terminal/Sessions `TerminalSessionManager`.
--   * Process: crates/vor-process/src/lib.rs. Process/Api has `ProcessApi`, Process/Worker
--     `ProcessWorker` with `terminate_with_api`.
--   * Relay: apps/vor-relay/src/lib.rs. Relay/Pending has `PendingResultMap`, Relay/Hub `RelayHub`
--     with `dispatch_action` cut at the points where it waits and `process_device_frame`, and
--     Relay/Steps the interleavings of these parts as a step relation.
--   * Gateway: apps/vor-gateway/src/billing.rs. Gateway/Records has the data, Gateway/Fields how an
--     event is read, Gateway/Events its effect, and Gateway/Billing `BillingStore` with
--     `apply_test_webhook` and what it calls.
--   * Base and Json: Rust's strings, lists, maps and results, and the values of `serde_json`.
--   * Examples: concrete inputs to which the theorems are applied.
--
-- How the code is read. A Rust function that returns `Result` is a function into `Result`, with `?`
-- as `>>=`; one that changes `&mut self` takes the state and returns it with the result, on errors
-- too. Strings are their code points where they are taken apart. `u64` and `u32` values are natural
-- numbers; where the code adds, converts or saturates, the bound is written out. One loop has fuel,
-- `run_loop` of Terminal/Run: each of its rounds sleeps for at least ten milliseconds, so one round
-- more than a tenth of the longest timeout is enough, and that is proved; every other recursion is
-- structural. The database and the JSONL file of the ledger are one value, `Disk`; a call of the
-- operating system or of SQLite that fails is a `Fault` given to `append`.
--
-- What is taken from outside, as records of functions: `Hashing` (`serde_json::to_vec` of an
-- envelope and SHA-256), `Externals` (the platform's paths, `hex`, YAML), `Ed25519`, `Formats`
-- (JSON of events and records, SHA-256), and `Coding` (Protobuf and SHA-256 of frames); the hash of
-- a token is a function too. `Platform` and `Child` are the operating system and a running program
-- for Terminal, `ProcessApi` the answers of Windows by the calls made before, `Workers` what a
-- worker answers by the effects before, and `Faults` which writes to the ledger fail. A theorem
-- that relies on one of them says so in a hypothesis: that JSON gives back what it wrote, that a
-- signature verifies under its key, that the platform's long names have no forward slash, that a
-- SHA-256 has 32 bytes.
--
-- Not modelled: the lock file of the ledger beyond the fault that it is not obtained, the wall
-- clock (times are arguments), the search of PATH for executables, ConPTY and the native Windows
-- calls, the parsing of the workers' parameters, the HTTP handlers and OAuth of the gateway and its
-- calls of the payment service, two processes that share one billing file, and the programs around
-- the core: transports, tenants and identities, and the workers for files, repositories and the
-- browser.
pub mod Approval
pub mod Audit
pub mod Auth
pub mod Base
pub mod Core
pub mod Dispatch
pub mod Examples
pub mod Gateway
pub mod Json
pub mod Policy
pub mod Process
pub mod Protocol
pub mod Relay
pub mod Terminal
pub mod WinPath
pub mod Wire

-- ===== src/Lib.antt =====
-- HMux keeps the terminal sessions of AI agents on a host ("Home") and shows them through a web
-- gateway. Home dials the gateway; the gateway's hub holds that one connection and fans it out to the
-- HTTP owners: requests that wait for a reply, terminal views and uploads.
--
-- The parts modelled, each in the file of its name with its proofs in the folder below it:
--
-- Flow        crates/hmux-protocol/src/flow.rs: `OutputWindow`, the rendering credit of one terminal
--             view. The deque is a list from its front; an `Instant` is a number of nanoseconds.
-- Admission   crates/hmux-gateway/src/admission.rs: `LoginLimiter`, the attempts of each source address.
--             The hash map is an association list. `PasswordAdmission` is a tokio semaphore and is not
--             modelled.
-- Hub         crates/hmux-gateway/src/hub.rs: the state behind the hub's mutex. `State` has the types,
--             `Ids` the ids, `Peers` attach, detach and snapshot, `Leases` what the HTTP owners begin,
--             drop and close (of each async operation the part under the lock), `Reads` what they read
--             of their views and uploads (a step is what follows the wait for an event), `Dispatch`,
--             `Uploads` and `Handle` the messages of Home, and the runs of a hub as sequences of such
--             calls. The effects on others (answers to owners, frames to Home, closing a sender) are a
--             list in the order in which they are made.
--
-- Quota       crates/hmux-usage/src/quota_state.rs: `QuotaState`, which tells Home when to fetch the quota
--             of an account and what to serve meanwhile. `Types` has the types, `Cache` begin, `Results`
--             finish and diagnostics, `Steps` runs of calls. Times are numbers of
--             nanoseconds, account keys are numbers; the text of a time and the parts of a snapshot that
--             the cache only passes on are a parameter, and so is the validation of crates/hmux-usage/src/transport.rs.
--
-- Model       crates/hmux-model/src/lib.rs: the records of the catalog of sessions, the checks of ids
--             (`Ids`) and of the host readings (`Catalog`).
-- Wire        crates/hmux-protocol/src/wire.rs: `Writer` has `BoundedJson`, which compacts and escapes JSON
--             while it is written, `Codec` encode, decode and the limits of the fields, `Spec` what the
--             writer is for, by looking ahead. What serde_json writes and reads is an argument.
-- Workspace   crates/hmux-model/src/workspace.rs: the tabs that the devices of an account share. `State` has
--             the snapshot and the change, `Merge` the three-way merge, `Reconcile` the restored sessions
--             and the application of a change.
-- Snapshots   crates/hmux-protocol/src/snapshots.rs: the catalog between the model and protobuf (`Proto`, of
--             crates/hmux-protocol/src/generated/hmux.v2.rs): `Check` the bounds, `Convert` the
--             conversions, `Budget` the bytes retained, `Typed` the two entry points. The readings of
--             floats and times, the sizes of types and the length of the encoding are parameters.
--
-- Receipts    crates/hmux-gateway/src/tab_completions.rs: the completed turns and what each account has
--             read. `Types` has the rows and the interface of the private directory with its laws,
--             `Storage` the state, the cache and the loads, `Record` and `Acknowledge` the two writers.
--
-- Location    crates/hmux-gateway/src/session_location.rs: `Address` has the classes of addresses, `Ranges`
--             the same classes as ranges, `Lookup` the labels cached and the lookups in flight. The
--             label of a response is not modelled.
--
-- Auth        crates/hmux-gateway/src/auth_store.rs: the state behind the mutex of the accounts. `Types` has the
--             rows, `Files` the guarded writes and the pruned table, `Attempts` the limit of attempts,
--             `Sessions`, `Login` and `Security` the transactions, a call of two transactions being two
--             functions, and `Calls` their sequences; `Moves` lists the ways in which they change the
--             state. Hashes, the one-time codes and the backups of a file are parameters. A loop that
--             draws a token runs over the list of the draws.
--
-- Workflow    crates/hmux-home/src/workflow.rs: the lifecycle of the agents' turns, which their hooks report.
--             `Types` has the rows and the checks of texts, `Items` one workflow and its nodes, `Hooks`
--             the transitions of hooks and reports, `Files` the checks, the pruning and the size limit,
--             `Update` the file, `Private` the bounded read and the atomic write of
--             crates/hmux-core/src/lib.rs, each step of which ends well or not, `View` what a session
--             shows. A status is a constructor in place of its text, a time is a number of seconds, and
--             the characters of a text, SHA-256 and the JSON are parameters. The loops of `prune` and `bytes` remove a workflow in each round and run
--             at most as often as there are workflows.
--
-- In these eight a text is the list of its bytes.
--
-- Each operation is a function from the state to the new state and its result; a run is a list of
-- calls. Machine integers are native numbers: the two counters of the hub keep their check against
-- 2^64 - 1, those of the quota cache wrap at 2^64 and stop at 2^63 - 1 as in the code, and sizes are
-- bounded by the invariants. But for the two loops of `Workflow` no recursion needs fuel.
--
-- Outside the model: sockets, tasks, the bytes of frames and the JSON and protobuf codecs, and the
-- diagnostics reports. Whether the shared payload budget of the hub takes an allocation is an argument
-- of the message that asks for it, since readers drop their payloads at any time. The tokio channels
-- are parameters (`Base/Channel`) with the laws that the code relies on. The usage
-- snapshots of the protocol, the rest of Home, the other crates (service, installer, web binary, the
-- rest of core, usage and model) and the rest of the gateway (push notifications, HTTP) are
-- not modelled.
pub mod Base
pub mod Flow
pub mod Admission
pub mod Hub
pub mod Quota
pub mod Model
pub mod Wire
pub mod Workspace
pub mod Snapshots
pub mod Receipts
pub mod Location
pub mod Auth
pub mod Workflow

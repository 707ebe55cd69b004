-- ===== src/Lib.antt =====
-- Pergamon keeps a personal library on several devices. Each device holds the whole library in
-- SQLite and works offline; a relay stores the encrypted changes of an account in one log and hands
-- them to the other devices, which merge them. This development is about that core: the stamps, the
-- merge of concurrent changes, the replica, the relay and its accounts, and the review schedule.
--
--   * Common, Order: what the other modules share: tests and words, lists, results, tables, texts, signed
--     words, total orders and a stable sort.
--   * Hlc models crates/pergamon-core/src/sync/hlc.rs: `Hlc`, `tick`, `observe` and the order of
--     stamps. The counter saturates at the largest u32.
--   * Event models crates/pergamon-core/src/sync/event.rs: the body of a change and the wire names.
--   * Taxonomy models crates/pergamon-core/src/status.rs and content_type.rs beside it: the names in
--     the database.
--   * Merge models crates/pergamon-core/src/sync/merge.rs: `strategy_for`, `merge_field` and
--     `merge_set_member`. It decides by the stamps of Hlc alone.
--   * Quota models crates/pergamon-sync-server/src/quota.rs: `QuotaConfig::check`.
--   * Relay models crates/pergamon-sync-server/src/store.rs: `push_events`, `pull_page`, `blob_put`
--     and `account_usage`, as functions of the two tables; Relay.Paging models the pull handler of
--     crates/pergamon-sync-server/src/routes/events.rs and the page loop of
--     crates/pergamon-sync/src/engine.rs. A push asks Quota whether the batch fits.
--   * Outbox models the table of changes to send in crates/pergamon-storage/src/sync.rs, and Engine
--     the push of crates/pergamon-sync/src/engine.rs: read a page of the outbox, upload its blobs,
--     send it, and acknowledge what the relay answered. Engine.OverRelay makes the store of Relay its
--     transport.
--     Engine.Pull models its pull over the pages of Relay: pass over what is known, authenticate, and
--     merge the rest in one transaction per event, which observes the stamp with Hlc. A `Receiver` says
--     what roster, network, blob store and merge answer in one run; a later run may have another one.
--   * Replica models crates/pergamon-sync/src/apply.rs, `apply_change`, over the tables of
--     crates/pergamon-storage/src/sync.rs: the canonical rows, the clocks of fields and edges, the
--     tombstones and the conflict inbox. It decides with Merge. The schema of a table, the JSON of a
--     value and the schedule of a card are the records `Sqlite`, `Json` and `Cards` of operations;
--     Replica.Schedule gives the `Cards` that the storage crate has, with the schedule of Review, and
--     Replica.Logs says which rows its query answers.
--     Replica.Emission models `emit_change`: a local edit writes the rows, stamps them with Hlc and
--     enqueues a row of Outbox.
--   * Review models crates/pergamon-core/src/fsrs.rs, the scheduler over a record `Floats` of the
--     operations on f64, and crates/pergamon-core/src/sync/review.rs, the schedule of a card that is
--     derived from its logs (Review.Derive).
--   * Auth models the store of crates/pergamon-sync-server/src/auth: the bearer strings of token.rs,
--     the tables of store.rs (Accounts, Tokens), the binding of a tenant to a content account of
--     binding.rs, and the gate before the routes of authz.rs. Auth.Steps is the step relation of all
--     operations that change the store. Hash, base64, signatures and random values are `Primitives`.
--   * Fairness models crates/pergamon-sync-server/src/fairness.rs: the slots per tenant that every
--     store operation of a request passes through, with callers as a step relation.
--   * Throttle models crates/pergamon-sync-server/src/auth/throttle.rs: `lockout_for`.
--   * AccountFlow models crates/pergamon-core/src/account_flow.rs: the guards of onboarding.
--
-- Conventions. A u64 or u32 is a natural number; where the source saturates, the model takes the
-- minimum with the largest word. The i64 times of Auth, which are not negative, are natural numbers,
-- those of Review integers. A SQL table is the list of its rows in insertion order, a statement
-- a function of that list, a transaction a state that an error drops. Counts and sums that SQL keeps
-- in an i64 are not bounded in the model, which is right below 2 ^ 63 bytes or rows. The hash of a
-- blob and the clock of the machine are parameters. The page loop runs on fuel: one more round than
-- there are events past the cursor is enough, since every full page moves the cursor by 256. The pull
-- loop takes the same fuel, and the relay does not change while it runs. The push loop runs on fuel
-- too: one more round than there are waiting changes.
--
-- Not modelled: the failures of database and network that every call may report, encryption, the
-- baseline of an existing library (crates/pergamon-storage/src/sync.rs), the OPAQUE login and the
-- device records of the sync server, its routes and abuse limits, the other tables of the storage
-- crate, import and export, the command line and the user interfaces. The pull of Engine.Pull takes
-- the merge of one change as a field, since the engine hands it the open transaction; Replica says
-- what that merge is.
pub mod Common
pub mod Order
pub mod AccountFlow
pub mod Auth
pub mod Engine
pub mod Event
pub mod Fairness
pub mod Hlc
pub mod Merge
pub mod Outbox
pub mod Quota
pub mod Relay
pub mod Taxonomy
pub mod Throttle
pub mod Replica
pub mod Review

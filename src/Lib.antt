-- ===== src/Lib.antt =====
-- Verification library of the mining pool server, src/main.rs and src/systems.
--
-- The server gives its connected clients a challenge and a range of nonces each, takes the solutions
-- that they send back, keeps the best hash of the epoch, submits it on chain, divides the reward that
-- the chain pays, and pays out the claims of miners and stakers. The parts run as tasks that share
-- records behind locks. Here a task's handler is a function on the shared state, taken as one step:
--   * State: the records and enums of src/main.rs that the tasks share.
--   * Submissions: `client_submissions_handler` of src/systems/client_submissions_handler.rs, message
--     by message: `verdict` is its checks in their order, `record_submission` what it does with a
--     valid solution. Children: Hashpower (`hashpower_of`), Epoch (the epoch's hashes), Batch (the
--     whole loop), Frame (what it leaves alone) and Replay (what a batch comes to, by difficulties).
--   * ReadyClients: `handle_ready_clients_system` of src/systems/handle_ready_clients_system.rs, which
--     gives out the nonces that Submissions checks, and Cutoff: `get_cutoff` of src/ore_utils.rs.
--     A round gives out ranges, and `run_task` is the task that registers one of them, which may run at
--     any later time. Children: Ownership, and Frame (what a round leaves alone).
--   * Message: the two binary messages of src/message.rs. Child: RoundTrip, with a reader of them.
--   * Rewards: the miners' part of `pool_mine_success_system` (src/systems/pool_mine_success_system.rs)
--     and what src/systems/pool_submission_system.rs computes for it, with Conservation on it; Stakers
--     is what `process_stakers_rewards` computes, with Bounds and Distinct on the shares, Pages on the
--     reading of the accounts of a mint, and Payment, the whole of it, with Credits on what it leaves;
--     Payout is what the handler writes, with Tables and Written on it.
--   * Models and Database: the rows of src/models.rs and the queries on rewards of src/app_database.rs,
--     with the batches in which the server makes them. Children: Attempts (accesses that get through),
--     Batches, Updates (what a query that succeeds has done), Challenges (the table of challenges), Bulk
--     (updates of many rows in batches, over any table), Pages (the loop that reads a table page by
--     page) and Stakes (the updates of the table of stake accounts).
--   * Claims: the queue of claims and its four routes of src/main.rs (Requests for miners, Stakers for
--     stakers), with Admission, StakerAdmission, Orderly and Cooldown on what they let in; Ledger, the
--     tables and queries of a payment; Transaction, what src/systems/claim_system.rs sends and how it
--     waits, with Sends on it; and Process, its `process_claim`, with Steps, Settlement,
--     StakerSettlement, Panics, Endings and Paid on what a payment does.
--   * Mining: `pool_submission_system` of src/systems/pool_submission_system.rs. Mining itself is what it
--     does to the shared state when it gives up or begins an epoch (`clear`, `start_epoch`), in a turn
--     of the task that sends the transaction again (`resend_turn`) and in one of the wait for the next
--     proof (`await_turn`); Attempt is a turn of its ten attempts, with Ends on it; Success is the task
--     that pays the commission and tells `pool_mine_success_system`, with Payment and Told on it;
--     Records is on the challenges that the turns record. Machine is how all of them and the other
--     tasks take turns, as a step relation on the phases of the main task, with Turns and Invariant on
--     it, and Quiet and Reserved on the nonces that are given out; its `track_proof` is src/systems/proof_tracking_system.rs.
--   * Clients: the websocket handlers of src/main.rs from `ws_handler` to `ping_check_system`, with
--     src/systems/client_message_handler_system.rs and src/systems/pong_tracking_system.rs. Parsing is
--     on `process_message` (with Layout), Entry on `ws_handler`, Liveness on the pongs, and Sockets on the maps under
--     all of their steps.
--   * Signup: the routes `/signup`, `/v2/signup` and `/pause` of src/main.rs. Child: Joining.
--   * Startup: what `serve` of src/main.rs sees to in the database before the tasks start. Children: Rows
--     and Restarts.
--   * Stakes: the routes on delegated stakes of src/main.rs, with the accounts of src/ore_utils.rs that
--     they look at. Passing is on their guards; Unstake has the three routes that take a stake back,
--     with Requests, Submissions and Panics on them; Migrate is `post_migrate_boost_v2`, with Steps and
--     Migrations on it; Landing is `confirm_txn`; Refresh is how `update_stake_accounts` of
--     src/scripts.rs, and the same loop in src/main.rs, bring the staked balances up to the chain, with
--     Sync on it.
--   * Prelude: numbers, tests, lists, maps, words, integers and bytes that the parts share.
-- The Tests modules run the definitions on concrete values.
--
-- How the code is read. A `u64` is a number and its operations wrap at 2^64, as in a release build,
-- which checks no overflow; a subtraction on numbers that the code guards is the truncated one. A float
-- is its bit pattern. Keys, challenges and addresses are the numbers that their bytes spell. A map is an
-- association list, in any order. The clock, the node's answers and the accesses to the database are
-- arguments. A query is read as SQL states it: on unsigned columns a result out of range is an error
-- that changes nothing. A list of accesses stands for the attempts of a loop that retries without a
-- bound; a result `trying` means that the list has ended first. A loop with a bound of its own (eleven
-- attempts to send, 600 seconds to wait) reads one answer for each turn, so no fuel is needed:
-- `chunks_of` alone counts, and the length of its list is enough since each chunk takes an element.
--
-- Parameters: `Drillx` is what is used of the `drillx` crate (difficulty, nonce and verification of a
-- solution), `Solana` what is used of `solana_sdk` (parsing of keys and signatures, verification),
-- `Signing` what the messages of clients are read with, `Crates` what the routes on stakes use of
-- solana_sdk, base64, bincode and ore_miner_delegation, and `Node` what the node answers them.
--
-- Not modelled: the rest of the tasks' interleavings within a handler (a task that holds no lock between its read
-- and its write may lose an update; in Machine a turn that records a challenge does so in one step,
-- and the main task may be left recording), the repeated sending of a staker's claim while it waits,
-- which has the same signature, the claims of a round side by side, logs, metrics, read-only routes,
-- the replica's statistics, the cleanup of submissions, the bonus on unclaimed rewards (which nothing
-- calls), the texts that a client gets of a reward, the caches and the signing of transactions.
pub mod Prelude
pub mod State
pub mod Models
pub mod Database
pub mod Message
pub mod Rewards
pub mod Cutoff
pub mod Claims
pub mod Startup
pub mod Stakes
pub mod Submissions
pub mod ReadyClients
pub mod Mining
pub mod Clients
pub mod Signup

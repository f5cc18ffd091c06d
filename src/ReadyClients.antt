-- ===== src/ReadyClients.antt =====
-- `handle_ready_clients_system` (src/systems/handle_ready_clients_system.rs). One round of its loop is
-- `handle_ready_clients`: `assign` is what the loop does for a client. It spawns a task for each, which
-- sends the message and then registers the range; `run_task` is the registration, and it may come at
-- any later time.
pub mod Ownership
pub mod Frame
mod Tests
use coal_pool_server.Prelude.{
  ℕ, ◌+◌, ◌-◌, Bool, true, false, not, ◌&&◌, Option, none, some, List, [], ◌∷◌, ◌++◌, map,
  if◌then◌else◌, is_some, add64, sub64, nat_eq,
}
use coal_pool_server.Prelude.Int.{ℤ, pos, ltb_ℤ}
use coal_pool_server.Prelude.HashMap.{HashMap, get, insert, remove}
use coal_pool_server.Cutoff.{get_cutoff}
use coal_pool_server.Message.{ServerMessageStartMining}
use coal_pool_server.State.{
  Pubkey, SocketAddr, Challenge, AppClientConnection, Range, Server, BestHash,
}

-- NONCE_RANGE_SIZE
abbrev pub nonce_range_size : ℕ
nonce_range_size = 40000000

-- A task that the loop spawns: the message that goes to the client at an address, and the range that is
-- registered for the client's key afterwards.
pub record Sent : Type 0 where
  pub client : SocketAddr
  pub message : ServerMessageStartMining
  pub pubkey : Pubkey
  pub nonce_range : Range

-- The range joins those of the client's key.
unfoldable pub register_range :
    HashMap Pubkey (List Range) → Pubkey → Range → HashMap Pubkey (List Range)
register_range ranges pubkey nonce_range = elim (get pubkey ranges) [
  | some nonce_ranges ↦ insert pubkey (nonce_ranges ++ nonce_range ∷ []) ranges
  | none ↦ insert pubkey (nonce_range ∷ []) ranges
]

-- The range that starts at the counter.
unfoldable pub next_range : ℕ → Range
next_range start = record { start = start; end = sub64 (add64 start nonce_range_size) 1 }

pub start_mining : Challenge → ℤ → Range → ServerMessageStartMining
start_mining challenge cutoff r = record {
  challenge = challenge;
  cutoff = cutoff;
  nonce_range_start = r.start;
  nonce_range_end = r.end;
}

module _ {S : Type 0} where
  -- The end of a spawned task, after it has sent the message or has failed to.
  unfoldable pub run_task : Sent → Server S → Server S
  unfolding register_range
  run_task task st = record st {
    client_nonce_ranges = register_range st.client_nonce_ranges task.pubkey task.nonce_range;
  }

  unfoldable pub run_tasks : List Sent → Server S → Server S
  unfolding run_task
  run_tasks [] st = st
  run_tasks (task ∷ tasks) st = run_tasks tasks (run_task task st)

  -- A connected client takes the next range of nonces.
  unfoldable pub assign :
      Server S → Challenge → ℤ → SocketAddr → AppClientConnection → Server S × Sent
  unfolding next_range start_mining
  assign st challenge cutoff client sender =
      let nonce_range = next_range st.nonce in
      (
        record st { nonce = add64 st.nonce nonce_range_size },
        record {
          client = client;
          message = start_mining challenge cutoff nonce_range;
          pubkey = sender.pubkey;
          nonce_range = nonce_range;
        },
      )

  -- One ready client. It leaves the ready clients whether or not it is still connected.
  unfoldable pub serve_client : Server S → Challenge → ℤ → SocketAddr → Server S × List Sent
  unfolding assign
  serve_client st challenge cutoff client = elim (get client st.app_state.sockets) [
    | none ↦ (record st { ready_clients = remove client st.ready_clients }, [])
    | some sender ↦
        let (st', sent) = assign st challenge cutoff client sender in
        (record st' { ready_clients = remove client st'.ready_clients }, sent ∷ [])
  ]

  unfoldable pub serve_clients : Server S → Challenge → ℤ → List SocketAddr → Server S × List Sent
  serve_clients st challenge cutoff [] = (st, [])
  serve_clients st challenge cutoff (client ∷ clients) =
      let (st', sent) = serve_client st challenge cutoff client in
      let (st'', rest) = serve_clients st' challenge cutoff clients in (st'', sent ++ rest)

  -- The challenge goes out if ten seconds are left, or as long as nobody has found a solution, and
  -- only while the window is open.
  unfoldable pub should_mine : Server S → ℤ → Bool
  should_mine st cutoff =
      not (ltb_ℤ cutoff (pos 10) && is_some st.epoch_hashes.best_hash.solution)
      && not st.submission_window.closed

  -- One round of the loop, at the time `now`.
  unfoldable pub handle_ready_clients : Server S → ℕ → Server S × List Sent
  unfolding should_mine get_cutoff
  handle_ready_clients st now =
      let clients = map (λ (c : SocketAddr × Unit {0}). c.0) st.ready_clients in
      let cutoff = get_cutoff st.proof 4 now in
      if st.app_state.paused
      then (st, [])
      else if not (should_mine st cutoff)
      then (st, [])
      else serve_clients st st.proof.challenge (if ltb_ℤ cutoff (pos 10) then pos 0 else cutoff)
          clients

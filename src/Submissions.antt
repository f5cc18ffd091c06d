-- ===== src/Submissions.antt =====
-- `client_submissions_handler` (src/systems/client_submissions_handler.rs) and the constants of
-- src/main.rs that it uses. Each message of a batch is one step of the server.
pub mod Hashpower
pub mod Epoch
pub mod Batch
pub mod Frame
pub mod Replay
mod Tests
use coal_pool_server.Prelude.{
  ℕ, ◌+◌, ◌-◌, ◌*◌, ◌^◌, Bool, true, false, not, ◌&&◌, ◌||◌, Option, none, some, List, [], ◌∷◌,
  ◌++◌, ltb, leb, if◌then◌else◌, mul64, as_u64, nat_eq,
}
use coal_pool_server.Prelude.HashMap.{HashMap, get, insert}
use coal_pool_server.State.{
  Pubkey, SocketAddr, Challenge, Drillx, Server, Range, InternalMessageSubmission, EpochHashes,
  BestHash,
}

-- MIN_DIFF, MIN_HASHPOWER and MAX_CALCULATED_HASHPOWER.
abbrev pub min_diff : ℕ
min_diff = 12

abbrev pub min_hashpower : ℕ
min_hashpower = 80

abbrev pub max_calculated_hashpower : ℕ
max_calculated_hashpower = 327680

-- `2u64.pow(e)`, which wraps.
unfoldable pub pow2_64 : ℕ → ℕ
pow2_64 e = as_u64 (2 ^ e)

unfoldable pub hashpower_of : ℕ → ℕ
hashpower_of diff =
    let hashpower = mul64 min_hashpower (pow2_64 (diff - min_diff)) in
    if ltb max_calculated_hashpower hashpower then max_calculated_hashpower else hashpower

-- `Range::contains`
unfoldable pub contains : Range → ℕ → Bool
contains r n = leb r.start n && ltb n r.end

-- The loop over the client's ranges.
unfoldable pub in_ranges : List Range → ℕ → Bool
in_ranges [] n = false
in_ranges (r ∷ rs) n = contains r n || in_ranges rs n

-- A text that is sent to the client at an address.
pub data Reply : Type 0 where
  late : SocketAddr → Reply
  invalid : SocketAddr → Reply

-- How a message fares: the early exits in the order of the code, and the miner whose submission it
-- is.
pub data Verdict : Type 0 where
  low_difficulty window_closed no_nonce_range out_of_range no_socket invalid_solution : Verdict
  accepted : ℕ → Verdict

module _ (drillx : Drillx) where
  open drillx use {Solution, difficulty, nonce, is_valid}

  -- The checks of one message, up to the miner id.
  unfoldable pub verdict : Server Solution → SocketAddr → Solution → Pubkey → Verdict
  verdict st addr solution pubkey =
      if ltb (difficulty solution) min_diff
      then low_difficulty
      else if st.submission_window.closed
      then window_closed
      else elim (get pubkey st.client_nonce_ranges) [
        | none ↦ no_nonce_range
        | some nonce_ranges ↦
            if not (in_ranges nonce_ranges (nonce solution))
            then out_of_range
            else elim (get addr st.app_state.sockets) [
              | none ↦ no_socket
              | some socket ↦
                  if is_valid solution st.proof.challenge
                  then accepted socket.miner_id
                  else invalid_solution
            ]
      ]

  pub submission_of : ℕ → Solution → InternalMessageSubmission
  submission_of miner_id solution = record {
    miner_id = miner_id;
    supplied_diff = difficulty solution;
    supplied_nonce = nonce solution;
    hashpower = hashpower_of (difficulty solution);
  }

  -- The insertion, and the new best hash if there is one.
  pub insert_submission : EpochHashes Solution → ℕ → Solution → Pubkey → EpochHashes Solution
  unfolding submission_of
  insert_submission e miner_id solution pubkey = record e {
    submissions = insert pubkey (submission_of miner_id solution) e.submissions;
    best_hash =
        if ltb e.best_hash.difficulty (difficulty solution)
        then record { solution = some solution; difficulty = difficulty solution }
        else e.best_hash;
  }

  -- A client's later submission counts only if it is harder than its last one.
  unfoldable pub record_submission :
      EpochHashes Solution → ℕ → Solution → Pubkey → EpochHashes Solution
  unfolding insert_submission
  record_submission e miner_id solution pubkey = elim (get pubkey e.submissions) [
    | none ↦ insert_submission e miner_id solution pubkey
    | some old_sub ↦
        if ltb old_sub.supplied_diff (difficulty solution)
        then insert_submission e miner_id solution pubkey
        else e
  ]

  -- A text goes out only while the client's socket is known.
  pub reply : Server Solution → SocketAddr → Reply → List Reply
  reply st addr r = elim (get addr st.app_state.sockets) [ none ↦ [] | some socket ↦ r ∷ [] ]

  pub settle :
      Server Solution → SocketAddr → Solution → Pubkey → Verdict → Server Solution × List Reply
  unfolding record_submission reply
  settle st addr solution pubkey window_closed = (st, reply st addr (late addr))
  settle st addr solution pubkey invalid_solution = (st, reply st addr (invalid addr))
  settle st addr solution pubkey (accepted miner_id) =
      (record st { epoch_hashes = record_submission st.epoch_hashes miner_id solution pubkey }, [])
  settle st addr solution pubkey v = (st, [])

  -- One message of the loop.
  unfoldable pub handle_submission :
      Server Solution → SocketAddr × Solution × Pubkey → Server Solution × List Reply
  unfolding settle verdict
  handle_submission st (addr, solution, pubkey) =
      settle st addr solution pubkey (verdict st addr solution pubkey)

  -- The batch that `recv_many` returns.
  unfoldable pub handle_submissions :
      Server Solution → List (SocketAddr × Solution × Pubkey) → Server Solution × List Reply
  handle_submissions st [] = (st, [])
  handle_submissions st (msg ∷ msgs) =
      let (st', replies) = handle_submission st msg in
      let (st'', rest) = handle_submissions st' msgs in (st'', replies ++ rest)

-- ===== src/Submissions/Batch.antt =====
-- What `handle_submission` and `handle_submissions` do to the server's state.
use coal_pool_server.Prelude.{
  ℕ, ◌≤◌, ◌≡◌, refl, ap, ◌∙◌, inl, inr, true, false, some, List, [], ◌∷◌, arith, ltb, Bool-cases,
  Option-cases, nat_eq, ◌↔◌,
}
use coal_pool_server.Prelude.HashMap.{get}
use coal_pool_server.State.{Pubkey, SocketAddr, Drillx, Server, Range, AppClientConnection}
use coal_pool_server.Submissions.{
  min_diff, in_ranges, Verdict, low_difficulty, window_closed, no_nonce_range, out_of_range,
  no_socket, invalid_solution, accepted, verdict, settle, handle_submission, handle_submissions,
}
use coal_pool_server.Submissions.Epoch.{IsSound, record_submission-IsSound}

module _ (drillx : Drillx) where
  open drillx use {Solution, difficulty, nonce, is_valid}

  -- A submission by `miner_id` that may count: it is hard enough and comes while the window is open, its
  -- nonce is in a range of its key, its socket is that of the miner, and it solves the challenge of the
  -- proof.
  pub record Counts (st : Server Solution) (addr : SocketAddr) (solution : Solution)
      (pubkey : Pubkey) (miner_id : ℕ) : Type 0 where
    pub hard : min_diff ≤ difficulty solution
    pub in_time : st.submission_window.closed ≡ false
    pub owned :
        (rs : List Range) × (get pubkey st.client_nonce_ranges ≡ some rs)
        × (in_ranges rs (nonce solution) ≡ true)
    pub connected :
        (socket : AppClientConnection) × (get addr st.app_state.sockets ≡ some socket)
        × (socket.miner_id ≡ miner_id)
    pub valid : is_valid solution st.proof.challenge ≡ true

  verdict-Counts :
      (st : Server Solution) (addr : SocketAddr) (solution : Solution) (pubkey : Pubkey)
      (miner_id : ℕ)
      → verdict drillx st addr solution pubkey ≡ accepted miner_id
      → Counts st addr solution pubkey miner_id
  unfolding verdict
  verdict-Counts st addr solution pubkey miner_id h =
      elim (Option-cases (get pubkey st.client_nonce_ranges)) [
        | inl e ↦ absurd (ground (arith, h, e))
        | inr (rs, owned) ↦ elim (Option-cases (get addr st.app_state.sockets)) [
          | inl e ↦ absurd (ground (arith, h, owned, e))
          | inr (socket, connected) ↦ record {
            hard = ground (arith, h, owned, connected);
            in_time = ground (arith, h, owned, connected);
            owned = (rs, owned, ground (arith, h, owned, connected));
            connected = (socket, connected, ground (arith, h, owned, connected));
            valid = ground (arith, h, owned, connected);
          }
        ]
      ]

  Counts-verdict :
      (st : Server Solution) (addr : SocketAddr) (solution : Solution) (pubkey : Pubkey)
      (miner_id : ℕ)
      → Counts st addr solution pubkey miner_id
      → verdict drillx st addr solution pubkey ≡ accepted miner_id
  unfolding verdict
  Counts-verdict st addr solution pubkey miner_id c =
      let (rs, has, within) = c.owned in
      let (socket, known, its) = c.connected in
      let hard : ltb (difficulty solution) min_diff ≡ false = ground (arith, c.hard) in
      rw (hard, c.in_time, has, within, known, c.valid, its)

  -- A message is accepted, and under which miner, exactly if its submission may count: it is hard
  -- enough, the window is open, its nonce is in a range of its key, its socket is that of the
  -- miner, and it solves the challenge of the proof.
  pub verdict_iff :
      (st : Server Solution) (addr : SocketAddr) (solution : Solution) (pubkey : Pubkey)
      (miner_id : ℕ)
      → (verdict drillx st addr solution pubkey ≡ accepted miner_id)
        ↔ Counts st addr solution pubkey miner_id
  verdict_iff st addr solution pubkey miner_id = (
    verdict-Counts st addr solution pubkey miner_id,
    Counts-verdict st addr solution pubkey miner_id,
  )

  pub handle_submission-IsSound :
      (st : Server Solution) (msg : SocketAddr × Solution × Pubkey)
      → IsSound drillx st.epoch_hashes
      → IsSound drillx (handle_submission drillx st msg).0.epoch_hashes
  unfolding handle_submission settle
  handle_submission-IsSound st (addr, solution, pubkey) v =
      by_verdict (verdict drillx st addr solution pubkey) refl
    where
      by_verdict :
          (w : Verdict)
          → verdict drillx st addr solution pubkey ≡ w
          → IsSound drillx (settle drillx st addr solution pubkey w).0.epoch_hashes
      by_verdict low_difficulty e = v
      by_verdict window_closed e = v
      by_verdict no_nonce_range e = v
      by_verdict out_of_range e = v
      by_verdict no_socket e = v
      by_verdict invalid_solution e = v
      by_verdict (accepted miner_id) e =
          record_submission-IsSound drillx st.epoch_hashes miner_id solution pubkey
            (verdict-Counts st addr solution pubkey miner_id e).hard v

  -- If the epoch's hashes are sound, they are sound after a batch of messages, whatever it holds:
  -- each key has one submission, which has at least the minimal difficulty, is no harder than the
  -- best hash and has the hashpower of its difficulty, and the best hash is that of a submission,
  -- or there is none.
  pub handle_submissions-IsSound :
      (st : Server Solution) (msgs : List (SocketAddr × Solution × Pubkey))
      → IsSound drillx st.epoch_hashes
      → IsSound drillx (handle_submissions drillx st msgs).0.epoch_hashes
  unfolding handle_submissions
  handle_submissions-IsSound st [] v = v
  handle_submissions-IsSound st (msg ∷ msgs) v =
      handle_submissions-IsSound (handle_submission drillx st msg).0 msgs
        (handle_submission-IsSound st msg v)

  handle_submission_closed :
      (st : Server Solution) (msg : SocketAddr × Solution × Pubkey)
      → st.submission_window.closed ≡ true
      → (handle_submission drillx st msg).0 ≡ st
  unfolding handle_submission verdict settle
  handle_submission_closed st (addr, solution, pubkey) closed =
      elim (Bool-cases (ltb (difficulty solution) min_diff)) [
        | inl low ↦ rw (verdict, low)
        | inr hard ↦ rw (verdict, hard, closed)
      ]

  -- While the window is closed a batch leaves the whole state of the server as it is.
  pub handle_submissions_closed :
      (st : Server Solution) (msgs : List (SocketAddr × Solution × Pubkey))
      → st.submission_window.closed ≡ true
      → (handle_submissions drillx st msgs).0 ≡ st
  unfolding handle_submissions
  handle_submissions_closed st [] closed = refl
  handle_submissions_closed st (msg ∷ msgs) closed =
      ap (λ (s : Server Solution). (handle_submissions drillx s msgs).0)
        (handle_submission_closed st msg closed)
      ∙ handle_submissions_closed st msgs closed

-- ===== src/Submissions/Frame.antt =====
-- What the handler of submissions leaves alone: all of the state but the epoch's hashes, and of those the
-- challenge.
use coal_pool_server.Prelude.{
  ℕ, ◌≡◌, refl, ap, ◌∙◌, List, [], ◌∷◌, ltb, Option-cases, Bool-cases, inl, inr, nat_eq,
}
use coal_pool_server.Prelude.HashMap.{get}
use coal_pool_server.State.{Pubkey, SocketAddr, Drillx, Server, EpochHashes}
use coal_pool_server.Submissions.{
  Verdict, low_difficulty, window_closed, no_nonce_range, out_of_range, no_socket, invalid_solution,
  accepted, verdict, insert_submission, record_submission, settle, handle_submission,
  handle_submissions,
}

-- The state with other hashes.
abbrev pub with_hashes : {S : Type 0} → Server S → EpochHashes S → Server S
with_hashes st e = record st { epoch_hashes = e }

module _ (drillx : Drillx) where
  open drillx use {Solution, difficulty}

  -- The two states differ in the submissions and the best hash only.
  abbrev pub Frames : Server Solution → Server Solution → Type 0
  Frames st st' =
      (st' ≡ with_hashes st st'.epoch_hashes)
      × (st'.epoch_hashes.challenge ≡ st.epoch_hashes.challenge)

  record_submission-challenge :
      (e : EpochHashes Solution) (miner_id : ℕ) (solution : Solution) (pubkey : Pubkey)
      → (record_submission drillx e miner_id solution pubkey).challenge ≡ e.challenge
  unfolding record_submission insert_submission
  record_submission-challenge e miner_id solution pubkey =
      elim (Option-cases (get pubkey e.submissions)) [
        | inl none_yet ↦ rw (none_yet, record_submission)
        | inr (last, found) ↦ elim (Bool-cases (ltb last.supplied_diff (difficulty solution))) [
          | inl harder ↦ rw (found, record_submission, harder)
          | inr easier ↦ rw (found, record_submission, easier)
        ]
      ]

  pub settle-Frames :
      (st : Server Solution) (addr : SocketAddr) (solution : Solution) (pubkey : Pubkey)
      (v : Verdict)
      → Frames st (settle drillx st addr solution pubkey v).0
  unfolding settle
  settle-Frames st addr solution pubkey low_difficulty = (refl, refl)
  settle-Frames st addr solution pubkey window_closed = (refl, refl)
  settle-Frames st addr solution pubkey no_nonce_range = (refl, refl)
  settle-Frames st addr solution pubkey out_of_range = (refl, refl)
  settle-Frames st addr solution pubkey no_socket = (refl, refl)
  settle-Frames st addr solution pubkey invalid_solution = (refl, refl)
  settle-Frames st addr solution pubkey (accepted miner_id) =
      (refl, record_submission-challenge st.epoch_hashes miner_id solution pubkey)

  pub handle_submissions-Frames :
      (st : Server Solution) (msgs : List (SocketAddr × Solution × Pubkey))
      → Frames st (handle_submissions drillx st msgs).0
  unfolding handle_submissions handle_submission
  handle_submissions-Frames st [] = (refl, refl)
  handle_submissions-Frames st ((addr, solution, pubkey) ∷ msgs) =
      let v = verdict drillx st addr solution pubkey in
      let st' = (settle drillx st addr solution pubkey v).0 in
      let (same, challenge) = settle-Frames st addr solution pubkey v in
      let (same', challenge') = handle_submissions-Frames st' msgs in
      let last = (handle_submissions drillx st' msgs).0.epoch_hashes in
      (same' ∙ ap (λ (s : Server Solution). with_hashes s last) same, challenge' ∙ challenge)

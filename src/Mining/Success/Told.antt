-- ===== src/Mining/Success/Told.antt =====
-- The task that follows a mined transaction (src/systems/pool_submission_system.rs) comes to its end.
use coal_pool_server.Prelude.{
  ℕ, ◌+◌, ◌<◌, ◌≡◌, inl, inr, some, List, ◌∷◌, map, arith, u64_mod, All, Option-cases,
}
use coal_pool_server.Prelude.HashMap.{HashMap}
use coal_pool_server.State.{Pubkey, Challenge, Proof, InternalMessageSubmission}
use coal_pool_server.Models.{Reward}
use coal_pool_server.Rewards.{MessageInternalMineSuccess, full_rewards_of, commissions_of}
use coal_pool_server.Database.{Access, granted, retry, update_rewards}
use coal_pool_server.Database.Batches.{HasRoom, for_rows-eq, credit}
use coal_pool_server.Database.Challenges.{
  ChallengeRow, ChallengeTable, find_challenge, find-new_row, new_row, get_challenge_by_challenge,
  record_challenge, add_new_challenge, Knows,
}
use coal_pool_server.Mining.Success.{
  MineEvent, Receipt, returned, look_up, challenge_row, success_message, commission_rewards, told,
  mine_success,
}

-- A look, an attempt to record, and a second look that go through are enough.
challenge_row_found :
    (pool_id : ℕ) (c : Challenge) (t : ChallengeTable) (b : Access)
    (attempts more : List (Access × Access)) (rest : List (Access × List (Access × Access)))
    → (r : ChallengeRow) × (t' : ChallengeTable) × (challenge_row
          ((granted, (granted, b) ∷ attempts) ∷ (granted, more) ∷ rest)
          pool_id
          c
          t
        ≡ some (r, t'))
      × (find_challenge c t'.rows ≡ some r)
unfolding challenge_row get_challenge_by_challenge record_challenge add_new_challenge
challenge_row_found pool_id c t b attempts more rest =
    elim (Option-cases (find_challenge c t.rows)) [
      | inr (r, found) ↦ (r, t, rw (found), found)
      | inl lacks ↦
          let r = new_row t pool_id c in
          let t' : ChallengeTable = record { rows = r ∷ t.rows; next_id = t.next_id + 1 } in
          (r, t', rw (lacks, find-new_row t pool_id c), find-new_row t pool_id c)
    ]

-- If the node comes to answer with an event whose two rewards fit in 64 bits, the database grants the
-- first two looks for the challenge, an attempt to record it between them, and an update, and the rows
-- of the rewards have room for the commission, then the task ends by telling of the success, and the
-- challenge is in the table.
pub mine_success_tells :
    (receipts : List Receipt) (event : MineEvent) (b : Access)
    (attempts more : List (Access × Access)) (rest : List (Access × List (Access × Access)))
    (updates : List Access) (pool_id miner_id : ℕ) (old : Proof) (best_nonce : ℕ)
    (submissions : HashMap Pubkey InternalMessageSubmission) (t : ChallengeTable)
    (rows : List Reward)
    → look_up receipts ≡ some (returned (some event))
    → event.net_base_reward + event.net_miner_boost_reward < u64_mod
    → All
        (HasRoom (
          commission_rewards miner_id
            (commissions_of (event.net_base_reward + event.net_miner_boost_reward))))
        rows
    → (msg : MessageInternalMineSuccess) × (t' : ChallengeTable) × (rows' : List Reward)
      × (mine_success
            (record {
              looks = (granted, (granted, b) ∷ attempts) ∷ (granted, more) ∷ rest;
              updates = granted ∷ updates;
            })
            receipts
            pool_id
            miner_id
            old
            best_nonce
            submissions
            t
            rows
          ≡ told msg t' rows')
      × Knows t' old.challenge
unfolding mine_success success_message retry update_rewards full_rewards_of
mine_success_tells receipts event b attempts more rest updates pool_id miner_id old best_nonce
      submissions t rows answer fits room =
    let full = event.net_base_reward + event.net_miner_boost_reward in
    let us = commission_rewards miner_id (commissions_of full) in
    let (r, t', row, knows) = challenge_row_found pool_id old.challenge t b attempts more rest in
    let sum : full_rewards_of event.net_base_reward event.net_miner_boost_reward ≡ some full =
      ground (arith, fits) in
    (
      success_message old best_nonce submissions full r.id,
      t',
      map (credit us) rows,
      rw (answer, sum, row, for_rows-eq us rows room),
      (r, knows),
    )

-- ===== src/Mining/Success.antt =====
-- The task of `pool_submission_system` (src/systems/pool_submission_system.rs) that looks up what a mined
-- transaction has earned, pays the commission and tells `pool_mine_success_system`. The answers of the node
-- and the accesses to the database are arguments.
pub mod Payment
pub mod Told
use coal_pool_server.Prelude.{ℕ, Bool, true, Option, none, some, List, [], ◌∷◌}
use coal_pool_server.Prelude.HashMap.{HashMap}
use coal_pool_server.State.{Pubkey, Challenge, Proof, InternalMessageSubmission}
use coal_pool_server.Models.{UpdateReward, Reward}
use coal_pool_server.Rewards.{
  MessageInternalMineSuccess, full_rewards_of, commissions_of, total_hashpower_of,
}
use coal_pool_server.Database.{Result, ok, err, Access, retry, update_rewards}
use coal_pool_server.Database.Challenges.{
  ChallengeRow, ChallengeTable, get_challenge_by_challenge, record_challenge,
}

-- The fields of ore_miner_delegation's `MineEventWithGlobalBoosts` that the pool counts.
pub record MineEvent : Type 0 where
  pub net_base_reward : ℕ
  pub net_miner_boost_reward : ℕ

-- What the node answers when it is asked for the transaction: nothing, a transaction without log
-- messages, one that makes the task panic, since its metadata is missing or its return data is no base64,
-- or one whose return data is an event or is none.
pub data Receipt : Type 0 where
  unavailable without_logs malformed : Receipt
  returned : Option MineEvent → Receipt

-- The loop that asks for it: the answer that ends it, if one comes.
unfoldable pub look_up : List Receipt → Option Receipt
look_up [] = none
look_up (unavailable ∷ rest) = look_up rest
look_up (without_logs ∷ rest) = look_up rest
look_up (malformed ∷ rest) = some malformed
look_up (returned event ∷ rest) = some (returned event)

-- One turn of the loop below: the row that was found, or that of the next turns, once the challenge is
-- recorded.
abbrev pub found_or :
    Result ChallengeRow
    → ChallengeTable
    → Option ChallengeTable
    → (ChallengeTable → Option (ChallengeRow × ChallengeTable))
    → Option (ChallengeRow × ChallengeTable)
found_or (ok r) t recorded rest = some (r, t)
found_or (err e) t none rest = none
found_or (err e) t (some t') rest = rest t'

-- The loop that finds the challenge's row, and records it if it does not find it. Each turn has the access
-- of its look and those of the attempts to record.
unfoldable pub challenge_row :
    List (Access × List (Access × Access))
    → ℕ
    → Challenge
    → ChallengeTable
    → Option (ChallengeRow × ChallengeTable)
unfolding get_challenge_by_challenge record_challenge
challenge_row [] pool_id c t = none
challenge_row ((a, attempts) ∷ rest) pool_id c t =
    found_or (get_challenge_by_challenge a c t) t (record_challenge attempts pool_id c t)
      λ t'. challenge_row rest pool_id c t'

-- The message, with no multiplier and the global boosts on.
unfoldable pub success_message :
    Proof → ℕ → HashMap Pubkey InternalMessageSubmission → ℕ → ℕ → MessageInternalMineSuccess
unfolding commissions_of total_hashpower_of
success_message old best_nonce submissions full_rewards challenge_id = record {
  rewards = full_rewards;
  commissions = commissions_of full_rewards;
  challenge_id = challenge_id;
  challenge = old.challenge;
  best_nonce = best_nonce;
  total_hashpower = total_hashpower_of 0 submissions;
  submissions = submissions;
  global_boosts_active = true;
}

-- The one update for the pool's own miner.
abbrev pub commission_rewards : ℕ → ℕ → List UpdateReward
commission_rewards miner_id commissions = record { miner_id = miner_id; balance = commissions } ∷ []

-- How the task ends: the message went out, with the two tables as they are then; the transaction gave no
-- event; the task panics, also since the rewards do not fit; or it has not ended.
pub data MineEnd : Type 0 where
  told : MessageInternalMineSuccess → ChallengeTable → List Reward → MineEnd
  no_event panicked waiting : MineEnd

-- What the database is asked for, and what it gives.
pub record Asks : Type 0 where
  pub looks : List (Access × List (Access × Access))
  pub updates : List Access

abbrev pub tell : MessageInternalMineSuccess → ChallengeTable → Option (List Reward) → MineEnd
tell msg t none = waiting
tell msg t (some rows) = told msg t rows

abbrev pub pay_commission :
    Asks
    → ℕ
    → (ℕ → MessageInternalMineSuccess)
    → List Reward
    → Option (ChallengeRow × ChallengeTable)
    → MineEnd
pay_commission asks miner_id message rows none = waiting
pay_commission asks miner_id message rows (some (r, t)) =
    let msg = message r.id in
    let update = λ (access : Access).
      update_rewards access (commission_rewards miner_id msg.commissions) rows in
    tell msg t (retry asks.updates update)

-- What follows the sum of the two rewards, and before it the answer of the node.
abbrev pub with_rewards :
    Asks
    → ℕ
    → (ℕ → ℕ → MessageInternalMineSuccess)
    → List Reward
    → Option (ChallengeRow × ChallengeTable)
    → Option ℕ
    → MineEnd
with_rewards asks miner_id message rows found none = panicked
with_rewards asks miner_id message rows found (some full) =
    pay_commission asks miner_id (message full) rows found

abbrev pub with_event : (MineEvent → MineEnd) → Option Receipt → MineEnd
with_event rest none = waiting
with_event rest (some unavailable) = waiting
with_event rest (some without_logs) = waiting
with_event rest (some malformed) = panicked
with_event rest (some (returned none)) = no_event
with_event rest (some (returned (some event))) = rest event

unfoldable pub mine_success :
    Asks
    → List Receipt
    → ℕ
    → ℕ
    → Proof
    → ℕ
    → HashMap Pubkey InternalMessageSubmission
    → ChallengeTable
    → List Reward
    → MineEnd
unfolding look_up challenge_row success_message full_rewards_of retry update_rewards
mine_success asks receipts pool_id miner_id old best_nonce submissions t rows =
    with_event
      (λ event.
        with_rewards asks miner_id (success_message old best_nonce submissions) rows
          (challenge_row asks.looks pool_id old.challenge t)
          (full_rewards_of event.net_base_reward event.net_miner_boost_reward))
      (look_up receipts)

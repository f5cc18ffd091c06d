-- ===== src/Rewards/Stakers.antt =====
-- The stakers' part of a reward: `process_stakers_rewards` of src/systems/pool_mine_success_system.rs,
-- from the stake accounts of the three mints to the updates that it writes. Pages is the loop that
-- reads the accounts of a mint.
pub mod Bounds
pub mod Pages
pub mod Distinct
pub mod Payment
use coal_pool_server.Prelude.{
  ℕ, ◌+◌, ◌*◌, ◌/◌, Bool, true, false, List, [], ◌∷◌, ◌++◌, map, if◌then◌else◌, ltb, add64, as_u64,
}
use coal_pool_server.Models.{StakeAccount, UpdateStakeAccountRewards}
use coal_pool_server.Rewards.{
  ore_stake_percentage, ore_sol_stake_percentage, ore_isc_stake_percentage,
}

-- A mint's part of the whole reward.
unfoldable pub part_of : ℕ → ℕ → ℕ
part_of total_rewards percentage = as_u64 (total_rewards * percentage / 100)

-- The check that the three parts are not more than the stakers get.
unfoldable pub exceeds : ℕ → ℕ → Bool
unfolding part_of
exceeds total_rewards staker_rewards = ltb staker_rewards (
    add64
      (add64 (part_of total_rewards ore_stake_percentage)
        (part_of total_rewards ore_sol_stake_percentage))
      (part_of total_rewards ore_isc_stake_percentage))

-- The sum that the loop over the pages adds up.
unfoldable pub total_boosted : ℕ → List StakeAccount → ℕ
total_boosted acc [] = acc
total_boosted acc (a ∷ rest) = total_boosted (add64 acc a.staked_balance) rest

unfoldable pub stake_reward : ℕ → ℕ → StakeAccount → UpdateStakeAccountRewards
stake_reward rewards boosted a = record {
  stake_pda = a.stake_pda;
  rewards_balance = as_u64 (rewards * a.staked_balance / boosted);
}

-- The updates for a mint. Nothing is given out if nothing is staked.
unfoldable pub share_out : ℕ → List StakeAccount → List UpdateStakeAccountRewards
unfolding total_boosted stake_reward
share_out rewards accounts =
    if ltb 0 (total_boosted 0 accounts)
    then map (stake_reward rewards (total_boosted 0 accounts)) accounts
    else []

-- The updates for the accounts of the three mints.
unfoldable pub staker_updates :
    ℕ
    → ℕ
    → List StakeAccount
    → List StakeAccount
    → List StakeAccount
    → List UpdateStakeAccountRewards
unfolding exceeds share_out
staker_updates total_rewards staker_rewards ore ore_sol ore_isc =
    if exceeds total_rewards staker_rewards
    then []
    else share_out (part_of total_rewards ore_stake_percentage) ore
      ++ (share_out (part_of total_rewards ore_sol_stake_percentage) ore_sol
          ++ share_out (part_of total_rewards ore_isc_stake_percentage) ore_isc)

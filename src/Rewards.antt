-- ===== src/Rewards.antt =====
-- How the reward of a mined hash is divided: the miners' part of `pool_mine_success_system`
-- (src/systems/pool_mine_success_system.rs) and the commission and total hashpower that
-- `pool_submission_system` (src/systems/pool_submission_system.rs) sends it. Products are taken in
-- `u128`, where those of two `u64` fit.
pub mod Conservation
pub mod Stakers
pub mod Payout
mod Tests
use coal_pool_server.Prelude.{
  ℕ, ◌+◌, ◌-◌, ◌*◌, ◌/◌, ◌%◌, Bool, true, false, not, Option, none, some, List, [], ◌∷◌,
  if◌then◌else◌, nat_beq, add64, sub64, mul64, as_u64, ltb, u64_mod,
}
use coal_pool_server.Prelude.Int.{ℤ, pos, negsuc}
use coal_pool_server.Prelude.HashMap.{HashMap}
use coal_pool_server.Models.{InsertSubmission, UpdateReward}
use coal_pool_server.State.{Pubkey, Challenge, InternalMessageSubmission}

-- ORE_STAKE_PERCENTAGE, ORE_SOL_STAKE_PERCENTAGE, ORE_ISC_STAKE_PERCENTAGE and their sum.
abbrev pub ore_stake_percentage : ℕ
ore_stake_percentage = 20

abbrev pub ore_sol_stake_percentage : ℕ
ore_sol_stake_percentage = 10

abbrev pub ore_isc_stake_percentage : ℕ
ore_isc_stake_percentage = 14

abbrev pub total_staker_percentage : ℕ
total_staker_percentage = ore_stake_percentage + ore_sol_stake_percentage + ore_isc_stake_percentage

-- The fields of the message that the division reads.
pub record MessageInternalMineSuccess : Type 0 where
  pub rewards : ℕ
  pub commissions : ℕ
  pub challenge_id : ℕ
  pub challenge : Challenge
  pub best_nonce : ℕ
  pub total_hashpower : ℕ
  pub submissions : HashMap Pubkey InternalMessageSubmission
  pub global_boosts_active : Bool

-- `checked_add(..).unwrap()`: no value is a panic.
unfoldable pub full_rewards_of : ℕ → ℕ → Option ℕ
full_rewards_of base boost = if ltb (base + boost) u64_mod then some (base + boost) else none

-- `full_rewards.mul(5).saturating_div(100)`
unfoldable pub commissions_of : ℕ → ℕ
commissions_of full_rewards = mul64 full_rewards 5 / 100

-- The loop that adds the hashpowers up.
unfoldable pub total_hashpower_of : ℕ → HashMap Pubkey InternalMessageSubmission → ℕ
total_hashpower_of acc [] = acc
total_hashpower_of acc ((pubkey, s) ∷ m) = total_hashpower_of (add64 acc s.hashpower) m

unfoldable pub staker_rewards_of : MessageInternalMineSuccess → ℕ
staker_rewards_of msg =
    if not msg.global_boosts_active then as_u64 (msg.rewards * total_staker_percentage / 100) else 0

unfoldable pub miners_rewards_of : MessageInternalMineSuccess → ℕ
unfolding staker_rewards_of
miners_rewards_of msg = sub64 (sub64 msg.rewards msg.commissions) (staker_rewards_of msg)

-- A miner's share. A division by zero panics.
unfoldable pub earned_rewards : ℕ → ℕ → ℕ → Option ℕ
earned_rewards total_rewards hashpower total_hashpower =
    if nat_beq total_hashpower 0
    then none
    else some (as_u64 (total_rewards * hashpower / total_hashpower))

-- `as i8`
abbrev pub as_i8 : ℕ → ℤ
as_i8 d = if ltb (d % 256) 128 then pos (d % 256) else negsuc (255 - d % 256)

-- What the loop over the submissions collects.
pub record Shares : Type 0 where
  pub rewards : List UpdateReward
  pub submissions : List InsertSubmission
  pub total_earned : ℕ

unfoldable pub insert_submission_of : ℕ → InternalMessageSubmission → InsertSubmission
insert_submission_of challenge_id s = record {
  miner_id = s.miner_id;
  challenge_id = challenge_id;
  nonce = s.supplied_nonce;
  difficulty = as_i8 s.supplied_diff;
}

-- The shares of the rest of the loop, after those of one submission.
unfoldable pub add_share : ℕ → InternalMessageSubmission → ℕ → Shares → Shares
unfolding insert_submission_of
add_share challenge_id s earned rest = record {
  rewards = record { miner_id = s.miner_id; balance = earned } ∷ rest.rewards;
  submissions = insert_submission_of challenge_id s ∷ rest.submissions;
  total_earned = add64 earned rest.total_earned;
}

unfoldable pub shares_of : ℕ → ℕ → ℕ → HashMap Pubkey InternalMessageSubmission → Option Shares
unfolding add_share earned_rewards
shares_of total_rewards total_hashpower challenge_id [] =
    some (record { rewards = []; submissions = []; total_earned = 0 })
shares_of total_rewards total_hashpower challenge_id ((pubkey, s) ∷ m) =
    elim (earned_rewards total_rewards s.hashpower total_hashpower) [
      | none ↦ none
      | some earned ↦ elim (shares_of total_rewards total_hashpower challenge_id m) [
        | none ↦ none
        | some rest ↦ some (add_share challenge_id s earned rest)
      ]
    ]

-- The whole division.
unfoldable pub divide : MessageInternalMineSuccess → Option Shares
unfolding miners_rewards_of shares_of
divide msg = shares_of (miners_rewards_of msg) msg.total_hashpower msg.challenge_id msg.submissions

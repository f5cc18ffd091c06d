-- ===== src/Models.antt =====
-- The rows of the database (src/models.rs), as far as the model's queries touch them. A public key
-- in its text form is the number of the key.
use coal_pool_server.Prelude.{ℕ, Bool}
use coal_pool_server.Prelude.Int.{ℤ}
use coal_pool_server.State.{Pubkey}

pub record InsertSubmission : Type 0 where
  pub miner_id : ℕ
  pub challenge_id : ℕ
  pub nonce : ℕ
  pub difficulty : ℤ

pub record UpdateReward : Type 0 where
  pub miner_id : ℕ
  pub balance : ℕ

pub record Reward : Type 0 where
  pub id : ℕ
  pub balance : ℕ
  pub miner_id : ℕ

pub record StakeAccount : Type 0 where
  pub id : ℕ
  pub pool_id : ℕ
  pub mint_pubkey : Pubkey
  pub staker_pubkey : Pubkey
  pub stake_pda : Pubkey
  pub rewards_balance : ℕ
  pub staked_balance : ℕ

pub record UpdateStakeAccountRewards : Type 0 where
  pub stake_pda : Pubkey
  pub rewards_balance : ℕ

pub record Pool : Type 0 where
  pub id : ℕ
  pub authority_pubkey : Pubkey
  pub total_rewards : ℕ
  pub claimed_rewards : ℕ

pub record InsertClaim : Type 0 where
  pub miner_id : ℕ
  pub pool_id : ℕ
  pub txn_id : ℕ
  pub amount : ℕ

pub record Miner : Type 0 where
  pub id : ℕ
  pub pubkey : Pubkey
  pub enabled : Bool

pub record UpdateStakeAccount : Type 0 where
  pub stake_pda : Pubkey
  pub staked_balance : ℕ

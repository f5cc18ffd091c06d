-- ===== src/Database/Stakes.antt =====
-- The updates of the table `stake_accounts` in src/app_database.rs: the rewards of stakers, and the
-- balances that they have staked. The column `stake_pda` is unique
-- (migrations/2024-10-19-235653_stake_accounts_stake_pda_unique).
use coal_pool_server.Prelude.{ℕ, ◌+◌, ◌&&◌, List, if◌then◌else◌, ltb, u64_mod, nat_eq}
use coal_pool_server.State.{Pubkey}
use coal_pool_server.Models.{StakeAccount, UpdateStakeAccount, UpdateStakeAccountRewards}
use coal_pool_server.Database.{Result, ok, err, query_failed, Access}
use coal_pool_server.Database.Bulk.{update_rows}

-- A row of the table: what the program reads of it, and the column that it only adds to.
pub record StakeRow : Type 0 where
  pub account : StakeAccount
  pub total_rewards_earned : ℕ

abbrev pub row_key : StakeRow → Pubkey
row_key row = row.account.stake_pda

-- The row with an amount added to both its columns.
abbrev pub rewarded : ℕ → StakeRow → StakeRow
rewarded amount row = record {
  account = record (row.account) { rewards_balance = row.account.rewards_balance + amount };
  total_rewards_earned = row.total_rewards_earned + amount;
}

unfoldable pub reward_row : ℕ → StakeRow → Result StakeRow
reward_row amount row =
    if ltb (row.account.rewards_balance + amount) u64_mod
      && ltb (row.total_rewards_earned + amount) u64_mod
    then ok (rewarded amount row)
    else err query_failed

abbrev pub reward_entry : UpdateStakeAccountRewards → ℕ × ℕ
reward_entry u = (u.stake_pda, u.rewards_balance)

unfoldable pub update_stake_accounts_rewards :
    Access → List UpdateStakeAccountRewards → List StakeRow → Result (List StakeRow)
unfolding update_rows reward_row
update_stake_accounts_rewards = update_rows row_key reward_row reward_entry

abbrev pub restaked : ℕ → StakeRow → StakeRow
restaked amount row = record row { account = record (row.account) { staked_balance = amount } }

abbrev pub stake_row : ℕ → StakeRow → Result StakeRow
stake_row amount row = ok (restaked amount row)

abbrev pub stake_entry : UpdateStakeAccount → ℕ × ℕ
stake_entry u = (u.stake_pda, u.staked_balance)

unfoldable pub update_stake_accounts_staked_balance :
    Access → List UpdateStakeAccount → List StakeRow → Result (List StakeRow)
unfolding update_rows
update_stake_accounts_staked_balance = update_rows row_key stake_row stake_entry

-- ===== src/Rewards/Stakers/Payment.antt =====
-- `process_stakers_rewards` of src/systems/pool_mine_success_system.rs as a whole: it reads the accounts
-- of the three mints page by page and writes their shares in batches.
pub mod Credits
use coal_pool_server.Prelude.{
  ℕ, zero, suc, ◌+◌, ◌*◌, ◌≤◌, ◌<◌, ◌≡◌, ◌≢◌, refl, sym, ap, ◌∙◌, subst, true, false, ◌&&◌, Option,
  none, some, List, [], ◌∷◌, ◌++◌, map, arith, if◌then◌else◌, ltb, u64_mod, nat_eq, length, All,
  sum_of,
}
use coal_pool_server.Prelude.HashMap.{HashMap, get, HasDistinctKeys}
use coal_pool_server.State.{Pubkey}
use coal_pool_server.Models.{StakeAccount, UpdateStakeAccountRewards}
use coal_pool_server.Database.{ok, Access, chunks}
use coal_pool_server.Database.Attempts.{ReachesAll}
use coal_pool_server.Database.Bulk.{write_batches, Fits, updated, write_chunks-eq}
use coal_pool_server.Database.Stakes.{
  StakeRow, row_key, rewarded, reward_row, reward_entry, update_stake_accounts_rewards,
}
use coal_pool_server.Rewards.{MessageInternalMineSuccess, staker_rewards_of}
use coal_pool_server.Rewards.Stakers.{exceeds, staker_updates}
use coal_pool_server.Rewards.Stakers.Pages.{of_mint, account_id, read_accounts, read_accounts-eq}
use coal_pool_server.Database.Pages.{Ascends, grants}
use coal_pool_server.Rewards.Stakers.Bounds.{staked_sum, reward_sum, staker_updates-le}
use coal_pool_server.Rewards.Stakers.Distinct.{addresses, three_shares-HasDistinctKeys}

-- The mints, as the numbers of their keys: oreoU2P8bN6jkk3jbaiVxYnG1dCXcYxwhwyK9jSybcp,
-- DrSS5RM7zUd9qjUEdDaf31vnDUSbCrMto6mjqTrHFifN and meUwDp23AaxhiNKaQCyJ2EAF2T4oe1gSkEkGXSRVdZb.
abbrev pub ore_mint : Pubkey
ore_mint = 53354759446856796273547434875762660567356923133041642697664084064069213683724

abbrev pub ore_sol_mint : Pubkey
ore_sol_mint = 89541797139752153011592925087759402309295599153189667478588437357324571899582

abbrev pub ore_isc_mint : Pubkey
ore_isc_mint = 109708055411501527798249890756007866763222019707766810366084370311191695683339

-- The accesses of the three loops over pages, and those of each batch.
pub record StakerAttempts : Type 0 where
  pub ore : List Access
  pub ore_sol : List Access
  pub ore_isc : List Access
  pub batches : List (List Access)

unfoldable pub write_stake_rewards :
    List (List Access) → List UpdateStakeAccountRewards → List StakeRow → Option (List StakeRow)
unfolding write_batches update_stake_accounts_rewards
write_stake_rewards attempts [] rows = some rows
write_stake_rewards attempts (u ∷ us) rows =
    write_batches update_stake_accounts_rewards attempts (chunks 400 (u ∷ us)) rows

-- The accounts of the table.
abbrev pub accounts_of : List StakeRow → List StakeAccount
accounts_of = map (λ (row : StakeRow). row.account)

-- What the loop over the pages of a mint has read; no value means that it is still reading.
unfoldable pub staked_for : List Access → ℕ → Pubkey → List StakeRow → Option (List StakeAccount)
unfolding read_accounts
staked_for accesses pool_id mint rows = read_accounts accesses pool_id mint (accounts_of rows) 0 []

unfoldable pub process_stakers_rewards :
    StakerAttempts → ℕ → ℕ → ℕ → List StakeRow → Option (List StakeRow)
unfolding exceeds staked_for staker_updates write_stake_rewards
process_stakers_rewards attempts pool_id total_rewards staker_rewards rows =
    if exceeds total_rewards staker_rewards
    then some rows
    else elim (staked_for attempts.ore pool_id ore_mint rows) [
      | none ↦ none
      | some ore ↦ elim (staked_for attempts.ore_sol pool_id ore_sol_mint rows) [
        | none ↦ none
        | some ore_sol ↦ elim (staked_for attempts.ore_isc pool_id ore_isc_mint rows) [
          | none ↦ none
          | some ore_isc ↦
              write_stake_rewards attempts.batches
                (staker_updates total_rewards staker_rewards ore ore_sol ore_isc) rows
        ]
      ]
    ]

-- The end of `pool_mine_success_system`'s handler, after what it writes for the miners: with global boosts
-- the stakers get nothing here.
unfoldable pub pay_stakers :
    StakerAttempts → ℕ → MessageInternalMineSuccess → List StakeRow → Option (List StakeRow)
unfolding process_stakers_rewards staker_rewards_of
pay_stakers attempts pool_id msg rows =
    if msg.global_boosts_active
    then some rows
    else process_stakers_rewards attempts pool_id msg.rewards (staker_rewards_of msg) rows

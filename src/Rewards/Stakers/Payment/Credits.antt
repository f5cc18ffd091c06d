-- ===== src/Rewards/Stakers/Payment/Credits.antt =====
-- What `process_stakers_rewards` (src/systems/pool_mine_success_system.rs) leaves in the table.
use coal_pool_server.Prelude.{
  ℕ, ◌+◌, ◌*◌, ◌≤◌, ◌<◌, ◌≡◌, refl, sym, ap, ◌∙◌, false, some, List, [], ◌∷◌, map, arith, u64_mod,
  nat_eq, length, All,
}
use coal_pool_server.Prelude.HashMap.{get, HasDistinctKeys}
use coal_pool_server.State.{Pubkey}
use coal_pool_server.Models.{StakeAccount, UpdateStakeAccountRewards}
use coal_pool_server.Database.{Access, chunks}
use coal_pool_server.Database.Attempts.{ReachesAll}
use coal_pool_server.Database.Bulk.{Fits, updated, write_chunks-eq}
use coal_pool_server.Database.Stakes.{
  StakeRow, row_key, rewarded, reward_row, reward_entry, update_stake_accounts_rewards,
}
use coal_pool_server.Rewards.{MessageInternalMineSuccess, staker_rewards_of}
use coal_pool_server.Rewards.Stakers.{exceeds, staker_updates}
use coal_pool_server.Rewards.Stakers.Pages.{of_mint, account_id, read_accounts-eq}
use coal_pool_server.Database.Pages.{Ascends, grants}
use coal_pool_server.Rewards.Stakers.Bounds.{staked_sum, reward_sum, staker_updates-le}
use coal_pool_server.Rewards.Stakers.Distinct.{addresses, three_shares-HasDistinctKeys}
use coal_pool_server.Rewards.Stakers.Payment.{
  ore_mint, ore_sol_mint, ore_isc_mint, StakerAttempts, write_stake_rewards, accounts_of,
  staked_for, process_stakers_rewards,
}

-- The row can take an amount.
abbrev pub HasRoomFor : ℕ → StakeRow → Type 0
HasRoomFor amount row =
    (row.account.rewards_balance + amount < u64_mod) × (row.total_rewards_earned + amount < u64_mod)

get-le-reward_sum :
    (k x : ℕ) (us : List UpdateStakeAccountRewards)
    → get k (map reward_entry us) ≡ some x
    → x ≤ reward_sum us
get-le-reward_sum k x [] h = absurd (cc h)
get-le-reward_sum k x (u ∷ us) h = ground (arith, get-le-reward_sum k x us)

HasRoomFor-Fits :
    (amount : ℕ) (us : List UpdateStakeAccountRewards) (rows : List StakeRow)
    → reward_sum us ≤ amount
    → All (HasRoomFor amount) rows
    → All (Fits row_key reward_row rewarded (map reward_entry us)) rows
unfolding reward_row
HasRoomFor-Fits amount us [] le room = tt
HasRoomFor-Fits amount us (row ∷ rows) le ((a, b), room) = (
  λ x found.
      let small : x ≤ reward_sum us = get-le-reward_sum (row_key row) x us found in
      ground (arith, small, le, a, b),
  HasRoomFor-Fits amount us rows le room,
)

updated_nil : (rows : List StakeRow) → map (updated row_key reward_row rewarded []) rows ≡ rows
updated_nil [] = refl
updated_nil (row ∷ rows) = ap (◌∷◌ row) (updated_nil rows)

write_stake_rewards-eq :
    (attempts : List (List Access)) (us : List UpdateStakeAccountRewards) (rows : List StakeRow)
    → ReachesAll attempts (chunks 400 us)
    → HasDistinctKeys (map reward_entry us)
    → All (Fits row_key reward_row rewarded (map reward_entry us)) rows
    → write_stake_rewards attempts us rows
      ≡ some (map (updated row_key reward_row rewarded (map reward_entry us)) rows)
unfolding write_stake_rewards update_stake_accounts_rewards
write_stake_rewards-eq attempts [] rows reaches distinct fits = ap some (sym (updated_nil rows))
write_stake_rewards-eq attempts (u ∷ us) rows reaches distinct fits =
    write_chunks-eq row_key reward_row rewarded (λ x row. refl) reward_entry 399 attempts (u ∷ us)
      rows reaches distinct fits

-- The updates for the accounts of the table.
abbrev pub updates_for :
    MessageInternalMineSuccess → ℕ → List StakeRow → List UpdateStakeAccountRewards
updates_for msg pool_id rows =
    staker_updates msg.rewards (staker_rewards_of msg)
      (of_mint pool_id ore_mint 1 (accounts_of rows))
      (of_mint pool_id ore_sol_mint 1 (accounts_of rows))
      (of_mint pool_id ore_isc_mint 1 (accounts_of rows))

updates_for-HasDistinctKeys :
    (msg : MessageInternalMineSuccess) (pool_id : ℕ) (rows : List StakeRow)
    → HasDistinctKeys (addresses (accounts_of rows))
    → exceeds msg.rewards (staker_rewards_of msg) ≡ false
    → HasDistinctKeys (map reward_entry (updates_for msg pool_id rows))
unfolding staker_updates
updates_for-HasDistinctKeys msg pool_id rows distinct passes = rw passes (
    three_shares-HasDistinctKeys pool_id 1 (accounts_of rows) distinct ore_mint ore_sol_mint
      ore_isc_mint _ _ _ (λ e. omega (arith, e)) (λ e. omega (arith, e)) (λ e. omega (arith, e)))

-- The mint's stakes add up without a wrap, and the database grants enough looks at its pages.
abbrev pub IsReadable : List Access → ℕ → Pubkey → List StakeRow → Type 0
IsReadable accesses pool_id mint rows =
    (staked_sum (of_mint pool_id mint 1 (accounts_of rows)) < u64_mod)
    × (length (of_mint pool_id mint 1 (accounts_of rows)) < 500 * grants accesses)

process_reads :
    (attempts : StakerAttempts) (pool_id total staker : ℕ) (rows : List StakeRow)
    (a b c : List StakeAccount)
    → exceeds total staker ≡ false
    → staked_for attempts.ore pool_id ore_mint rows ≡ some a
    → staked_for attempts.ore_sol pool_id ore_sol_mint rows ≡ some b
    → staked_for attempts.ore_isc pool_id ore_isc_mint rows ≡ some c
    → process_stakers_rewards attempts pool_id total staker rows
      ≡ write_stake_rewards attempts.batches (staker_updates total staker a b c) rows
unfolding process_stakers_rewards
process_reads attempts pool_id total staker rows a b c passes read1 read2 read3 =
    ground (arith, passes, read1, read2, read3)

-- Without global boosts, if the ids of the table rise and no address stands twice in it, the stakes of
-- each mint add up without a wrap, the loops over the pages and each batch of 400 get through to the
-- database at last, and every row has room for the stakers' part, then the processing ends, each row
-- has been credited once, in its balance and in its total, with what the updates hold for its address,
-- and the updates are together at most the stakers' part of the reward.
pub process_stakers_rewards-eq :
    (attempts : StakerAttempts) (pool_id : ℕ) (msg : MessageInternalMineSuccess)
    (rows : List StakeRow)
    → msg.rewards < u64_mod
    → msg.global_boosts_active ≡ false
    → Ascends account_id 0 (accounts_of rows)
    → HasDistinctKeys (addresses (accounts_of rows))
    → IsReadable attempts.ore pool_id ore_mint rows
    → IsReadable attempts.ore_sol pool_id ore_sol_mint rows
    → IsReadable attempts.ore_isc pool_id ore_isc_mint rows
    → ReachesAll attempts.batches (chunks 400 (updates_for msg pool_id rows))
    → All (HasRoomFor (staker_rewards_of msg)) rows
    → (process_stakers_rewards attempts pool_id msg.rewards (staker_rewards_of msg) rows
        ≡ some (
            map
              (updated row_key reward_row rewarded
                (map reward_entry (updates_for msg pool_id rows)))
              rows))
      × (reward_sum (updates_for msg pool_id rows) ≤ staker_rewards_of msg)
unfolding staked_for
process_stakers_rewards-eq attempts pool_id msg rows fits off rises distinct r1 r2 r3 reaches room =
    let accounts = accounts_of rows in
    let us = updates_for msg pool_id rows in
    let (passes, within) =
      staker_updates-le msg (of_mint pool_id ore_mint 1 accounts)
        (of_mint pool_id ore_sol_mint 1 accounts) (of_mint pool_id ore_isc_mint 1 accounts) fits off
        r1.0 r2.0 r3.0 in
    let read1 = read_accounts-eq attempts.ore pool_id ore_mint accounts rises r1.1 in
    let read2 = read_accounts-eq attempts.ore_sol pool_id ore_sol_mint accounts rises r2.1 in
    let read3 = read_accounts-eq attempts.ore_isc pool_id ore_isc_mint accounts rises r3.1 in
    let written =
      write_stake_rewards-eq attempts.batches us rows reaches
        (updates_for-HasDistinctKeys msg pool_id rows distinct passes)
        (HasRoomFor-Fits (staker_rewards_of msg) us rows within room) in
    (
      process_reads attempts pool_id msg.rewards (staker_rewards_of msg) rows
            (of_mint pool_id ore_mint 1 accounts) (of_mint pool_id ore_sol_mint 1 accounts)
            (of_mint pool_id ore_isc_mint 1 accounts) passes read1 read2 read3
          ∙ written,
      within,
    )

-- ===== src/Rewards/Tests.antt =====
-- A reward of 1000 divided among three submissions of two hashpowers.
use coal_pool_server.Prelude.Int.{pos}
use coal_pool_server.Prelude.{
  nat_eq, inl, none, true, List, ℕ, ◌+◌, ◌≤◌, ◌<◌, ◌≡◌, refl, false, some, [], ◌∷◌, arith, map,
}
use coal_pool_server.State.{InternalMessageSubmission}
use coal_pool_server.Rewards.{
  MessageInternalMineSuccess, Shares, divide, commissions_of, total_hashpower_of, staker_rewards_of,
}
use coal_pool_server.Rewards.Conservation.{balance_sum, divide_conserves}
use coal_pool_server.Models.{StakeAccount}
use coal_pool_server.Models.{Pool}
use coal_pool_server.Database.{granted, broken}
use coal_pool_server.Database.Challenges.{ChallengeRow, find_challenge}
use coal_pool_server.Rewards.{
  shares_of, miners_rewards_of, earned_rewards, add_share, insert_submission_of,
}
use coal_pool_server.Rewards.Payout.{Books, Attempts, paid, handle_mine_success}
use coal_pool_server.Rewards.Payout.Written.{HasWritten, handle_mine_success-HasWritten}
use coal_pool_server.State.{Pubkey}
use coal_pool_server.Database.Bulk.{updated}
use coal_pool_server.Database.Stakes.{StakeRow, row_key, reward_row, rewarded, reward_entry}
use coal_pool_server.Rewards.Stakers.Payment.{
  ore_mint, StakerAttempts, process_stakers_rewards, pay_stakers,
}
use coal_pool_server.Rewards.Stakers.Payment.Credits.{updates_for, process_stakers_rewards-eq}
use coal_pool_server.Rewards.Stakers.{
  exceeds, staker_updates, part_of, share_out, total_boosted, stake_reward,
}
use coal_pool_server.Rewards.Stakers.Pages.{of_mint}
use coal_pool_server.Rewards.Stakers.Bounds.{reward_sum}

abbrev submission : ℕ → ℕ → InternalMessageSubmission
submission miner_id hashpower = record {
  miner_id = miner_id;
  supplied_diff = 12;
  supplied_nonce = 0;
  hashpower = hashpower;
}

abbrev mined : MessageInternalMineSuccess
mined = record {
  rewards = 1000;
  commissions = 50;
  challenge_id = 1;
  challenge = 7;
  best_nonce = 5;
  total_hashpower = 320;
  submissions = (100, submission 11 80) ∷ (200, submission 22 160) ∷ (300, submission 33 80) ∷ [];
  global_boosts_active = false;
}

commissions : commissions_of 1000 ≡ 50
unfolding commissions_of
commissions = refl

hashpower : total_hashpower_of 0 mined.submissions ≡ 320
unfolding total_hashpower_of
hashpower = refl

divide_conserves_example :
    (shares : Shares) × (divide mined ≡ some shares)
    × (balance_sum shares.rewards + 50 + staker_rewards_of mined ≤ 1000)
    × (1000 < balance_sum shares.rewards + 50 + staker_rewards_of mined + 3)
divide_conserves_example =
    divide_conserves mined (omega arith) (omega (arith, commissions)) (omega (arith, hashpower))
      (omega arith) (omega arith)

abbrev stake : ℕ → ℕ → StakeAccount
stake pda staked_balance = record {
  id = pda;
  pool_id = 1;
  mint_pubkey = 5;
  staker_pubkey = 6;
  stake_pda = pda;
  rewards_balance = 0;
  staked_balance = staked_balance;
}

abbrev boosted : MessageInternalMineSuccess
boosted = record mined { global_boosts_active = true; best_nonce = 0 }

abbrev boosted_shares : Shares
boosted_shares = record {
  rewards =
      record { miner_id = 11; balance = 237 }
      ∷ record { miner_id = 22; balance = 475 }
      ∷ record { miner_id = 33; balance = 237 }
      ∷ [];
  submissions =
      record { miner_id = 11; challenge_id = 1; nonce = 0; difficulty = pos 12 }
      ∷ record { miner_id = 22; challenge_id = 1; nonce = 0; difficulty = pos 12 }
      ∷ record { miner_id = 33; challenge_id = 1; nonce = 0; difficulty = pos 12 }
      ∷ [];
  total_earned = 949;
}

abbrev pool : Pool
pool = record { id = 1; authority_pubkey = 900; total_rewards = 7; claimed_rewards = 0 }

abbrev mined_row : ChallengeRow
mined_row = record {
  id = 1;
  pool_id = 1;
  submission_id = none;
  challenge = 7;
  rewards_earned = none;
}

abbrev books : Books
books = record {
  submissions = record { rows = []; next_id = 1 };
  rewards =
      record { id = 1; balance = 5; miner_id = 22 }
      ∷ record { id = 2; balance = 6; miner_id = 44 }
      ∷ [];
  pools = (900, pool) ∷ [];
  challenges = record { rows = mined_row ∷ []; next_id = 2 };
}

abbrev attempts : Attempts
attempts = record {
  submissions = (broken ∷ granted ∷ []) ∷ [];
  rewards = (granted ∷ []) ∷ [];
  pool = broken ∷ granted ∷ [];
  look = granted;
  mark = granted;
}

handle_mine_success-HasWritten_example :
    (b' : Books) × (handle_mine_success attempts 900 boosted books ≡ paid b')
    × HasWritten 900 boosted boosted_shares pool books b'
unfolding divide shares_of miners_rewards_of earned_rewards add_share insert_submission_of
    staker_rewards_of find_challenge
handle_mine_success-HasWritten_example =
    handle_mine_success-HasWritten attempts 900 boosted books boosted_shares pool mined_row refl
      (refl, (refl, (refl, tt))) (tt, tt) (tt, tt) tt refl refl (omega arith, (omega arith, tt))
      refl (omega arith) refl (inl refl)

abbrev stakes : List StakeAccount
stakes = stake 1 30 ∷ stake 2 0 ∷ stake 3 7 ∷ []

stakes_found : of_mint 1 5 1 stakes ≡ stake 1 30 ∷ stake 3 7 ∷ []
unfolding of_mint
stakes_found = refl

abbrev stake_row_of : ℕ → Pubkey → ℕ → StakeRow
stake_row_of id mint staked_balance = record {
  account = record (stake id staked_balance) { mint_pubkey = mint };
  total_rewards_earned = 10;
}

abbrev stake_rows : List StakeRow
stake_rows = stake_row_of 1 ore_mint 30 ∷ stake_row_of 2 5 9 ∷ stake_row_of 3 ore_mint 10 ∷ []

abbrev looks : StakerAttempts
looks = record {
  ore = broken ∷ granted ∷ [];
  ore_sol = granted ∷ [];
  ore_isc = granted ∷ [];
  batches = (broken ∷ granted ∷ []) ∷ [];
}

process_stakers_rewards-eq_example :
    (process_stakers_rewards looks 1 1000 (staker_rewards_of mined) stake_rows
      ≡ some (
          map
            (updated row_key reward_row rewarded
              (map reward_entry (updates_for mined 1 stake_rows)))
            stake_rows))
    × (reward_sum (updates_for mined 1 stake_rows) ≤ staker_rewards_of mined)
unfolding of_mint staker_updates exceeds part_of share_out total_boosted stake_reward
    staker_rewards_of
process_stakers_rewards-eq_example =
    process_stakers_rewards-eq looks 1 mined stake_rows (omega arith) refl
      (omega arith, (omega arith, (omega arith, tt))) (refl, (refl, (refl, tt)))
      (omega arith, omega arith) (omega arith, omega arith) (omega arith, omega arith) (tt, tt)
      ((omega arith, omega arith), ((omega arith, omega arith), ((omega arith, omega arith), tt)))

pay_stakers-boosted : pay_stakers looks 1 boosted stake_rows ≡ some stake_rows
unfolding pay_stakers
pay_stakers-boosted = refl

-- ===== src/Message/Tests.antt =====
-- A message on concrete values.
use coal_pool_server.Prelude.{◌≡◌, some, arith}
use coal_pool_server.Message.{ServerMessagePoolSubmissionResult, submission_result_binary}
use coal_pool_server.Message.RoundTrip.{read_submission_result, read_submission_result-binary}

abbrev result : ServerMessagePoolSubmissionResult
result = record {
  difficulty = 23;
  total_balance = 4607182418800017408;
  total_rewards = 0;
  top_stake = 1;
  multiplier = 2;
  active_miners = 5;
  challenge = 99;
  best_nonce = 18446744073709551615;
  miner_supplied_difficulty = 17;
  miner_earned_rewards = 3;
  miner_percentage = 4;
}

read_submission_result-binary_example :
    read_submission_result (submission_result_binary result) ≡ some result
read_submission_result-binary_example = read_submission_result-binary result (record {
  difficulty_fits = omega arith;
  balance_fits = omega arith;
  rewards_fits = omega arith;
  stake_fits = omega arith;
  multiplier_fits = omega arith;
  miners_fits = omega arith;
  challenge_fits = omega arith;
  nonce_fits = omega arith;
  supplied_fits = omega arith;
  earned_fits = omega arith;
  percentage_fits = omega arith;
})

-- ===== src/Message.antt =====
-- src/message.rs: the two binary messages of the server. An `i64` is an integer, and an `f64` the
-- 64-bit pattern that `to_le_bytes` writes.
pub mod RoundTrip
mod Tests
use coal_pool_server.Prelude.{ℕ, ◌+◌, ◌-◌, ◌%◌, ◌^◌, List, [], ◌∷◌, ◌++◌, u64_mod}
use coal_pool_server.Prelude.Bytes.{le_bytes}
use coal_pool_server.Prelude.Int.{ℤ, pos, negsuc}
use coal_pool_server.State.{Challenge}

-- The bit pattern of an `i64`.
abbrev pub i64_bits : ℤ → ℕ
i64_bits (pos n) = n
i64_bits (negsuc n) = u64_mod - n - 1

pub record ServerMessageStartMining : Type 0 where
  pub challenge : Challenge
  pub cutoff : ℤ
  pub nonce_range_start : ℕ
  pub nonce_range_end : ℕ

pub start_mining_binary : ServerMessageStartMining → List ℕ
start_mining_binary m =
    0
    ∷ (le_bytes 32 m.challenge
        ++ (le_bytes 8 (i64_bits m.cutoff)
            ++ (le_bytes 8 m.nonce_range_start ++ (le_bytes 8 m.nonce_range_end ++ []))))

pub record ServerMessagePoolSubmissionResult : Type 0 where
  pub difficulty : ℕ
  pub total_balance : ℕ
  pub total_rewards : ℕ
  pub top_stake : ℕ
  pub multiplier : ℕ
  pub active_miners : ℕ
  pub challenge : Challenge
  pub best_nonce : ℕ
  pub miner_supplied_difficulty : ℕ
  pub miner_earned_rewards : ℕ
  pub miner_percentage : ℕ

pub submission_result_binary : ServerMessagePoolSubmissionResult → List ℕ
submission_result_binary m =
    1
    ∷ (le_bytes 4 m.difficulty
        ++ (le_bytes 8 m.total_balance
            ++ (le_bytes 8 m.total_rewards
                ++ (le_bytes 8 m.top_stake
                    ++ (le_bytes 8 m.multiplier
                        ++ (le_bytes 4 m.active_miners
                            ++ (le_bytes 32 m.challenge
                                ++ (le_bytes 8 m.best_nonce
                                    ++ (le_bytes 4 m.miner_supplied_difficulty
                                        ++ (le_bytes 8 m.miner_earned_rewards
                                            ++ (le_bytes 8 m.miner_percentage ++ [])))))))))))

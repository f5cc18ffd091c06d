-- ===== src/Message/RoundTrip.antt =====
-- The layout of the messages of src/message.rs, as a reader of them sees it.
use coal_pool_server.Prelude.{
  ℕ, ◌-◌, ◌^◌, ◌<◌, ◌≡◌, Option, none, some, List, [], ◌∷◌, arith, ltb, if◌then◌else◌, u64_mod,
  length, length-append, nat_beq,
}
use coal_pool_server.Prelude.Bytes.{read_le, read_le-le_bytes, length-le_bytes}
use coal_pool_server.Prelude.Int.{ℤ, pos, negsuc, ◌≤ℤ◌, i64_min, i64_max}
use coal_pool_server.Message.{
  ServerMessageStartMining, start_mining_binary, i64_bits, ServerMessagePoolSubmissionResult,
  submission_result_binary,
}

infixl 5 ◌>>=◌
abbrev ◌>>=◌ {ℓ κ} : {A : Type ℓ} {B : Type κ} → Option A → (A → Option B) → Option B
none >>= f = none
some a >>= f = f a

-- The integer of an `i64`'s bit pattern.
abbrev signed64 : ℕ → ℤ
signed64 x = if ltb x (2 ^ 63) then pos x else negsuc (u64_mod - x - 1)

-- A message is read whole: bytes left over are an error.
abbrev finish {ℓ} : {A : Type ℓ} → A → List ℕ → Option A
finish a [] = some a
finish a (b ∷ bs) = none

read_start_mining_body : List ℕ → Option ServerMessageStartMining
read_start_mining_body bs = do
  (challenge, bs) ← read_le 32 bs
  (cutoff, bs) ← read_le 8 bs
  (start, bs) ← read_le 8 bs
  (end, bs) ← read_le 8 bs
  finish
      (record {
        challenge = challenge;
        cutoff = signed64 cutoff;
        nonce_range_start = start;
        nonce_range_end = end;
      })
      bs

-- A client's reader of the first message.
pub read_start_mining : List ℕ → Option ServerMessageStartMining
unfolding read_start_mining_body
read_start_mining [] = none
read_start_mining (tag ∷ bs) = if nat_beq tag 0 then read_start_mining_body bs else none

-- The fields fit their types.
pub record FitsStartMining (m : ServerMessageStartMining) : Type 0 where
  pub challenge_fits : m.challenge < 256 ^ 32
  pub cutoff_min : i64_min ≤ℤ m.cutoff
  pub cutoff_max : m.cutoff ≤ℤ i64_max
  pub start_fits : m.nonce_range_start < 256 ^ 8
  pub end_fits : m.nonce_range_end < 256 ^ 8

signed64-i64_bits : (a : ℤ) → i64_min ≤ℤ a → a ≤ℤ i64_max → signed64 (i64_bits a) ≡ a
signed64-i64_bits (pos n) lo hi = ground arith
signed64-i64_bits (negsuc n) lo hi = ground arith

i64_bits_fit : (a : ℤ) → i64_min ≤ℤ a → a ≤ℤ i64_max → i64_bits a < 256 ^ 8
i64_bits_fit (pos n) lo hi = omega arith
i64_bits_fit (negsuc n) lo hi = omega arith

-- A reader of the layout gets back every start message whose fields fit their types, and no bytes
-- are left over.
pub read_start_mining-binary :
    (m : ServerMessageStartMining)
    → FitsStartMining m
    → read_start_mining (start_mining_binary m) ≡ some m
unfolding read_start_mining start_mining_binary
read_start_mining-binary m f = simp (
  read_le-le_bytes,
  f.challenge_fits,
  f.start_fits,
  f.end_fits,
  i64_bits_fit m.cutoff f.cutoff_min f.cutoff_max,
  signed64-i64_bits m.cutoff f.cutoff_min f.cutoff_max,
)

read_result_body : List ℕ → Option ServerMessagePoolSubmissionResult
read_result_body bs = do
  (difficulty, bs) ← read_le 4 bs
  (total_balance, bs) ← read_le 8 bs
  (total_rewards, bs) ← read_le 8 bs
  (top_stake, bs) ← read_le 8 bs
  (multiplier, bs) ← read_le 8 bs
  (active_miners, bs) ← read_le 4 bs
  (challenge, bs) ← read_le 32 bs
  (best_nonce, bs) ← read_le 8 bs
  (supplied, bs) ← read_le 4 bs
  (earned, bs) ← read_le 8 bs
  (percentage, bs) ← read_le 8 bs
  finish
      (record {
        difficulty = difficulty;
        total_balance = total_balance;
        total_rewards = total_rewards;
        top_stake = top_stake;
        multiplier = multiplier;
        active_miners = active_miners;
        challenge = challenge;
        best_nonce = best_nonce;
        miner_supplied_difficulty = supplied;
        miner_earned_rewards = earned;
        miner_percentage = percentage;
      })
      bs

-- A client's reader of the second message.
pub read_submission_result : List ℕ → Option ServerMessagePoolSubmissionResult
unfolding read_result_body
read_submission_result [] = none
read_submission_result (tag ∷ bs) = if nat_beq tag 1 then read_result_body bs else none

pub record FitsResult (m : ServerMessagePoolSubmissionResult) : Type 0 where
  pub difficulty_fits : m.difficulty < 256 ^ 4
  pub balance_fits : m.total_balance < 256 ^ 8
  pub rewards_fits : m.total_rewards < 256 ^ 8
  pub stake_fits : m.top_stake < 256 ^ 8
  pub multiplier_fits : m.multiplier < 256 ^ 8
  pub miners_fits : m.active_miners < 256 ^ 4
  pub challenge_fits : m.challenge < 256 ^ 32
  pub nonce_fits : m.best_nonce < 256 ^ 8
  pub supplied_fits : m.miner_supplied_difficulty < 256 ^ 4
  pub earned_fits : m.miner_earned_rewards < 256 ^ 8
  pub percentage_fits : m.miner_percentage < 256 ^ 8

-- A reader of the layout gets back every result message whose fields fit their types, and no bytes
-- are left over.
pub read_submission_result-binary :
    (m : ServerMessagePoolSubmissionResult)
    → FitsResult m
    → read_submission_result (submission_result_binary m) ≡ some m
unfolding read_submission_result submission_result_binary
read_submission_result-binary m f = simp (
  read_le-le_bytes, f.difficulty_fits, f.balance_fits, f.rewards_fits, f.stake_fits,
  f.multiplier_fits, f.miners_fits, f.challenge_fits, f.nonce_fits, f.supplied_fits, f.earned_fits,
  f.percentage_fits,
)

-- A start message has 57 bytes and a result message 101, whatever they carry.
pub binary_lengths :
    (m : ServerMessageStartMining) (r : ServerMessagePoolSubmissionResult)
    → (length (start_mining_binary m) ≡ 57) × (length (submission_result_binary r) ≡ 101)
unfolding start_mining_binary submission_result_binary
binary_lengths m r = (
  simp (length-append {0}, length-le_bytes) (omega arith),
  simp (length-append {0}, length-le_bytes) (omega arith),
)

-- ===== src/Rewards/Conservation.antt =====
-- The division gives out what there is, to within less than one unit for each miner.
use native.Mathlib.Nat.{
  div-le_of_le-mul, mul-div-le, lt-mul-div-succ, le_of_mul-le-mul_left, lt_of_mul-lt-mul_left,
}
use coal_pool_server.Prelude.{
  ℕ, ◌+◌, ◌*◌, ◌/◌, ◌≤◌, ◌<◌, ◌≡◌, refl, Option, some, List, [], ◌∷◌, arith, ap, sym, length,
  sum_of, u64_mod, add64,
}
use coal_pool_server.Prelude.HashMap.{HashMap}
use coal_pool_server.State.{Pubkey, InternalMessageSubmission}
use coal_pool_server.Models.{UpdateReward}
use coal_pool_server.Rewards.{
  MessageInternalMineSuccess, Shares, earned_rewards, shares_of, divide, add_share,
  miners_rewards_of, staker_rewards_of, commissions_of, total_hashpower_of,
}

abbrev pub hashpower_sum : HashMap Pubkey InternalMessageSubmission → ℕ
hashpower_sum = sum_of (λ (e : Pubkey × InternalMessageSubmission). e.1.hashpower)

abbrev pub balance_sum : List UpdateReward → ℕ
balance_sum = sum_of (λ (r : UpdateReward). r.balance)

share_le : (t h k : ℕ) → h ≤ k → t * h / k ≤ t
share_le t h k le = div-le_of_le-mul k (grind arith)

-- A share, as the exact quotient: it does not pass the whole, so the cast loses nothing.
earned_rewards-eq :
    (t h k : ℕ) → t < u64_mod → 0 < k → h ≤ k → earned_rewards t h k ≡ some (t * h / k)
unfolding earned_rewards
earned_rewards-eq t h k fits pos le = ground (arith, share_le t h k le)

share_bounds : (t h k : ℕ) → 0 < k → (k * (t * h / k) ≤ t * h) × (t * h + 1 ≤ k * (t * h / k) + k)
share_bounds t h k pos = (mul-div-le (t * h) k, omega (arith, lt-mul-div-succ (t * h) {b = k} pos))

-- What the shares of a part of the submissions add up to.
record Divided (t k : ℕ) (m : HashMap Pubkey InternalMessageSubmission) (r : Option Shares)
    : Type 0 where
  shares : Shares
  computed : r ≡ some shares
  upper : k * balance_sum shares.rewards ≤ t * hashpower_sum m
  lower : t * hashpower_sum m + length m ≤ k * (balance_sum shares.rewards + length m)

shares_of-Divided :
    (t k id : ℕ) (m : HashMap Pubkey InternalMessageSubmission)
    → t < u64_mod
    → 0 < k
    → hashpower_sum m ≤ k
    → Divided t k m (shares_of t k id m)
unfolding shares_of add_share
shares_of-Divided t k id [] fits pos le = record {
  shares = record { rewards = []; submissions = []; total_earned = 0 };
  computed = refl;
  upper = omega arith;
  lower = omega arith;
}
shares_of-Divided t k id ((pubkey, s) ∷ m) fits pos le =
    let d = shares_of-Divided t k id m fits pos (omega arith) in
    let q = t * s.hashpower / k in
    let b = share_bounds t s.hashpower k pos in
    record {
      shares = add_share id s q d.shares;
      computed =
          rw (earned_rewards-eq t s.hashpower k fits pos (omega arith), shares_of, d.computed);
      upper = omega (arith, d.upper, b);
      lower = omega (arith, d.lower, b);
    }

-- With the hashpowers adding up to the total, the shares leave less than one unit for each miner.
divided_whole :
    (t k sum n : ℕ)
    → 0 < k
    → 0 < n
    → k * sum ≤ t * k
    → t * k + n ≤ k * (sum + n)
    → (sum ≤ t) × (t < sum + n)
divided_whole t k sum n pos many upper lower =
    (le_of_mul-le-mul_left (omega arith) pos, lt_of_mul-lt-mul_left k (omega arith))

length_pos : (m : HashMap Pubkey InternalMessageSubmission) → 0 < hashpower_sum m → 0 < length m
length_pos [] h = h
length_pos (x ∷ m) h = omega arith

total_hashpower_of-eq :
    (acc : ℕ) (m : HashMap Pubkey InternalMessageSubmission)
    → acc + hashpower_sum m < u64_mod
    → total_hashpower_of acc m ≡ acc + hashpower_sum m
unfolding total_hashpower_of
total_hashpower_of-eq acc [] h = omega arith
total_hashpower_of-eq acc ((pubkey, s) ∷ m) h =
    rw (total_hashpower_of-eq (add64 acc s.hashpower) m (omega arith)) (omega arith)

-- The commission is at most a twentieth, and with the stakers' part leaves the miners the rest.
staker_rewards_of-bound :
    (msg : MessageInternalMineSuccess)
    → msg.rewards < u64_mod
    → 100 * staker_rewards_of msg ≤ 44 * msg.rewards
unfolding staker_rewards_of
staker_rewards_of-bound msg fits = ground arith

commissions_of-bound : (full : ℕ) → full < u64_mod → 20 * commissions_of full ≤ full
unfolding commissions_of
commissions_of-bound full fits = omega arith

miners_rewards_of-eq :
    (msg : MessageInternalMineSuccess)
    → msg.rewards < u64_mod
    → msg.commissions ≡ commissions_of msg.rewards
    → miners_rewards_of msg + msg.commissions + staker_rewards_of msg ≡ msg.rewards
unfolding miners_rewards_of
miners_rewards_of-eq msg fits c =
    omega (arith, staker_rewards_of-bound msg fits, commissions_of-bound msg.rewards fits)

-- If the message has the commission and the total hashpower that the submission system computes,
-- and the hashpowers add up to a positive number without a wrap, the division has a result, gives
-- out no more than the reward, with the commission and the stakers' part, and leaves less than one
-- unit for each submission.
pub divide_conserves :
    (msg : MessageInternalMineSuccess)
    → msg.rewards < u64_mod
    → msg.commissions ≡ commissions_of msg.rewards
    → msg.total_hashpower ≡ total_hashpower_of 0 msg.submissions
    → 0 < hashpower_sum msg.submissions
    → hashpower_sum msg.submissions < u64_mod
    → (shares : Shares) × (divide msg ≡ some shares)
      × (balance_sum shares.rewards + msg.commissions + staker_rewards_of msg ≤ msg.rewards)
      × (msg.rewards
          < balance_sum shares.rewards
            + msg.commissions
            + staker_rewards_of msg
            + length msg.submissions)
unfolding divide
divide_conserves msg fits c total pos sum_fits =
    let t : msg.total_hashpower ≡ hashpower_sum msg.submissions =
      omega (arith, total_hashpower_of-eq 0 msg.submissions) in
    let e = miners_rewards_of-eq msg fits c in
    let d =
      shares_of-Divided (miners_rewards_of msg) msg.total_hashpower msg.challenge_id msg.submissions
        (omega arith) (omega arith) (omega arith) in
    let whole : miners_rewards_of msg * hashpower_sum msg.submissions
        ≡ miners_rewards_of msg * msg.total_hashpower =
      ap (λ x. miners_rewards_of msg * x) (sym t) in
    let (most, rest) =
      divided_whole (miners_rewards_of msg) msg.total_hashpower (balance_sum d.shares.rewards)
        (length msg.submissions) (omega arith) (length_pos msg.submissions pos)
        (omega (arith, d.upper, whole)) (omega (arith, d.lower, whole)) in
    (d.shares, d.computed, omega arith, omega arith)

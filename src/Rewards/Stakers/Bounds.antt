-- ===== src/Rewards/Stakers/Bounds.antt =====
-- The stakers get no more than their part, and the check on the three parts never stops them.
use native.Mathlib.Nat.{mul-div-le, le_of_mul-le-mul_left, mul-le-mul_left}
use coal_pool_server.Prelude.{
  ℕ, ◌+◌, ◌*◌, ◌/◌, ◌≤◌, ◌<◌, ◌≡◌, ap, false, List, [], ◌∷◌, ◌++◌, map, arith, ltb, if_rule,
  u64_mod, sum_of, sum_of-append, add64, as_u64,
}
use coal_pool_server.Models.{StakeAccount, UpdateStakeAccountRewards}
use coal_pool_server.Rewards.{
  MessageInternalMineSuccess, staker_rewards_of, ore_stake_percentage, ore_sol_stake_percentage,
  ore_isc_stake_percentage,
}
use coal_pool_server.Rewards.Stakers.{
  part_of, exceeds, total_boosted, stake_reward, share_out, staker_updates,
}

abbrev pub staked_sum : List StakeAccount → ℕ
staked_sum = sum_of (λ (a : StakeAccount). a.staked_balance)

abbrev pub reward_sum : List UpdateStakeAccountRewards → ℕ
reward_sum = sum_of (λ (u : UpdateStakeAccountRewards). u.rewards_balance)

total_boosted-eq :
    (acc : ℕ) (accounts : List StakeAccount)
    → acc + staked_sum accounts < u64_mod
    → total_boosted acc accounts ≡ acc + staked_sum accounts
unfolding total_boosted
total_boosted-eq acc [] h = omega arith
total_boosted-eq acc (a ∷ rest) h =
    rw (total_boosted-eq (add64 acc a.staked_balance) rest (omega (arith, h))) (omega (arith, h))

cast_le : (k q : ℕ) → k * as_u64 q ≤ k * q
cast_le k q = mul-le-mul_left k (omega arith)

stake_reward-le :
    (t k : ℕ) (a : StakeAccount) → k * (stake_reward t k a).rewards_balance ≤ t * a.staked_balance
unfolding stake_reward
stake_reward-le t k a =
    let q = t * a.staked_balance / k in
    let exact : k * q ≤ t * a.staked_balance = mul-div-le (t * a.staked_balance) k in
    let cast : k * as_u64 q ≤ k * q = cast_le k q in omega (arith, exact, cast)

shares-le :
    (t k : ℕ) (accounts : List StakeAccount)
    → k * reward_sum (map (stake_reward t k) accounts) ≤ t * staked_sum accounts
shares-le t k [] = omega arith
shares-le t k (a ∷ rest) = omega (arith, stake_reward-le t k a, shares-le t k rest)

whole : (x t s k : ℕ) → k * x ≤ t * s → k ≡ s → k * x ≤ k * t
whole x t s k h e = omega (arith, h, ap (λ y. t * y) e)

-- What a mint's accounts get is at most its part.
share_out-le :
    (t : ℕ) (accounts : List StakeAccount)
    → staked_sum accounts < u64_mod
    → reward_sum (share_out t accounts) ≤ t
unfolding share_out
share_out-le t accounts fits =
    let e : total_boosted 0 accounts ≡ staked_sum accounts =
      omega (arith, total_boosted-eq 0 accounts) in
    if_rule (λ (us : List UpdateStakeAccountRewards). reward_sum us ≤ t)
      (ltb 0 (total_boosted 0 accounts))
      (λ staked.
        let positive : 0 < total_boosted 0 accounts = ground (arith, staked) in
        le_of_mul-le-mul_left
          (whole (reward_sum (map (stake_reward t (total_boosted 0 accounts)) accounts)) t
            (staked_sum accounts) (total_boosted 0 accounts)
            (shares-le t (total_boosted 0 accounts) accounts) e)
          positive)
      λ none. omega arith

-- The parts of the three mints, as the division that they come from leaves them.
parts-le :
    (msg : MessageInternalMineSuccess)
    → msg.rewards < u64_mod
    → msg.global_boosts_active ≡ false
    → part_of msg.rewards ore_stake_percentage
        + part_of msg.rewards ore_sol_stake_percentage
        + part_of msg.rewards ore_isc_stake_percentage
      ≤ staker_rewards_of msg
unfolding part_of staker_rewards_of
parts-le msg fits off = rw off (omega (arith, fits))

-- If the stakers have a part of the reward, since no global boosts are active, the check on the parts of
-- the three mints passes, and what all their accounts get is at most the stakers' part, provided that
-- the stakes of each mint add up without a wrap.
pub staker_updates-le :
    (msg : MessageInternalMineSuccess) (ore ore_sol ore_isc : List StakeAccount)
    → msg.rewards < u64_mod
    → msg.global_boosts_active ≡ false
    → staked_sum ore < u64_mod
    → staked_sum ore_sol < u64_mod
    → staked_sum ore_isc < u64_mod
    → (exceeds msg.rewards (staker_rewards_of msg) ≡ false)
      × (reward_sum (staker_updates msg.rewards (staker_rewards_of msg) ore ore_sol ore_isc)
          ≤ staker_rewards_of msg)
unfolding staker_updates exceeds
staker_updates-le msg ore ore_sol ore_isc fits off fits1 fits2 fits3 =
    let parts = parts-le msg fits off in
    let p1 = part_of msg.rewards ore_stake_percentage in
    let p2 = part_of msg.rewards ore_sol_stake_percentage in
    let p3 = part_of msg.rewards ore_isc_stake_percentage in
    let passes : exceeds msg.rewards (staker_rewards_of msg) ≡ false = ground (arith, parts) in
    let f = λ (u : UpdateStakeAccountRewards). u.rewards_balance in
    (
      passes,
      rw (exceeds, passes)
          (omega (
            arith,
            parts,
            sum_of-append f (share_out p1 ore) (share_out p2 ore_sol ++ share_out p3 ore_isc),
            sum_of-append f (share_out p2 ore_sol) (share_out p3 ore_isc),
            share_out-le p1 ore fits1,
            share_out-le p2 ore_sol fits2,
            share_out-le p3 ore_isc fits3,
          )),
    )

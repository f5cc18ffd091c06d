-- ===== src/Claims/Orderly.antt =====
-- The claims queue stays in order, whatever requests come.
use Prim.Native.String.{String}
use coal_pool_server.Prelude.{
  ℕ, ◌≤◌, ◌≡◌, refl, inl, inr, none, some, subst, sym, All, nat_eq, option_eq, pair_eq,
}
use coal_pool_server.Prelude.HashMap.{HasDistinctKeys, insert-HasDistinctKeys, All-insert}
use coal_pool_server.Claims.{
  claim_minimum, Solana, ClaimsQueueItem, ClaimsQueue, ClaimKey, Response, enqueue,
}
use coal_pool_server.Claims.Requests.{
  Surroundings, ClaimParams, ClaimParamsV2, post_claim, post_claim_v2,
}
use coal_pool_server.Claims.Stakers.{
  StakeSurroundings, ClaimStakeRewardsParamsV2, ClaimStakeRewardsParamsV3,
  post_claim_stake_rewards_v2, post_claim_stake_rewards_v3,
}
use coal_pool_server.Claims.Admission.{post_claim_cases, post_claim_v2_admits}
use coal_pool_server.Claims.StakerAdmission.{
  post_claim_stake_rewards_v2_admits, post_claim_stake_rewards_v3_cases,
}

-- Every queued claim is of the mint that its key names, and at least the minimum.
abbrev pub IsPending : ClaimKey × ClaimsQueueItem → Type 0
IsPending (key, item) = (key.1 ≡ item.mint) × (claim_minimum ≤ item.amount)

pub record IsOrderly (cq : ClaimsQueue) : Type 0 where
  pub distinct : HasDistinctKeys cq.queue
  pub pending : All IsPending cq.queue

enqueue-IsOrderly :
    (cq : ClaimsQueue) (key : ClaimKey) (item : ClaimsQueueItem) (now : ℕ)
    → key.1 ≡ item.mint
    → claim_minimum ≤ item.amount
    → IsOrderly cq
    → IsOrderly (enqueue cq key item now)
enqueue-IsOrderly cq key item now e enough v = record {
  distinct = insert-HasDistinctKeys key item cq.queue v.distinct;
  pending = All-insert IsPending key item cq.queue (e, enough) v.pending;
}

-- A request to one of the four claim routes.
pub data ClaimRequest : Type 0 where
  claim : Surroundings → ClaimParams → ClaimRequest
  claim_v2 : Surroundings → String → String → ClaimParamsV2 → ClaimRequest
  claim_stake_v2 : StakeSurroundings → String → String → ClaimStakeRewardsParamsV2 → ClaimRequest
  claim_stake_v3 : StakeSurroundings → ClaimStakeRewardsParamsV3 → ClaimRequest

module _ (solana : Solana) where
  unfoldable pub serve_claim : ClaimsQueue → ClaimRequest → ClaimsQueue × Response
  unfolding post_claim post_claim_v2 post_claim_stake_rewards_v2 post_claim_stake_rewards_v3
  serve_claim cq (claim env params) = post_claim solana env cq params
  serve_claim cq (claim_v2 env username password params) =
      post_claim_v2 solana env cq username password params
  serve_claim cq (claim_stake_v2 env username password params) =
      post_claim_stake_rewards_v2 solana env cq username password params
  serve_claim cq (claim_stake_v3 env params) = post_claim_stake_rewards_v3 solana env cq params

  -- If the queue is orderly, it is after a request to any of the four routes: no key is queued
  -- twice for one mint, and each claim is of the mint that its key names and at least the minimum.
  pub serve_claim-IsOrderly :
      (cq : ClaimsQueue) (request : ClaimRequest)
      → IsOrderly cq
      → IsOrderly (serve_claim cq request).0
  unfolding serve_claim
  serve_claim-IsOrderly cq (claim env params) v = elim (post_claim_cases solana env cq params) [
    | inl refused ↦ subst IsOrderly (sym refused.0) v
    | inr (miner, e, queued) ↦
        subst IsOrderly (sym queued.0) (enqueue-IsOrderly cq (miner, none) _ _ refl queued.4 v)
  ]
  serve_claim-IsOrderly cq (claim_v2 env username password params) v =
      elim (post_claim_v2_admits solana env cq username password params) [
        | inl refused ↦ subst IsOrderly (sym refused.0) v
        | inr (miner, receiver, signature, em, er, es, signed, queued) ↦
            subst IsOrderly (sym queued.0) (enqueue-IsOrderly cq (miner, none) _ _ refl queued.4 v)
      ]
  serve_claim-IsOrderly cq (claim_stake_v2 env username password params) v =
      elim (post_claim_stake_rewards_v2_admits solana env cq username password params) [
        | inl refused ↦ subst IsOrderly (sym refused.0) v
        | inr (staker, receiver, mint, signature, em, er, et, boost, es, signed, queued) ↦
            subst IsOrderly (sym queued.0)
              (enqueue-IsOrderly cq (staker, some mint) _ _ refl queued.4 v)
      ]
  serve_claim-IsOrderly cq (claim_stake_v3 env params) v =
      elim (post_claim_stake_rewards_v3_cases solana env cq params) [
        | inl refused ↦ subst IsOrderly (sym refused.0) v
        | inr (staker, mint, em, et, queued) ↦
            subst IsOrderly (sym queued.0)
              (enqueue-IsOrderly cq (staker, some mint) _ _ refl queued.4 v)
      ]

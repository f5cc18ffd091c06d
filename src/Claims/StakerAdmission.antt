-- ===== src/Claims/StakerAdmission.antt =====
-- Which claims of stakers come into the queue: the requests of Claims/Stakers.antt.
use Prim.Native.String.{String}
use coal_pool_server.Prelude.{
  ℕ, ◌≤◌, ◌<◌, ◌++◌, u64_mod, ◌≡◌, refl, ◌⊎◌, inl, inr, true, some, arith, nat_eq, option_eq,
  pair_eq, Option-cases, Bool-cases,
}
use coal_pool_server.Prelude.Bytes.{le_bytes}
use coal_pool_server.State.{Pubkey}
use coal_pool_server.Claims.{Solana, ClaimsQueue, Response, is_stale}
use coal_pool_server.Claims.Stakers.{
  StakeSurroundings, Texts, texts_v2, texts_v3, stake_claim_for, stake_claim_signed, staker_item,
  ClaimStakeRewardsParamsV2, ClaimStakeRewardsParamsV3, post_claim_stake_rewards_v2,
  post_claim_stake_rewards_v3, is_boost_mint, stake_claim_message,
}
use coal_pool_server.Claims.Admission.{
  Refuses, Queues, staker_balance, Signed, IsRecent, is_stale-IsRecent,
}

abbrev pub QueuesStaker :
    StakeSurroundings → ClaimsQueue → ℕ → ℕ → ℕ → ℕ → ClaimsQueue × Response → Type 0
QueuesStaker env cq staker mint receiver amount =
    Queues cq (staker, some mint) (staker_item receiver amount mint) env.now
      (staker_balance (env.get_staker_rewards staker mint))

stake_claim_for_cases :
    (texts : Texts) (env : StakeSurroundings) (cq : ClaimsQueue) (staker mint receiver amount : ℕ)
    → Refuses cq (stake_claim_for texts env cq staker mint receiver amount)
      ⊎ QueuesStaker env cq staker mint receiver amount
          (stake_claim_for texts env cq staker mint receiver amount)
unfolding stake_claim_for
stake_claim_for_cases texts env cq staker mint receiver amount = ground arith

module _ (solana : Solana) where
  open solana use {pubkey_from_str, signature_from_str, verify, Signature}

  stake_claim_signed_cases :
      (env : StakeSurroundings) (cq : ClaimsQueue) (username password : String)
      (mint receiver : Pubkey) (params : ClaimStakeRewardsParamsV2)
      → let r = stake_claim_signed solana env cq username password mint receiver params in
        Refuses cq r
        ⊎ ((staker : Pubkey) × (signature : Signature) × (pubkey_from_str username ≡ some staker)
            × (signature_from_str password ≡ some signature)
            × (verify signature staker
                  (stake_claim_message params.timestamp mint receiver params.amount)
                ≡ true)
            × QueuesStaker env cq staker mint receiver params.amount r)
  unfolding stake_claim_signed
  stake_claim_signed_cases env cq username password mint receiver params =
      elim (Option-cases (pubkey_from_str username)) [
        | inl e ↦ inl (rw (e, stake_claim_signed) (refl, λ h. cc))
        | inr (staker, em) ↦ elim (Option-cases (signature_from_str password)) [
          | inl e ↦ inl (rw (em, stake_claim_signed, e) (refl, λ h. cc))
          | inr (signature, es) ↦
              elim (Bool-cases (
                verify signature staker
                  (stake_claim_message params.timestamp mint receiver params.amount))) [
                    | inr bad ↦ inl (rw (em, stake_claim_signed, es, bad) (refl, λ h. cc))
                    | inl good ↦
                        elim (stake_claim_for_cases texts_v2 env cq staker mint receiver
                          params.amount) [
                            | inl refused ↦ inl (rw (em, stake_claim_signed, es, good) refused)
                            | inr queued ↦ inr (
                              staker,
                              signature,
                              em,
                              es,
                              good,
                              rw (em, stake_claim_signed, es, good) queued,
                            )
                          ]
                  ]
        ]
      ]

  -- What a request to `post_claim_stake_rewards_v2` has passed, by the server's own tests.
  pub post_claim_stake_rewards_v2_admits :
      (env : StakeSurroundings) (cq : ClaimsQueue) (username password : String)
      (params : ClaimStakeRewardsParamsV2)
      → let r = post_claim_stake_rewards_v2 solana env cq username password params in
        Refuses cq r
        ⊎ ((staker : Pubkey) × (receiver : Pubkey) × (mint : Pubkey) × (signature : Signature)
            × (pubkey_from_str username ≡ some staker)
            × (pubkey_from_str params.receiver_pubkey ≡ some receiver)
            × (pubkey_from_str params.mint ≡ some mint)
            × (is_boost_mint solana mint ≡ true)
            × (signature_from_str password ≡ some signature)
            × Signed solana env.now params.timestamp
                (stake_claim_message params.timestamp mint receiver params.amount)
                staker
                signature
            × QueuesStaker env cq staker mint receiver params.amount r)
  unfolding post_claim_stake_rewards_v2
  post_claim_stake_rewards_v2_admits env cq username password params =
      elim (Bool-cases (is_stale env.now params.timestamp)) [
        | inl stale ↦ inl (rw stale (refl, λ h. cc))
        | inr fresh ↦ elim (Option-cases (pubkey_from_str params.receiver_pubkey)) [
          | inl e ↦ inl (rw (fresh, e) (refl, λ h. cc))
          | inr (receiver, er) ↦ elim (Option-cases (pubkey_from_str params.mint)) [
            | inl e ↦ inl (rw (fresh, er, e) (refl, λ h. cc))
            | inr (mint, et) ↦ elim (Bool-cases (is_boost_mint solana mint)) [
              | inr other ↦ inl (rw (fresh, er, et, other) (refl, λ h. cc))
              | inl boost ↦
                  elim (stake_claim_signed_cases env cq username password mint receiver params) [
                    | inl refused ↦ inl (rw (fresh, er, et, boost) refused)
                    | inr (staker, signature, em, es, good, queued) ↦ inr (
                      staker,
                      receiver,
                      mint,
                      signature,
                      em,
                      er,
                      et,
                      boost,
                      es,
                      (fresh, good),
                      rw (fresh, er, et, boost) queued,
                    )
                  ]
            ]
          ]
        ]
      ]

  -- With times of 64 bits, and the clock at 30 seconds or later, a request to
  -- `post_claim_stake_rewards_v2` leaves the queue as it was and is not answered with success, or its
  -- claim is queued under its mint, which is a boost mint: then the staker's key has signed the bytes of
  -- the time stamp, the mint, the receiver and the amount, the time stamp is not in the future and less
  -- than 30 seconds old, and the claim passes the checks on the queue, the cooldown, the minimum and the
  -- balance.
  pub post_claim_stake_rewards_v2_cases :
      (env : StakeSurroundings) (cq : ClaimsQueue) (username password : String)
      (params : ClaimStakeRewardsParamsV2)
      → 30 ≤ env.now
      → env.now < u64_mod
      → params.timestamp < u64_mod
      → let r = post_claim_stake_rewards_v2 solana env cq username password params in
        Refuses cq r
        ⊎ ((staker : Pubkey) × (receiver : Pubkey) × (mint : Pubkey) × (signature : Signature)
            × (pubkey_from_str username ≡ some staker)
            × (pubkey_from_str params.receiver_pubkey ≡ some receiver)
            × (pubkey_from_str params.mint ≡ some mint)
            × (is_boost_mint solana mint ≡ true)
            × (signature_from_str password ≡ some signature)
            × (verify signature staker (
                  le_bytes 8 params.timestamp
                  ++ (le_bytes 32 mint ++ (le_bytes 32 receiver ++ le_bytes 8 params.amount)))
                ≡ true)
            × IsRecent env.now params.timestamp
            × QueuesStaker env cq staker mint receiver params.amount r)
  unfolding stake_claim_message
  post_claim_stake_rewards_v2_cases env cq username password params late fits fits' =
      elim (post_claim_stake_rewards_v2_admits env cq username password params) [
        | inl refused ↦ inl refused
        | inr (staker, receiver, mint, signature, em, er, et, boost, es, signed, queued) ↦ inr (
          staker,
          receiver,
          mint,
          signature,
          em,
          er,
          et,
          boost,
          es,
          signed.1,
          is_stale-IsRecent env.now params.timestamp late fits fits' signed.0,
          queued,
        )
      ]

  -- A request to `post_claim_stake_rewards_v3` leaves the queue as it was and is not answered with
  -- success, or its claim is queued under its mint and goes to the staker's own key: then it
  -- passes the checks on the queue, the cooldown, the minimum and the balance.
  pub post_claim_stake_rewards_v3_cases :
      (env : StakeSurroundings) (cq : ClaimsQueue) (params : ClaimStakeRewardsParamsV3)
      → let r = post_claim_stake_rewards_v3 solana env cq params in
        Refuses cq r
        ⊎ ((staker : Pubkey) × (mint : Pubkey) × (pubkey_from_str params.pubkey ≡ some staker)
            × (pubkey_from_str params.mint ≡ some mint)
            × QueuesStaker env cq staker mint staker params.amount r)
  unfolding post_claim_stake_rewards_v3
  post_claim_stake_rewards_v3_cases env cq params =
      elim (Option-cases (pubkey_from_str params.mint)) [
        | inl e ↦ inl (rw (e, post_claim_stake_rewards_v3) (refl, λ h. cc))
        | inr (mint, et) ↦ elim (Option-cases (pubkey_from_str params.pubkey)) [
          | inl e ↦ inl (rw (et, post_claim_stake_rewards_v3, e) (refl, λ h. cc))
          | inr (staker, em) ↦
              elim (stake_claim_for_cases texts_v3 env cq staker mint staker params.amount) [
                | inl refused ↦ inl (rw (et, post_claim_stake_rewards_v3, em) refused)
                | inr queued ↦
                    inr (staker, mint, em, et, rw (et, post_claim_stake_rewards_v3, em) queued)
              ]
        ]
      ]

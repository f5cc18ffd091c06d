-- ===== src/Claims/Tests.antt =====
-- Requests for claims. In the toy crate every text is a key and a signature, and key 7 signs.
use coal_pool_server.Prelude.{ℕ, ◌≡◌, refl, ◌⊎◌, true, some, [], nat_beq, arith}
use coal_pool_server.Database.{ok, err, query_failed}
use coal_pool_server.Claims.{Solana, ClaimsQueue, status_ok}
use coal_pool_server.Claims.Requests.{
  Surroundings, ClaimParams, ClaimParamsV2, post_claim, post_claim_v2, claim_for,
}
use coal_pool_server.Claims.Stakers.{
  StakeSurroundings, ClaimStakeRewardsParamsV2, ClaimStakeRewardsParamsV3,
  post_claim_stake_rewards_v2, post_claim_stake_rewards_v3, is_boost_mint,
}
use coal_pool_server.Claims.Admission.{Refuses, QueuesMiner, IsRecent, post_claim_v2_cases}
use coal_pool_server.Claims.StakerAdmission.{
  QueuesStaker, post_claim_stake_rewards_v2_cases, post_claim_stake_rewards_v3_cases,
}
use coal_pool_server.Claims.Orderly.{IsOrderly, claim_v2, serve_claim, serve_claim-IsOrderly}
use coal_pool_server.Claims.Cooldown.{post_claim_twice}

abbrev toy : Solana
toy = record {
  Signature = ℕ;
  pubkey_from_str = λ s. some 7;
  signature_from_str = λ s. some 1;
  verify = λ signature key message. nat_beq key 7;
}

-- The miner of any key has 9000.
abbrev at : ℕ → Surroundings
at now = record {
  now = now;
  get_miner_rewards = λ key. ok (record { id = 1; balance = 9000; miner_id = 11 });
  get_last_claim = λ miner_id. err query_failed;
}

abbrev stakers_at : ℕ → StakeSurroundings
stakers_at now = record {
  now = now;
  get_staker_rewards = λ staker mint. err query_failed;
  has_token_account = λ key. true;
}

abbrev empty : ClaimsQueue
empty = record { queue = []; claim_cooldown = [] }

abbrev params : ClaimParams
params = record { pubkey = "miner"; amount = 6000 }

abbrev params_v2 : ClaimParamsV2
params_v2 = record { timestamp = 995; receiver_pubkey = "receiver"; amount = 6000 }

abbrev stake_params_v2 : ClaimStakeRewardsParamsV2
stake_params_v2 = record {
  timestamp = 995;
  mint = "mint";
  receiver_pubkey = "receiver";
  amount = 6000;
}

abbrev stake_params_v3 : ClaimStakeRewardsParamsV3
stake_params_v3 = record { pubkey = "staker"; mint = "mint"; amount = 6000 }

post_claim-status_ok : (post_claim toy (at 1000) empty params).1.status ≡ status_ok
unfolding post_claim claim_for
post_claim-status_ok = refl

post_claim_v2_cases_example :
    let r = post_claim_v2 toy (at 1000) empty "miner" "signature" params_v2 in
    Refuses empty r
    ⊎ ((miner : ℕ) × (receiver : ℕ) × (signature : ℕ) × (some 7 ≡ some miner)
        × (some 7 ≡ some receiver)
        × (some 1 ≡ some signature)
        × (nat_beq miner 7 ≡ true)
        × IsRecent 1000 995
        × QueuesMiner (at 1000) empty miner receiver 6000 r)
post_claim_v2_cases_example =
    post_claim_v2_cases toy (at 1000) empty "miner" "signature" params_v2 (omega arith)
      (omega arith) (omega arith)

post_claim_stake_rewards_v2_cases_example :
    let r =
      post_claim_stake_rewards_v2 toy
        (stakers_at 1000)
        empty
        "staker"
        "signature"
        stake_params_v2 in
    Refuses empty r
    ⊎ ((staker : ℕ) × (receiver : ℕ) × (mint : ℕ) × (signature : ℕ) × (some 7 ≡ some staker)
        × (some 7 ≡ some receiver)
        × (some 7 ≡ some mint)
        × (is_boost_mint toy mint ≡ true)
        × (some 1 ≡ some signature)
        × (nat_beq staker 7 ≡ true)
        × IsRecent 1000 995
        × QueuesStaker (stakers_at 1000) empty staker mint receiver 6000 r)
post_claim_stake_rewards_v2_cases_example =
    post_claim_stake_rewards_v2_cases toy (stakers_at 1000) empty "staker" "signature"
      stake_params_v2 (omega arith) (omega arith) (omega arith)

post_claim_stake_rewards_v3_cases_example :
    let r = post_claim_stake_rewards_v3 toy (stakers_at 1000) empty stake_params_v3 in
    Refuses empty r
    ⊎ ((staker : ℕ) × (mint : ℕ) × (some 7 ≡ some staker)
        × (some 7 ≡ some mint)
        × QueuesStaker (stakers_at 1000) empty staker mint staker 6000 r)
post_claim_stake_rewards_v3_cases_example =
    post_claim_stake_rewards_v3_cases toy (stakers_at 1000) empty stake_params_v3

serve_claim-IsOrderly_example :
    IsOrderly (serve_claim toy empty (claim_v2 (at 1000) "miner" "signature" params_v2)).0
serve_claim-IsOrderly_example =
    serve_claim-IsOrderly toy empty (claim_v2 (at 1000) "miner" "signature" params_v2)
      (record { distinct = tt; pending = tt })

post_claim_twice_example :
    let cq' = record (post_claim toy (at 1000) empty params).0 { queue = [] } in
    Refuses cq' (post_claim toy (at 5000) cq' params)
    × Refuses cq' (post_claim_v2 toy (at 5000) cq' "miner" "signature" params_v2)
post_claim_twice_example =
    post_claim_twice toy (at 1000) (at 5000) empty params params "signature" params_v2 []
      post_claim-status_ok (omega arith) refl

-- ===== src/Claims/Admission.antt =====
-- Which claims of miners come into the queue: the requests of Claims/Requests.antt.
use Prim.Native.String.{String}
use coal_pool_server.Prelude.{
  ℕ, ◌+◌, ◌≤◌, ◌<◌, ◌++◌, u64_mod, ◌≡◌, refl, ◌≢◌, ◌⊎◌, inl, inr, true, false, none, some, List,
  arith, nat_eq, option_eq, pair_eq, Option-cases, Bool-cases,
}
use coal_pool_server.Prelude.Bytes.{le_bytes}
use coal_pool_server.Database.{Result, ok, err}
use coal_pool_server.Models.{Reward, StakeAccount}
use coal_pool_server.State.{Pubkey}
use coal_pool_server.Claims.{
  claim_minimum, Solana, ClaimsQueueItem, ClaimsQueue, ClaimKey, Response, status_ok, enqueue,
  in_cooldown, is_queued, is_stale,
}
use coal_pool_server.Claims.Requests.{
  Surroundings, ClaimParams, ClaimParamsV2, claim_for, claim_verified, miner_item, post_claim,
  post_claim_v2, claim_message,
}

-- A refusal leaves the queue as it was.
abbrev pub Refuses : ClaimsQueue → ClaimsQueue × Response → Type 0
Refuses cq (cq', response) = (cq' ≡ cq) × (response.status ≢ status_ok)

-- The claim was queued, which sets the key's cooldown. The key was neither queued nor in its
-- cooldown, and the amount lies between the minimum and the balance.
abbrev pub Queues :
    ClaimsQueue → ClaimKey → ClaimsQueueItem → ℕ → ℕ → ClaimsQueue × Response → Type 0
Queues cq key item now balance (cq', response) =
    (cq' ≡ enqueue cq key item now)
    × (response.status ≡ status_ok)
    × (is_queued cq key ≡ false)
    × (in_cooldown cq key.0 now ≡ false)
    × (claim_minimum ≤ item.amount)
    × (item.amount ≤ balance)

-- The balance that the database reports.
abbrev pub miner_balance : Result Reward → ℕ
miner_balance (ok r) = r.balance
miner_balance (err e) = 0

abbrev pub staker_balance : Result StakeAccount → ℕ
staker_balance (ok a) = a.rewards_balance
staker_balance (err e) = 0

abbrev pub QueuesMiner : Surroundings → ClaimsQueue → ℕ → ℕ → ℕ → ClaimsQueue × Response → Type 0
QueuesMiner env cq pubkey receiver amount =
    Queues cq (pubkey, none) (miner_item receiver amount) env.now
      (miner_balance (env.get_miner_rewards pubkey))

claim_for_cases :
    (env : Surroundings) (cq : ClaimsQueue) (pubkey amount : ℕ)
    → Refuses cq (claim_for env cq pubkey amount)
      ⊎ QueuesMiner env cq pubkey pubkey amount (claim_for env cq pubkey amount)
unfolding claim_for
claim_for_cases env cq pubkey amount = ground arith

claim_verified_cases :
    (env : Surroundings) (cq : ClaimsQueue) (pubkey receiver amount : ℕ)
    → Refuses cq (claim_verified env cq pubkey receiver amount)
      ⊎ QueuesMiner env cq pubkey receiver amount (claim_verified env cq pubkey receiver amount)
unfolding claim_verified
claim_verified_cases env cq pubkey receiver amount = ground arith

-- The time stamp passes the server's check, and the key has signed the message.
abbrev pub Signed : (solana : Solana) → ℕ → ℕ → List ℕ → Pubkey → solana.Signature → Type 0
Signed solana now timestamp message key signature =
    (is_stale now timestamp ≡ false) × (solana.verify signature key message ≡ true)

-- A time stamp of the last 30 seconds.
abbrev pub IsRecent : ℕ → ℕ → Type 0
IsRecent now timestamp = (timestamp ≤ now) × (now < timestamp + 30)

pub is_stale-IsRecent :
    (now timestamp : ℕ)
    → 30 ≤ now
    → now < u64_mod
    → timestamp < u64_mod
    → is_stale now timestamp ≡ false
    → IsRecent now timestamp
is_stale-IsRecent now timestamp late fits fits' h = ground (arith, h, late, fits, fits')

module _ (solana : Solana) where
  open solana use {pubkey_from_str, signature_from_str, verify, Signature}

  -- A request to `post_claim` leaves the queue as it was and is not answered with success, or its
  -- key is a valid one and its claim is queued to that key: then the key was neither queued nor in
  -- its cooldown, and the amount lies between the minimum and the balance.
  pub post_claim_cases :
      (env : Surroundings) (cq : ClaimsQueue) (params : ClaimParams)
      → let r = post_claim solana env cq params in
        Refuses cq r
        ⊎ ((miner : Pubkey) × (pubkey_from_str params.pubkey ≡ some miner)
            × QueuesMiner env cq miner miner params.amount r)
  unfolding post_claim
  post_claim_cases env cq params = elim (Option-cases (pubkey_from_str params.pubkey)) [
    | inl e ↦ inl (rw (e, post_claim) (refl, λ h. cc))
    | inr (miner, e) ↦ elim (claim_for_cases env cq miner params.amount) [
      | inl refused ↦ inl (rw (e, post_claim) refused)
      | inr queued ↦ inr (miner, e, rw (e, post_claim) queued)
    ]
  ]

  -- What a request to `post_claim_v2` has passed, by the server's own tests.
  pub post_claim_v2_admits :
      (env : Surroundings) (cq : ClaimsQueue) (username password : String) (params : ClaimParamsV2)
      → let r = post_claim_v2 solana env cq username password params in
        Refuses cq r
        ⊎ ((miner : Pubkey) × (receiver : Pubkey) × (signature : Signature) × (pubkey_from_str
                username
              ≡ some miner)
            × (pubkey_from_str params.receiver_pubkey ≡ some receiver)
            × (signature_from_str password ≡ some signature)
            × Signed solana env.now params.timestamp
                (claim_message params.timestamp receiver params.amount)
                miner
                signature
            × QueuesMiner env cq miner receiver params.amount r)
  unfolding post_claim_v2
  post_claim_v2_admits env cq username password params =
      elim (Bool-cases (is_stale env.now params.timestamp)) [
        | inl stale ↦ inl (rw stale (refl, λ h. cc))
        | inr fresh ↦ elim (Option-cases (pubkey_from_str params.receiver_pubkey)) [
          | inl e ↦ inl (rw (fresh, e) (refl, λ h. cc))
          | inr (receiver, er) ↦ elim (Option-cases (pubkey_from_str username)) [
            | inl e ↦ inl (rw (fresh, er, e) (refl, λ h. cc))
            | inr (miner, em) ↦ elim (Option-cases (signature_from_str password)) [
              | inl e ↦ inl (rw (fresh, er, em, e) (refl, λ h. cc))
              | inr (signature, es) ↦
                  elim (Bool-cases (
                    verify signature miner
                      (claim_message params.timestamp receiver params.amount))) [
                        | inr bad ↦ inl (rw (fresh, er, em, es, bad) (refl, λ h. cc))
                        | inl good ↦
                            elim (claim_verified_cases env cq miner receiver params.amount) [
                              | inl refused ↦ inl (rw (fresh, er, em, es, good) refused)
                              | inr queued ↦ inr (
                                miner,
                                receiver,
                                signature,
                                em,
                                er,
                                es,
                                (fresh, good),
                                rw (fresh, er, em, es, good) queued,
                              )
                            ]
                      ]
            ]
          ]
        ]
      ]

  -- With times of 64 bits, and the clock at 30 seconds or later, a request to `post_claim_v2` leaves the
  -- queue as it was and is not answered with success, or its claim is queued: then the miner's key has
  -- signed the bytes of the time stamp, the receiver and the amount, the time stamp is not in the future
  -- and less than 30 seconds old, the key was neither queued nor in its cooldown, and the amount lies
  -- between the minimum and the balance.
  pub post_claim_v2_cases :
      (env : Surroundings) (cq : ClaimsQueue) (username password : String) (params : ClaimParamsV2)
      → 30 ≤ env.now
      → env.now < u64_mod
      → params.timestamp < u64_mod
      → let r = post_claim_v2 solana env cq username password params in
        Refuses cq r
        ⊎ ((miner : Pubkey) × (receiver : Pubkey) × (signature : Signature) × (pubkey_from_str
                username
              ≡ some miner)
            × (pubkey_from_str params.receiver_pubkey ≡ some receiver)
            × (signature_from_str password ≡ some signature)
            × (verify signature miner (
                  le_bytes 8 params.timestamp ++ (le_bytes 32 receiver ++ le_bytes 8 params.amount))
                ≡ true)
            × IsRecent env.now params.timestamp
            × QueuesMiner env cq miner receiver params.amount r)
  unfolding claim_message
  post_claim_v2_cases env cq username password params late fits fits' =
      elim (post_claim_v2_admits env cq username password params) [
        | inl refused ↦ inl refused
        | inr (miner, receiver, signature, em, er, es, signed, queued) ↦ inr (
          miner,
          receiver,
          signature,
          em,
          er,
          es,
          signed.1,
          is_stale-IsRecent env.now params.timestamp late fits fits' signed.0,
          queued,
        )
      ]

-- ===== src/Claims/Requests.antt =====
-- `post_claim` and `post_claim_v2` (src/main.rs): a miner claims its rewards.
use Prim.Native.String.{String}
use coal_pool_server.Prelude.{
  ℕ, Option, none, some, List, ◌++◌, if◌then◌else◌, ltb, nat_eq, option_eq, pair_eq,
}
use coal_pool_server.Prelude.Bytes.{le_bytes}
use coal_pool_server.Prelude.Int.{ℤ, pos, ◌-ℤ◌, leb_ℤ}
use coal_pool_server.Database.{Result, ok, err}
use coal_pool_server.Models.{Reward}
use coal_pool_server.State.{Pubkey}
use coal_pool_server.Claims.{
  claim_minimum, Solana, ClaimsQueueItem, ClaimsQueue, Response, reject, accept, is_queued,
  in_cooldown, is_stale, bad_request, unauthorized, too_many_requests, internal_server_error, text,
  number,
}

abbrev pub miner_item : Pubkey → ℕ → ClaimsQueueItem
miner_item receiver amount = record { receiver_pubkey = receiver; amount = amount; mint = none }

pub record ClaimParams : Type 0 where
  pub pubkey : String
  pub amount : ℕ

-- What a handler reads of its surroundings: the clock in seconds, and the database.
pub record Surroundings : Type 0 where
  pub now : ℕ
  pub get_miner_rewards : Pubkey → Result Reward
  pub get_last_claim : ℕ → Result ℤ

-- The end of `post_claim`, once the key is known.
unfoldable pub claim_for : Surroundings → ClaimsQueue → Pubkey → ℕ → ClaimsQueue × Response
claim_for env cq miner_pubkey amount =
    if is_queued cq (miner_pubkey, none)
    then reject too_many_requests (text "QUEUED") cq
    else if in_cooldown cq miner_pubkey env.now
    then reject bad_request (text "claims only allowed once every 48 hours") cq
    else if ltb amount claim_minimum
    then reject bad_request (text "claim minimum is 0.00000005000") cq
    else elim (env.get_miner_rewards miner_pubkey) [
      | err e ↦ reject internal_server_error (text "failed to get miner account from database") cq
      | ok miner_rewards ↦
          if ltb miner_rewards.balance amount
          then reject bad_request (text "claim amount exceeds miner rewards balance") cq
          else accept cq (miner_pubkey, none) (miner_item miner_pubkey amount) env.now
    ]

-- A last claim on record that is at most half an hour old.
abbrev pub claimed_lately : Surroundings → ℕ → Option ℤ
claimed_lately env miner_id = elim (env.get_last_claim miner_id) [
  | err e ↦ none
  | ok last_claim_ts ↦
      let time_difference = pos env.now -ℤ last_claim_ts in
      if leb_ℤ time_difference (pos 1800) then some time_difference else none
]

-- The end of `post_claim_v2`, once the signature is verified.
unfoldable pub claim_verified :
    Surroundings → ClaimsQueue → Pubkey → Pubkey → ℕ → ClaimsQueue × Response
claim_verified env cq miner_pubkey receiver_pubkey amount =
    if is_queued cq (miner_pubkey, none)
    then reject too_many_requests (text "QUEUED") cq
    else if ltb amount claim_minimum
    then reject bad_request (text "claim minimum is 0.00000005000") cq
    else if in_cooldown cq miner_pubkey env.now
    then reject bad_request (text "claims only allowed once every 48 hours") cq
    else elim (env.get_miner_rewards miner_pubkey) [
      | err e ↦ reject internal_server_error (text "failed to get miner account from database") cq
      | ok miner_rewards ↦
          if ltb miner_rewards.balance amount
          then reject bad_request (text "claim amount exceeds miner rewards balance.") cq
          else elim (claimed_lately env miner_rewards.miner_id) [
            | some time_difference ↦ reject too_many_requests (number time_difference) cq
            | none ↦ accept cq (miner_pubkey, none) (miner_item receiver_pubkey amount) env.now
          ]
    ]

pub record ClaimParamsV2 : Type 0 where
  pub timestamp : ℕ
  pub receiver_pubkey : String
  pub amount : ℕ

-- The bytes that a claim's signature signs.
unfoldable pub claim_message : ℕ → Pubkey → ℕ → List ℕ
claim_message timestamp receiver_pubkey amount =
    le_bytes 8 timestamp ++ (le_bytes 32 receiver_pubkey ++ le_bytes 8 amount)

module _ (solana : Solana) where
  open solana use {pubkey_from_str, signature_from_str, verify}

  unfoldable pub post_claim : Surroundings → ClaimsQueue → ClaimParams → ClaimsQueue × Response
  unfolding claim_for
  post_claim env cq params = elim (pubkey_from_str params.pubkey) [
    | none ↦ reject bad_request (text "Invalid Pubkey") cq
    | some miner_pubkey ↦ claim_for env cq miner_pubkey params.amount
  ]

  -- `username` and `password` are those of the basic authentication header.
  unfoldable pub post_claim_v2 :
      Surroundings → ClaimsQueue → String → String → ClaimParamsV2 → ClaimsQueue × Response
  unfolding claim_verified claim_message
  post_claim_v2 env cq username password params =
      if is_stale env.now params.timestamp
      then reject unauthorized (text "Timestamp too old.") cq
      else elim (pubkey_from_str params.receiver_pubkey) [
        | none ↦ reject bad_request (text "Invalid receiver_pubkey provided.") cq
        | some receiver_pubkey ↦ elim (pubkey_from_str username) [
          | none ↦ reject bad_request (text "Invalid Pubkey") cq
          | some miner_pubkey ↦ elim (signature_from_str password) [
            | none ↦ reject unauthorized (text "Invalid signature") cq
            | some signature ↦
                if verify signature miner_pubkey
                  (claim_message params.timestamp receiver_pubkey params.amount)
                then claim_verified env cq miner_pubkey receiver_pubkey params.amount
                else reject unauthorized (text "Sig verification failed") cq
          ]
        ]
      ]

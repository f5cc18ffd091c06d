-- ===== src/Claims/Stakers.antt =====
-- `post_claim_stake_rewards_v2` and `_v3` (src/main.rs): a staker claims its rewards for a mint.
use Prim.Native.String.{String}
use coal_pool_server.Prelude.{
  ℕ, Bool, false, not, ◌&&◌, ◌||◌, none, some, List, ◌++◌, if◌then◌else◌, ltb, nat_beq, nat_eq,
  option_eq, pair_eq,
}
use coal_pool_server.Prelude.Bytes.{le_bytes}
use coal_pool_server.Database.{Result, ok, err}
use coal_pool_server.Models.{StakeAccount}
use coal_pool_server.State.{Pubkey}
use coal_pool_server.Claims.{
  claim_minimum, Solana, ClaimsQueueItem, ClaimsQueue, Response, reject, accept, is_queued,
  in_cooldown, is_stale, bad_request, unauthorized, too_many_requests, internal_server_error, text,
}

abbrev pub staker_item : Pubkey → ℕ → Pubkey → ClaimsQueueItem
staker_item receiver amount mint = record {
  receiver_pubkey = receiver;
  amount = amount;
  mint = some mint;
}

-- `has_token_account` is whether the node knows the receiver's token account.
pub record StakeSurroundings : Type 0 where
  pub now : ℕ
  pub get_staker_rewards : Pubkey → Pubkey → Result StakeAccount
  pub has_token_account : Pubkey → Bool

-- Two texts in which the handlers differ.
pub record Texts : Type 0 where
  pub minimum : String
  pub exceeds : String

abbrev pub texts_v2 : Texts
texts_v2 = record {
  minimum = "claim minimum is 0.00000005000";
  exceeds = "claim amount exceeds staker rewards balance.";
}

abbrev pub texts_v3 : Texts
texts_v3 = record {
  minimum = "claim minimum is 0.05";
  exceeds = "claim amount exceeds staker rewards balance";
}

-- The end of both handlers, once the keys are known and a signature is verified.
unfoldable pub stake_claim_for :
    Texts → StakeSurroundings → ClaimsQueue → Pubkey → Pubkey → Pubkey → ℕ → ClaimsQueue × Response
stake_claim_for texts env cq staker_pubkey mint_pubkey receiver_pubkey amount =
    if is_queued cq (staker_pubkey, some mint_pubkey)
    then reject too_many_requests (text "QUEUED") cq
    else if in_cooldown cq staker_pubkey env.now
    then reject bad_request (text "claims only allowed once every 48 hours") cq
    else if ltb amount claim_minimum
    then reject bad_request (text texts.minimum) cq
    else if not (env.has_token_account receiver_pubkey) && ltb amount claim_minimum
    then reject bad_request (text texts.minimum) cq
    else elim (env.get_staker_rewards staker_pubkey mint_pubkey) [
      | err e ↦ reject internal_server_error (text "failed to get staker account from database") cq
      | ok staker_rewards ↦
          if ltb staker_rewards.rewards_balance amount
          then reject bad_request (text texts.exceeds) cq
          else accept cq (staker_pubkey, some mint_pubkey)
              (staker_item receiver_pubkey amount mint_pubkey) env.now
    ]

pub record ClaimStakeRewardsParamsV2 : Type 0 where
  pub timestamp : ℕ
  pub mint : String
  pub receiver_pubkey : String
  pub amount : ℕ

pub record ClaimStakeRewardsParamsV3 : Type 0 where
  pub pubkey : String
  pub mint : String
  pub amount : ℕ

unfoldable pub stake_claim_message : ℕ → Pubkey → Pubkey → ℕ → List ℕ
stake_claim_message timestamp mint_pubkey receiver_pubkey amount =
    le_bytes 8 timestamp
    ++ (le_bytes 32 mint_pubkey ++ (le_bytes 32 receiver_pubkey ++ le_bytes 8 amount))

module _ (solana : Solana) where
  open solana use {pubkey_from_str, signature_from_str, verify}

  -- Whether a key is the one that a text spells. The three texts of the handler are keys, so its
  -- `unwrap`s do not fail.
  abbrev spells : String → Pubkey → Bool
  spells name key = elim (pubkey_from_str name) [ none ↦ false | some k ↦ nat_beq k key ]

  unfoldable pub is_boost_mint : Pubkey → Bool
  is_boost_mint mint =
      spells "oreoU2P8bN6jkk3jbaiVxYnG1dCXcYxwhwyK9jSybcp" mint
      || (spells "DrSS5RM7zUd9qjUEdDaf31vnDUSbCrMto6mjqTrHFifN" mint
          || spells "meUwDp23AaxhiNKaQCyJ2EAF2T4oe1gSkEkGXSRVdZb" mint)

  -- The end of `post_claim_stake_rewards_v2`, from the staker's key on.
  unfoldable pub stake_claim_signed :
      StakeSurroundings
      → ClaimsQueue
      → String
      → String
      → Pubkey
      → Pubkey
      → ClaimStakeRewardsParamsV2
      → ClaimsQueue × Response
  unfolding stake_claim_for stake_claim_message
  stake_claim_signed env cq username password mint_pubkey receiver_pubkey params =
      elim (pubkey_from_str username) [
        | none ↦ reject bad_request (text "Invalid Pubkey") cq
        | some staker_pubkey ↦ elim (signature_from_str password) [
          | none ↦ reject unauthorized (text "Invalid signature") cq
          | some signature ↦
              if verify signature staker_pubkey
                (stake_claim_message params.timestamp mint_pubkey receiver_pubkey params.amount)
              then stake_claim_for texts_v2 env cq staker_pubkey mint_pubkey receiver_pubkey
                  params.amount
              else reject unauthorized (text "Sig verification failed") cq
        ]
      ]

  unfoldable pub post_claim_stake_rewards_v2 :
      StakeSurroundings
      → ClaimsQueue
      → String
      → String
      → ClaimStakeRewardsParamsV2
      → ClaimsQueue × Response
  unfolding stake_claim_signed is_boost_mint
  post_claim_stake_rewards_v2 env cq username password params =
      if is_stale env.now params.timestamp
      then reject unauthorized (text "Timestamp too old.") cq
      else elim (pubkey_from_str params.receiver_pubkey) [
        | none ↦ reject bad_request (text "Invalid receiver_pubkey provided.") cq
        | some receiver_pubkey ↦ elim (pubkey_from_str params.mint) [
          | none ↦ reject bad_request (text "Invalid mint pubkey provided.") cq
          | some mint_pubkey ↦
              if not (is_boost_mint mint_pubkey)
              then reject bad_request (text "Invalid mint provided.") cq
              else stake_claim_signed env cq username password mint_pubkey receiver_pubkey params
        ]
      ]

  unfoldable pub post_claim_stake_rewards_v3 :
      StakeSurroundings → ClaimsQueue → ClaimStakeRewardsParamsV3 → ClaimsQueue × Response
  unfolding stake_claim_for
  post_claim_stake_rewards_v3 env cq params = elim (pubkey_from_str params.mint) [
    | none ↦ reject bad_request (text "invalid mint pubkey") cq
    | some mint_pubkey ↦ elim (pubkey_from_str params.pubkey) [
      | none ↦ reject bad_request (text "Invalid Pubkey") cq
      | some staker_pubkey ↦
          stake_claim_for texts_v3 env cq staker_pubkey mint_pubkey staker_pubkey params.amount
    ]
  ]

-- ===== src/Stakes/Unstake.antt =====
-- The routes that take a delegated stake back (src/main.rs): `post_unstake`, `post_unstake_boost` and
-- `post_unstake_boost_v2`. The caller sends a transaction that it has signed; the fee wallet signs it
-- too, and the server submits it. Submissions says which ones go out.
pub mod Requests
pub mod Submissions
pub mod Panics
use Prim.Native.String.{String}
use coal_pool_server.Prelude.{ℕ, Option, none, some, List, [], ◌∷◌}
use coal_pool_server.State.{Pubkey}
use coal_pool_server.Claims.{Response, status_ok, bad_request, internal_server_error}
use coal_pool_server.Stakes.{
  Crates, Node, Instruction, WalletExtension, Transaction, CompiledInstruction, Handled, answers,
  panics, respond, at_most, matching, with_transaction, with_keys, sign_and_submit,
  get_delegated_stake_account, get_delegated_boost_account, get_delegated_boost_account_v2,
}
use coal_pool_server.Stakes.Landing.{Confirmation, landed, expired, failed, waiting, confirm_txn}

pub record UnstakeParams : Type 0 where
  pub pubkey : String
  pub amount : ℕ

pub record UnstakeBoostParams : Type 0 where
  pub pubkey : String
  pub mint : String
  pub amount : ℕ

-- The answer after the wait.
abbrev pub confirmed_answer : Confirmation → Option Response
confirmed_answer landed = some (respond status_ok "SUCCESS")
confirmed_answer expired = some (respond internal_server_error "Failed to confirm tx")
confirmed_answer failed = some (respond internal_server_error "Failed to confirm tx")
confirmed_answer waiting = none

module _ (node : Node) where
  open node use {send_transaction_with_config, send_and_confirm_transaction, looks}

  -- `send_txn` and then `confirm_txn`
  unfoldable pub submit_and_wait : Transaction → Option Response
  submit_and_wait tx = elim (send_transaction_with_config tx) [
    | none ↦ some (respond internal_server_error "Failed to send tx")
    | some sig ↦ confirmed_answer (confirm_txn (looks sig))
  ]

  unfoldable pub send_and_confirm : Transaction → Option Response
  send_and_confirm tx = elim (send_and_confirm_transaction tx) [
    | none ↦ some (respond internal_server_error "Failed to send tx")
    | some sig ↦ some (respond status_ok "SUCCESS")
  ]

module _ (crates : Crates) (wallet : WalletExtension) where
  -- What the three routes share, once they know the delegated account, the answer where there is none,
  -- the server's own instruction and the way to submit.
  unfoldable pub redeem :
      Option ℕ → Response → Instruction → (Transaction → Option Response) → Transaction → Handled
  unfolding matching sign_and_submit
  redeem none refusal base_ix submit tx = answers refusal
  redeem (some account) refusal base_ix submit tx =
      matching tx.instructions base_ix λ rest. sign_and_submit crates wallet tx submit

  unfoldable pub unstake :
      String → Option ℕ → Response → Instruction → (Transaction → Option Response) → Handled
  unfolding with_transaction at_most redeem
  unstake body account refusal base_ix submit =
      with_transaction crates body λ tx. at_most 1 tx (redeem account refusal base_ix submit tx)

module _ (crates : Crates) (node : Node) (wallet : WalletExtension) where
  open crates use {
    pubkey_from_str, ore_mint, get_associated_token_address, undelegate_stake, undelegate_boost,
    undelegate_boost_v2,
  }
  open wallet use {miner_wallet}

  unfoldable pub post_unstake : UnstakeParams → String → Handled
  unfolding unstake
  post_unstake query_params body = elim (pubkey_from_str query_params.pubkey) [
    | none ↦ answers (respond bad_request "Invalid Pubkey")
    | some user_pubkey ↦
        unstake crates wallet body
          (get_delegated_stake_account crates node user_pubkey miner_wallet)
          (respond bad_request "No delegate stake account exists")
          (undelegate_stake user_pubkey miner_wallet
            (get_associated_token_address user_pubkey ore_mint) query_params.amount)
          (submit_and_wait node)
  ]

  unfoldable pub post_unstake_boost : UnstakeBoostParams → String → Handled
  unfolding unstake with_keys
  post_unstake_boost query_params body =
      with_keys crates query_params.pubkey query_params.mint λ user_pubkey mint.
        unstake crates wallet body
          (get_delegated_boost_account crates node user_pubkey miner_wallet mint)
          (respond internal_server_error "Failed to unstake boost")
          (undelegate_boost user_pubkey miner_wallet mint query_params.amount)
          (send_and_confirm node)

  unfoldable pub post_unstake_boost_v2 : UnstakeBoostParams → String → Handled
  unfolding unstake with_keys
  post_unstake_boost_v2 query_params body =
      with_keys crates query_params.pubkey query_params.mint λ user_pubkey mint.
        unstake crates wallet body
          (get_delegated_boost_account_v2 crates node user_pubkey miner_wallet mint)
          (respond internal_server_error "Failed to unstake boost")
          (undelegate_boost_v2 user_pubkey miner_wallet mint query_params.amount)
          (send_and_confirm node)

-- ===== src/Stakes/Migrate.antt =====
-- The route that moves a boost to the second version: `post_migrate_boost_v2` of src/main.rs, with or
-- without the instruction that opens the new account. Migrate/Migrations says which requests go out.
pub mod Steps
pub mod Migrations
use Prim.Native.String.{String}
use coal_pool_server.Prelude.{ℕ, Bool, Option, none, some, if◌then◌else◌}
use coal_pool_server.State.{Pubkey}
use coal_pool_server.Claims.{bad_request}
use coal_pool_server.Stakes.{
  Crates, Node, WalletExtension, Transaction, Handled, answers, respond, at_most, matching,
  with_transaction, with_keys, sign_and_submit, get_delegated_boost_account_v2,
}
use coal_pool_server.Stakes.Unstake.{send_and_confirm}

pub record MigrateBoostParams : Type 0 where
  pub pubkey : String
  pub mint : String
  pub init : Bool

module _ (crates : Crates) (node : Node) (wallet : WalletExtension)
    (user_pubkey mint : Pubkey) where
  open crates use {init_delegate_boost_v2, migrate_boost_to_v2}
  open wallet use {miner_wallet, fee_wallet}

  -- With `init`: the account must not be there yet, and the first instruction opens it.
  unfoldable pub migrate_init : Option ℕ → Transaction → Handled
  unfolding at_most matching sign_and_submit
  migrate_init (some account) tx = answers (respond bad_request "Account already initialized.")
  migrate_init none tx = at_most 2 tx (
      matching tx.instructions (init_delegate_boost_v2 user_pubkey miner_wallet fee_wallet mint)
        λ rest.
          matching rest (migrate_boost_to_v2 user_pubkey miner_wallet mint)
            λ others. sign_and_submit crates wallet tx (send_and_confirm node))

  unfoldable pub migrate_only : Option ℕ → Transaction → Handled
  unfolding at_most matching sign_and_submit
  migrate_only none tx = answers (respond bad_request "Account not initialized.")
  migrate_only (some account) tx = at_most 1 tx (
      matching tx.instructions (migrate_boost_to_v2 user_pubkey miner_wallet mint)
        λ rest. sign_and_submit crates wallet tx (send_and_confirm node))

  unfoldable pub migrate : Bool → Transaction → Handled
  unfolding migrate_init migrate_only
  migrate init tx =
      let account = get_delegated_boost_account_v2 crates node user_pubkey miner_wallet mint in
      if init then migrate_init account tx else migrate_only account tx

unfoldable pub post_migrate_boost_v2 :
    Crates → Node → WalletExtension → MigrateBoostParams → String → Handled
unfolding with_keys with_transaction migrate
post_migrate_boost_v2 crates node wallet query_params body =
    with_keys crates query_params.pubkey query_params.mint λ user_pubkey mint.
      with_transaction crates body (migrate crates node wallet user_pubkey mint query_params.init)

-- ===== src/Stakes/Refresh.antt =====
-- The staked balances of the table `stake_accounts`, brought up to those on the chain:
-- `update_stake_accounts` of src/scripts.rs, and `update_delegate_boost_stake_accounts` of src/main.rs,
-- which nothing calls.
-- The accounts of the program come from the node, with the bytes they hold; `from_bytes` reads the amount
-- of a delegated boost from these.
pub mod Sync
use coal_pool_server.Prelude.{
  ℕ, zero, suc, ◌≡◌, refl, sym, ap, ◌∙◌, ◌⊎◌, inl, inr, Option, none, some, List, [], ◌∷◌, map,
  arith, if◌then◌else◌, nat_beq, nat_beq_iff, nat_eq, Option-cases, All, Bool-cases,
}
use coal_pool_server.Prelude.HashMap.{
  HashMap, get, insert, HasDistinctKeys, get-insert, insert-HasDistinctKeys,
}
use coal_pool_server.State.{Pubkey}
use coal_pool_server.Models.{UpdateStakeAccount}
use coal_pool_server.Database.{Access, chunks}
use coal_pool_server.Database.Attempts.{ReachesAll}
use coal_pool_server.Database.Bulk.{write_batches, Fits, updated, applied, write_chunks-eq}
use coal_pool_server.Database.Stakes.{
  StakeRow, row_key, restaked, stake_row, stake_entry, update_stake_accounts_staked_balance,
}

-- The accounts that the node lists, or none if it fails.
abbrev pub ProgramAccounts : Type 0
ProgramAccounts = Option (List (Pubkey × List ℕ))

abbrev pub staked_update : Pubkey × ℕ → UpdateStakeAccount
staked_update (stake_pda, amount) = record { stake_pda = stake_pda; staked_balance = amount }

unfoldable pub write_staked_balances :
    List (List Access) → List UpdateStakeAccount → List StakeRow → Option (List StakeRow)
unfolding write_batches update_stake_accounts_staked_balance
write_staked_balances attempts [] rows = some rows
write_staked_balances attempts (u ∷ us) rows =
    write_batches update_stake_accounts_staked_balance attempts (chunks 200 (u ∷ us)) rows

abbrev pub insert_boost : Option ℕ → Pubkey → HashMap Pubkey ℕ → HashMap Pubkey ℕ
insert_boost none address boosts = boosts
insert_boost (some amount) address boosts = insert address amount boosts

abbrev pub push_boost : Option ℕ → Pubkey → List UpdateStakeAccount → List UpdateStakeAccount
push_boost none address boosts = boosts
push_boost (some amount) address boosts = staked_update (address, amount) ∷ boosts

module _ (from_bytes : List ℕ → Option ℕ) where
  -- The loop of the script that gathers the boosts in a map; an account that cannot be read is left out.
  unfoldable pub gather : List (Pubkey × List ℕ) → HashMap Pubkey ℕ → HashMap Pubkey ℕ
  gather [] boosts = boosts
  gather ((address, bytes) ∷ rest) boosts =
      gather rest (insert_boost (from_bytes bytes) address boosts)

  -- The script, with the order in which the map is iterated.
  unfoldable pub update_stake_accounts :
      (HashMap Pubkey ℕ → List (Pubkey × ℕ))
      → List (List Access)
      → ProgramAccounts
      → List StakeRow
      → Option (List StakeRow)
  unfolding gather write_staked_balances
  update_stake_accounts iter attempts none rows = some rows
  update_stake_accounts iter attempts (some program_accounts) rows =
      write_staked_balances attempts (map staked_update (iter (gather program_accounts []))) rows

  -- The loop of the server, in the order of the accounts.
  unfoldable pub delegated_boosts_of : List (Pubkey × List ℕ) → List UpdateStakeAccount
  delegated_boosts_of [] = []
  delegated_boosts_of ((address, bytes) ∷ rest) =
      push_boost (from_bytes bytes) address (delegated_boosts_of rest)

  unfoldable pub update_delegate_boost_stake_accounts :
      List (List Access) → ProgramAccounts → List StakeRow → Option (List StakeRow)
  unfolding delegated_boosts_of write_staked_balances
  update_delegate_boost_stake_accounts attempts none rows = some rows
  update_delegate_boost_stake_accounts attempts (some program_accounts) rows =
      write_staked_balances attempts (delegated_boosts_of program_accounts) rows

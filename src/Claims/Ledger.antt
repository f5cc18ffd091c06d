-- ===== src/Claims/Ledger.antt =====
-- The tables that a settled claim changes, and the queries of src/app_database.rs that change them, as
-- steps that carry the tables along: a step that never gets through leaves them as far as it came.
use coal_pool_server.Prelude.{
  ℕ, ◌+◌, ◌-◌, Option, none, some, List, [], ◌∷◌, if◌then◌else◌, ltb, leb, nat_beq, u64_mod, nat_eq,
  length,
}
use coal_pool_server.Prelude.HashMap.{HashMap, get, insert}
use coal_pool_server.Models.{Reward, StakeAccount, Pool, InsertClaim}
use coal_pool_server.State.{Pubkey}
use coal_pool_server.Database.{
  Result, ok, err, Access, interact, query_failed, failed_to_update_row, for_rows,
  decrease_miner_reward,
}

-- `miners` gives the id of a key (which is unique in its table), `pools` has one row for each
-- authority, and a transaction is its signature, whose place from the end of the list is its id.
pub record Ledger : Type 0 where
  pub miners : HashMap Pubkey ℕ
  pub rewards : List Reward
  pub stake_accounts : List StakeAccount
  pub pools : HashMap Pubkey Pool
  pub txns : List ℕ
  pub claims : List InsertClaim

-- How a chain of calls stands: it has a result, an `unwrap` has failed, or a loop still tries.
pub data Progress (A : Type 0) : Type 0 where
  done : A → Progress A
  panicked : Progress A
  trying : Progress A

abbrev pub Step : Type 0 → Type 0
Step A = Ledger → Progress A × Ledger

infixl 5 ◌>>=◌ ◌>>◌
abbrev pub ◌>>=◌ : {A B : Type 0} → Step A → (A → Step B) → Step B
◌>>=◌ m f l =
    let (p, l') = m l in
    elim p [ done a ↦ f a l' | panicked ↦ (panicked, l') | trying ↦ (trying, l') ]

abbrev pub ◌>>◌ : {B : Type 0} → Step (Unit {0}) → Step B → Step B
m >> k = m >>= λ _. k

-- `query.await.unwrap()`
abbrev pub unwrap : {A : Type 0} → Access → (Ledger → Result A) → Step A
unwrap access query l = elim (interact access (query l)) [
  | ok a ↦ (done a, l)
  | err e ↦ (panicked, l)
]

-- `while let Err(_) = update.await { sleep }`, over the accesses of its attempts.
abbrev pub until_ok : List Access → (Ledger → Result Ledger) → Step (Unit {0})
until_ok [] update l = (trying, l)
until_ok (a ∷ rest) update l = elim (interact a (update l)) [
  | ok l' ↦ (done tt, l')
  | err e ↦ until_ok rest update l
]

-- `loop { if let Ok(r) = query.await { break r } }`
abbrev pub until_found : {A : Type 0} → List Access → (Ledger → Result A) → Step A
until_found [] query l = (trying, l)
until_found (a ∷ rest) query l = elim (interact a (query l)) [
  | ok r ↦ (done r, l)
  | err e ↦ until_found rest query l
]

abbrev pub or_failed : {A : Type 0} → Option A → Result A
or_failed none = err query_failed
or_failed (some a) = ok a

unfoldable pub find_reward : ℕ → List Reward → Option Reward
find_reward miner_id [] = none
find_reward miner_id (r ∷ rs) =
    if nat_beq r.miner_id miner_id then some r else find_reward miner_id rs

unfoldable pub get_miner_by_pubkey_str : Pubkey → Ledger → Result ℕ
get_miner_by_pubkey_str pubkey l = or_failed (get pubkey l.miners)

-- The reward row that joins the key's miner.
unfoldable pub get_miner_rewards : Pubkey → Ledger → Result Reward
unfolding find_reward
get_miner_rewards pubkey l = elim (get pubkey l.miners) [
  | none ↦ err query_failed
  | some miner_id ↦ or_failed (find_reward miner_id l.rewards)
]

unfoldable pub get_pool_by_authority_pubkey : Pubkey → Ledger → Result Pool
get_pool_by_authority_pubkey authority l = or_failed (get authority l.pools)

unfoldable pub find_stake : Pubkey → Pubkey → List StakeAccount → Option StakeAccount
find_stake staker mint [] = none
find_stake staker mint (a ∷ rest) =
    if nat_beq a.staker_pubkey staker
    then (if nat_beq a.mint_pubkey mint then some a else find_stake staker mint rest)
    else find_stake staker mint rest

unfoldable pub get_staker_rewards : Pubkey → Pubkey → Ledger → Result StakeAccount
unfolding find_stake
get_staker_rewards staker mint l = or_failed (find_stake staker mint l.stake_accounts)

unfoldable pub find_pool_stake : ℕ → Pubkey → Pubkey → List StakeAccount → Option StakeAccount
find_pool_stake pool_id staker mint [] = none
find_pool_stake pool_id staker mint (a ∷ rest) =
    let here = nat_beq a.pool_id pool_id in
    let later = find_pool_stake pool_id staker mint rest in
    if here
    then (if nat_beq a.staker_pubkey staker
        then (if nat_beq a.mint_pubkey mint then some a else later)
        else later)
    else later

unfoldable pub get_stake_account_for_staker : ℕ → Pubkey → Pubkey → Ledger → Result StakeAccount
unfolding find_pool_stake
get_stake_account_for_staker pool_id staker mint l =
    or_failed (find_pool_stake pool_id staker mint l.stake_accounts)

abbrev with_rewards : Ledger → Result (List Reward) → Result Ledger
with_rewards l (ok rows) = ok (record l { rewards = rows })
with_rewards l (err e) = err e

unfoldable pub decrease_reward : ℕ → ℕ → Ledger → Result Ledger
unfolding decrease_miner_reward
decrease_reward miner_id amount l =
    with_rewards l (decrease_miner_reward Access.granted miner_id amount l.rewards)

unfoldable pub decrease_stake_row : ℕ → ℕ → StakeAccount → Result StakeAccount
decrease_stake_row id amount row =
    if nat_beq row.id id
    then (if leb amount row.rewards_balance
        then ok (record row { rewards_balance = row.rewards_balance - amount })
        else err query_failed)
    else ok row

abbrev with_stakes : Ledger → Result (List StakeAccount) → Result Ledger
with_stakes l (ok rows) = ok (record l { stake_accounts = rows })
with_stakes l (err e) = err e

unfoldable pub decrease_stakers_rewards : ℕ → ℕ → Ledger → Result Ledger
unfolding decrease_stake_row
decrease_stakers_rewards id amount l =
    with_stakes l (for_rows (decrease_stake_row id amount) l.stake_accounts)

-- No row for the authority is an error as well.
unfoldable pub update_pool_claimed : Pubkey → ℕ → Ledger → Result Ledger
update_pool_claimed authority amount l = elim (get authority l.pools) [
  | none ↦ err failed_to_update_row
  | some pool ↦
      if ltb (pool.claimed_rewards + amount) u64_mod
      then ok (record l {
        pools =
            insert authority (record pool { claimed_rewards = pool.claimed_rewards + amount })
              l.pools;
      })
      else err query_failed
]

unfoldable pub add_new_txn : ℕ → Ledger → Result Ledger
add_new_txn signature l = ok (record l { txns = signature ∷ l.txns })

-- The id of a transaction is the number of those before it.
unfoldable pub find_txn : ℕ → List ℕ → Option ℕ
find_txn signature [] = none
find_txn signature (t ∷ ts) =
    if nat_beq t signature then some (length ts) else find_txn signature ts

unfoldable pub get_txn_by_sig : ℕ → Ledger → Result ℕ
unfolding find_txn
get_txn_by_sig signature l = or_failed (find_txn signature l.txns)

unfoldable pub add_new_claim : InsertClaim → Ledger → Result Ledger
add_new_claim claim l = ok (record l { claims = claim ∷ l.claims })

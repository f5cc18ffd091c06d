-- ===== src/Claims/Process.antt =====
-- `claim_system` and `process_claim` (src/systems/claim_system.rs): the queued claims are paid on
-- chain and then settled in the database. What the node and the database answer are arguments.
pub mod Steps
pub mod Settlement
pub mod StakerSettlement
pub mod Panics
pub mod Endings
pub mod Paid
mod Tests
use coal_pool_server.Prelude.{
  ℕ, ◌+◌, ◌-◌, Bool, true, false, Option, none, some, List, [], ◌∷◌, ◌++◌, if◌then◌else◌, ltb, leb,
  sub64, take, nat_eq, option_eq, pair_eq,
}
use coal_pool_server.Prelude.HashMap.{HashMap, get, insert, remove}
use coal_pool_server.Models.{Reward, StakeAccount, Pool, InsertClaim}
use coal_pool_server.State.{Pubkey}
use coal_pool_server.Database.{Result, ok, err, Access, interact}
use coal_pool_server.Claims.Transaction.{
  Confirmation, Instruction, Poll, Sending, SignatureStatus, TokenAccount, claim_amount_of,
  claim_instructions, confirm, confirmed, confirming, create_associated_token_account, create_ata,
  expired, failed, failed_on_chain, funded, given_up, miner_ata_fee, missing, send_claim, sending,
  sent, set_compute_unit_price, staker_ata_fee, succeeded, undelegate_stake, unfinalized, unfunded,
  unknown,
}
use coal_pool_server.Claims.{ClaimKey, ClaimsQueueItem}
use coal_pool_server.Claims.Ledger.{
  Ledger, Progress, done, panicked, trying, Step, ◌>>=◌, ◌>>◌, unwrap, until_ok, until_found,
  get_miner_by_pubkey_str, get_miner_rewards, get_pool_by_authority_pubkey, get_staker_rewards,
  get_stake_account_for_staker, decrease_reward, decrease_stakers_rewards, update_pool_claimed,
  add_new_txn, get_txn_by_sig, add_new_claim,
}

-- CLAIMS_PROCESSING_AMOUNT, and the claims that a round of the system takes up.
abbrev pub claims_processing_amount : ℕ
claims_processing_amount = 10

unfoldable pub select_claims : HashMap ClaimKey ClaimsQueueItem → List (ClaimKey × ClaimsQueueItem)
select_claims queue = take claims_processing_amount queue

-- The accesses that the queries of a settlement get.
pub record Accesses : Type 0 where
  pub account : Access
  pub pool : Access
  pub decrease : List Access
  pub claimed : List Access
  pub txn : List Access
  pub txn_id : List Access
  pub claim : List Access

unfoldable pub settle_miner : Accesses → Pubkey → Pubkey → ℕ → ℕ → Step (Unit {0})
unfolding get_miner_by_pubkey_str get_pool_by_authority_pubkey decrease_reward update_pool_claimed
    add_new_txn get_txn_by_sig add_new_claim
settle_miner a wallet miner_pubkey amount signature = do
  miner_id ← unwrap a.account (get_miner_by_pubkey_str miner_pubkey)
  db_pool ← unwrap a.pool (get_pool_by_authority_pubkey wallet)
  until_ok a.decrease (decrease_reward miner_id amount)
  until_ok a.claimed (update_pool_claimed wallet amount)
  until_ok a.txn (add_new_txn signature)
  txn_id ← until_found a.txn_id (get_txn_by_sig signature)
  until_ok a.claim (
      add_new_claim
        (record { miner_id = miner_id; pool_id = db_pool.id; txn_id = txn_id; amount = amount }))

unfoldable pub settle_staker : Accesses → Pubkey → Pubkey → Pubkey → ℕ → ℕ → Step (Unit {0})
unfolding get_pool_by_authority_pubkey get_stake_account_for_staker decrease_stakers_rewards
    update_pool_claimed add_new_txn
settle_staker a wallet staker_pubkey mint amount signature = do
  db_pool ← unwrap a.pool (get_pool_by_authority_pubkey wallet)
  staker ← unwrap a.account (get_stake_account_for_staker db_pool.id staker_pubkey mint)
  until_ok a.decrease (decrease_stakers_rewards staker.id amount)
  until_ok a.claimed (update_pool_claimed wallet amount)
  until_ok a.txn (add_new_txn signature)

-- How the processing of a claim ends. `undone` is no block hash, or a transaction that expired or
-- failed: the claim stays queued for the next round.
pub data Ending : Type 0 where
  rejected abandoned undone settled crashed unfinished : Ending

-- What the node and the database answer to one run of `process_claim`.
pub record Answers : Type 0 where
  pub balance : Access
  pub token_account : TokenAccount
  pub has_blockhash : Bool
  pub sends : List (Option ℕ)
  pub polls : List Poll
  pub accesses : Accesses

pub record Processed : Type 0 where
  pub ending : Ending
  pub queue : HashMap ClaimKey ClaimsQueueItem
  pub ledger : Ledger
  pub instructions : List Instruction

abbrev pub ending_of : Progress (Unit {0}) → Ending
ending_of (done u) = settled
ending_of panicked = crashed
ending_of trying = unfinished

-- A settled claim leaves the queue.
abbrev pub finish :
    HashMap ClaimKey ClaimsQueueItem
    → ClaimKey
    → List Instruction
    → Progress (Unit {0}) × Ledger
    → Processed
finish queue key ixs (done u, l) = record {
  ending = settled;
  queue = remove key queue;
  ledger = l;
  instructions = ixs;
}
finish queue key ixs (p, l) = record {
  ending = ending_of p;
  queue = queue;
  ledger = l;
  instructions = ixs;
}

abbrev pub stop : Ending → HashMap ClaimKey ClaimsQueueItem → Ledger → List Instruction → Processed
stop ending queue l ixs = record { ending = ending; queue = queue; ledger = l; instructions = ixs }

-- `confirmed` settles the claim, with `settle` under its signature.
abbrev pub after_confirmation :
    HashMap ClaimKey ClaimsQueueItem
    → ClaimKey
    → Ledger
    → List Instruction
    → Step (Unit {0})
    → Confirmation
    → Processed
after_confirmation queue key l ixs settle confirmed = finish queue key ixs (settle l)
after_confirmation queue key l ixs settle confirming = stop unfinished queue l ixs
after_confirmation queue key l ixs settle expired = stop undone queue l ixs
after_confirmation queue key l ixs settle failed = stop undone queue l ixs

abbrev pub after_sending :
    List Poll
    → HashMap ClaimKey ClaimsQueueItem
    → ClaimKey
    → Ledger
    → List Instruction
    → (ℕ → Step (Unit {0}))
    → Sending
    → Processed
after_sending polls queue key l ixs settle sending = stop unfinished queue l ixs
after_sending polls queue key l ixs settle given_up = stop abandoned (remove key queue) l ixs
after_sending polls queue key l ixs settle (sent signature) =
    after_confirmation queue key l ixs (settle signature) (confirm 600 polls)

-- From the transaction on.
unfoldable pub pay :
    Answers
    → HashMap ClaimKey ClaimsQueueItem
    → ClaimKey
    → Ledger
    → List Instruction
    → (ℕ → Step (Unit {0}))
    → Processed
unfolding send_claim confirm
pay env queue key l ixs settle =
    if env.has_blockhash
    then after_sending env.polls queue key l ixs settle (send_claim 1 env.sends)
    else stop undone queue l []

-- The checks before: the account is found and its balance covers the claim.
abbrev pub if_covered :
    {A : Type 0}
    → (A → ℕ)
    → ℕ
    → HashMap ClaimKey ClaimsQueueItem
    → ClaimKey
    → Ledger
    → Processed
    → Result A
    → Processed
if_covered balance_of amount queue key l paid (err e) = stop rejected (remove key queue) l []
if_covered balance_of amount queue key l paid (ok account) =
    if ltb (balance_of account) amount then stop rejected (remove key queue) l [] else paid

unfoldable pub process_miner_claim :
    Answers
    → Pubkey
    → HashMap ClaimKey ClaimsQueueItem
    → Ledger
    → Pubkey
    → ClaimsQueueItem
    → Processed
unfolding pay settle_miner claim_instructions get_miner_rewards
process_miner_claim env wallet queue l miner_pubkey item =
    let key : ClaimKey = (miner_pubkey, none) in
    let ixs = claim_instructions miner_ata_fee item.amount item.receiver_pubkey env.token_account in
    if_covered (λ (r : Reward). r.balance) item.amount queue key l
      (pay env queue key l ixs (settle_miner env.accesses wallet miner_pubkey item.amount))
      (interact env.balance (get_miner_rewards miner_pubkey l))

unfoldable pub process_staker_claim :
    Answers
    → Pubkey
    → HashMap ClaimKey ClaimsQueueItem
    → Ledger
    → Pubkey
    → Pubkey
    → ClaimsQueueItem
    → Processed
unfolding pay settle_staker claim_instructions get_staker_rewards
process_staker_claim env wallet queue l staker_pubkey mint item =
    let key : ClaimKey = (staker_pubkey, some mint) in
    let ixs =
      claim_instructions staker_ata_fee item.amount item.receiver_pubkey env.token_account in
    if_covered (λ (a : StakeAccount). a.rewards_balance) item.amount queue key l
      (pay env queue key l ixs (settle_staker env.accesses wallet staker_pubkey mint item.amount))
      (interact env.balance (get_staker_rewards staker_pubkey mint l))

abbrev pub by_mint : Option Pubkey → Processed → (Pubkey → Processed) → Processed
by_mint none miner staker = miner
by_mint (some mint) miner staker = staker mint

unfoldable pub process_claim :
    Answers
    → Pubkey
    → HashMap ClaimKey ClaimsQueueItem
    → Ledger
    → Pubkey
    → ClaimsQueueItem
    → Processed
unfolding process_miner_claim process_staker_claim
process_claim env wallet queue l user_pubkey item =
    by_mint item.mint (process_miner_claim env wallet queue l user_pubkey item)
      (λ mint. process_staker_claim env wallet queue l user_pubkey mint item)

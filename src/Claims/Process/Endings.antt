-- ===== src/Claims/Process/Endings.antt =====
-- What one run of `process_claim` (src/systems/claim_system.rs) does to the queue and to the tables.
use coal_pool_server.Prelude.{
  ℕ, ◌≡◌, refl, Option, none, some, List, ltb, if_rule, nat_eq, option_eq, pair_eq,
}
use coal_pool_server.Prelude.HashMap.{HashMap, remove}
use coal_pool_server.State.{Pubkey}
use coal_pool_server.Models.{Reward, StakeAccount}
use coal_pool_server.Database.{Result, ok, err, interact}
use coal_pool_server.Claims.{ClaimKey, ClaimsQueueItem}
use coal_pool_server.Claims.Ledger.{
  Ledger, Step, Progress, done, panicked, trying, get_miner_rewards, get_staker_rewards,
}
use coal_pool_server.Claims.Transaction.{
  Instruction, Sending, sent, given_up, sending, send_claim, Confirmation, confirmed, expired,
  failed, confirming, confirm, claim_instructions, miner_ata_fee, staker_ata_fee, Poll,
}
use coal_pool_server.Claims.Process.Panics.{IsClean, settle_miner-IsClean, settle_staker-IsClean}
use coal_pool_server.Claims.Process.{
  Ending, rejected, abandoned, undone, settled, crashed, unfinished, Answers, Processed, pay,
  process_miner_claim, process_staker_claim, process_claim, settle_miner, settle_staker, finish,
  after_confirmation, after_sending, if_covered, by_mint,
}

-- The queue after a claim under `key` has come to its end: a claim that is turned down, given up or
-- settled leaves it, and any other stays, also one whose task has panicked, for the next round.
abbrev pub queue_after :
    Ending → ClaimKey → HashMap ClaimKey ClaimsQueueItem → HashMap ClaimKey ClaimsQueueItem
queue_after rejected key queue = remove key queue
queue_after abandoned key queue = remove key queue
queue_after settled key queue = remove key queue
queue_after undone key queue = queue
queue_after crashed key queue = queue
queue_after unfinished key queue = queue

-- The tables after a claim that came to an end without being settled are those before it. A run that
-- still waits or tries has come to no end.
abbrev pub KeepsLedger : Ending → Ledger → Ledger → Type 0
KeepsLedger rejected l l' = l' ≡ l
KeepsLedger abandoned l l' = l' ≡ l
KeepsLedger undone l l' = l' ≡ l
KeepsLedger settled l l' = Unit
KeepsLedger crashed l l' = l' ≡ l
KeepsLedger unfinished l l' = Unit

abbrev pub IsEnd : HashMap ClaimKey ClaimsQueueItem → ClaimKey → Ledger → Processed → Type 0
IsEnd queue key l r = (r.queue ≡ queue_after r.ending key queue) × KeepsLedger r.ending l r.ledger

finish-IsEnd :
    (queue : HashMap ClaimKey ClaimsQueueItem) (key : ClaimKey) (l : Ledger)
    (ixs : List Instruction) (r : Progress (Unit {0}) × Ledger)
    → (r.0 ≡ panicked → r.1 ≡ l)
    → IsEnd queue key l (finish queue key ixs r)
finish-IsEnd queue key l ixs (done u, l') clean = (refl, tt)
finish-IsEnd queue key l ixs (panicked, l') clean = (refl, clean refl)
finish-IsEnd queue key l ixs (trying, l') clean = (refl, tt)

after_confirmation-IsEnd :
    (queue : HashMap ClaimKey ClaimsQueueItem) (key : ClaimKey) (l : Ledger)
    (ixs : List Instruction) (settle : Step (Unit {0})) (c : Confirmation)
    → IsClean settle
    → IsEnd queue key l (after_confirmation queue key l ixs settle c)
after_confirmation-IsEnd queue key l ixs settle confirmed clean =
    finish-IsEnd queue key l ixs (settle l) (clean l)
after_confirmation-IsEnd queue key l ixs settle confirming clean = (refl, tt)
after_confirmation-IsEnd queue key l ixs settle expired clean = (refl, refl)
after_confirmation-IsEnd queue key l ixs settle failed clean = (refl, refl)

after_sending-IsEnd :
    (polls : List Poll) (queue : HashMap ClaimKey ClaimsQueueItem) (key : ClaimKey) (l : Ledger)
    (ixs : List Instruction) (settle : ℕ → Step (Unit {0})) (s : Sending)
    → ((signature : ℕ) → IsClean (settle signature))
    → IsEnd queue key l (after_sending polls queue key l ixs settle s)
after_sending-IsEnd polls queue key l ixs settle sending clean = (refl, tt)
after_sending-IsEnd polls queue key l ixs settle given_up clean = (refl, refl)
after_sending-IsEnd polls queue key l ixs settle (sent signature) clean =
    after_confirmation-IsEnd queue key l ixs (settle signature) (confirm 600 polls)
      (clean signature)

pay-IsEnd :
    (env : Answers) (queue : HashMap ClaimKey ClaimsQueueItem) (key : ClaimKey) (l : Ledger)
    (ixs : List Instruction) (settle : ℕ → Step (Unit {0}))
    → ((signature : ℕ) → IsClean (settle signature))
    → IsEnd queue key l (pay env queue key l ixs settle)
unfolding pay
pay-IsEnd env queue key l ixs settle clean =
    if_rule (IsEnd queue key l) env.has_blockhash
      (λ found. after_sending-IsEnd env.polls queue key l ixs settle (send_claim 1 env.sends) clean)
      λ not_found. (refl, refl)

if_covered-IsEnd :
    {A : Type 0} (balance_of : A → ℕ) (amount : ℕ) (queue : HashMap ClaimKey ClaimsQueueItem)
    (key : ClaimKey) (l : Ledger) (paid : Processed) (r : Result A)
    → IsEnd queue key l paid
    → IsEnd queue key l (if_covered balance_of amount queue key l paid r)
if_covered-IsEnd balance_of amount queue key l paid (err e) h = (refl, refl)
if_covered-IsEnd balance_of amount queue key l paid (ok account) h =
    if_rule (IsEnd queue key l) (ltb (balance_of account) amount) (λ low. (refl, refl)) λ high. h

by_mint-IsEnd :
    (queue : HashMap ClaimKey ClaimsQueueItem) (user : Pubkey) (l : Ledger) (m : Option Pubkey)
    (miner : Processed) (staker : Pubkey → Processed)
    → IsEnd queue (user, none) l miner
    → ((mint : Pubkey) → IsEnd queue (user, some mint) l (staker mint))
    → IsEnd queue (user, m) l (by_mint m miner staker)
by_mint-IsEnd queue user l none miner staker h k = h
by_mint-IsEnd queue user l (some mint) miner staker h k = k mint

process_miner_claim-IsEnd :
    (env : Answers) (wallet : Pubkey) (queue : HashMap ClaimKey ClaimsQueueItem) (l : Ledger)
    (user : Pubkey) (item : ClaimsQueueItem)
    → IsEnd queue (user, none) l (process_miner_claim env wallet queue l user item)
unfolding process_miner_claim
process_miner_claim-IsEnd env wallet queue l user item =
    let ixs = claim_instructions miner_ata_fee item.amount item.receiver_pubkey env.token_account in
    let settle = settle_miner env.accesses wallet user item.amount in
    if_covered-IsEnd (λ (r : Reward). r.balance) item.amount queue (user, none) l
      (pay env queue (user, none) l ixs settle) (interact env.balance (get_miner_rewards user l))
      (pay-IsEnd env queue (user, none) l ixs settle
        λ signature. settle_miner-IsClean env.accesses wallet user item.amount signature)

process_staker_claim-IsEnd :
    (env : Answers) (wallet : Pubkey) (queue : HashMap ClaimKey ClaimsQueueItem) (l : Ledger)
    (user : Pubkey) (item : ClaimsQueueItem) (mint : Pubkey)
    → IsEnd queue (user, some mint) l (process_staker_claim env wallet queue l user mint item)
unfolding process_staker_claim
process_staker_claim-IsEnd env wallet queue l user item mint =
    let ixs =
      claim_instructions staker_ata_fee item.amount item.receiver_pubkey env.token_account in
    let settle = settle_staker env.accesses wallet user mint item.amount in
    if_covered-IsEnd (λ (a : StakeAccount). a.rewards_balance) item.amount queue (user, some mint) l
      (pay env queue (user, some mint) l ixs settle)
      (interact env.balance (get_staker_rewards user mint l))
      (pay-IsEnd env queue (user, some mint) l ixs settle
        λ signature. settle_staker-IsClean env.accesses wallet user item.amount signature mint)

-- The queue after a claim is that before it without its entry if the claim was turned down, given
-- up or settled, and is that before it otherwise, and a claim that was turned down or given up, that
-- expired or failed on chain, found no block hash, or whose task has panicked, leaves the tables as they
-- were.
pub process_claim-IsEnd :
    (env : Answers) (wallet : Pubkey) (queue : HashMap ClaimKey ClaimsQueueItem) (l : Ledger)
    (user_pubkey : Pubkey) (item : ClaimsQueueItem)
    → IsEnd queue (user_pubkey, item.mint) l (process_claim env wallet queue l user_pubkey item)
unfolding process_claim
process_claim-IsEnd env wallet queue l user item =
    by_mint-IsEnd queue user l item.mint (process_miner_claim env wallet queue l user item)
      (λ mint. process_staker_claim env wallet queue l user mint item)
      (process_miner_claim-IsEnd env wallet queue l user item)
      (process_staker_claim-IsEnd env wallet queue l user item)

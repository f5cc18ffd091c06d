-- ===== src/Claims/Process/Tests.antt =====
-- Two claims of a miner: one that is paid at the second attempt, and one that is worth too little.
use coal_pool_server.Prelude.{
  ◌+◌, ◌-◌, ◌^◌, ◌≤◌, ◌<◌, ◌≡◌, refl, ap, true, none, some, List, [], ◌∷◌, arith, u64_mod,
}
use coal_pool_server.Prelude.HashMap.{HashMap}
use coal_pool_server.Database.{granted, no_connection, ok, interact}
use coal_pool_server.Models.{Reward, Pool}
use coal_pool_server.Claims.{ClaimKey, ClaimsQueueItem}
use coal_pool_server.Claims.Ledger.{Ledger, Progress, done, get_miner_rewards, find_reward}
use coal_pool_server.Claims.Transaction.{
  missing, confirmed, succeeded, unfinalized, Poll, send_claim, confirm, claim_amount_of,
  miner_ata_fee, funded,
}
use coal_pool_server.Claims.Process.{
  Accesses, Answers, settled, settle_miner, process_claim, process_miner_claim, pay, finish,
}
use coal_pool_server.Claims.Process.Steps.{settled_by, Fits}
use coal_pool_server.Models.{StakeAccount}
use coal_pool_server.Claims.Process.{settle_staker}
use coal_pool_server.Claims.Ledger.{find_pool_stake}
use coal_pool_server.Claims.Process.StakerSettlement.{StakerOutcome, settle_staker-Outcome}
use coal_pool_server.Claims.Process.Settlement.{Outcome, settle_miner-eq, settle_miner-Outcome}
use coal_pool_server.Claims.Transaction.Sends.{claim_amount_of_wraps}
use coal_pool_server.Claims.Process.Endings.{IsEnd, process_claim-IsEnd}
use coal_pool_server.Claims.Process.Paid.{IsPaid, process_miner_claim-settled}

abbrev pool : Pool
pool = record { id = 1; authority_pubkey = 500; total_rewards = 9000; claimed_rewards = 100 }

abbrev ledger : Ledger
ledger = record {
  miners = (7, 11) ∷ [];
  rewards =
      record { id = 1; balance = 9000; miner_id = 11 }
      ∷ record { id = 2; balance = 50; miner_id = 22 }
      ∷ [];
  stake_accounts = [];
  pools = (500, pool) ∷ [];
  txns = 31 ∷ [];
  claims = [];
}

abbrev accesses : Accesses
accesses = record {
  account = granted;
  pool = granted;
  decrease = no_connection ∷ granted ∷ [];
  claimed = granted ∷ [];
  txn = granted ∷ [];
  txn_id = granted ∷ [];
  claim = granted ∷ [];
}

abbrev item : ClaimsQueueItem
item = record { receiver_pubkey = 7; amount = 6000; mint = none }

abbrev queue : HashMap ClaimKey ClaimsQueueItem
queue = ((7, none), item) ∷ []

abbrev polls : List Poll
polls =
    record { elapsed = 5; status = unfinalized } ∷ record { elapsed = 10; status = succeeded } ∷ []

abbrev env : Answers
env = record {
  balance = granted;
  token_account = funded;
  has_blockhash = true;
  sends = none ∷ some 77 ∷ [];
  polls = polls;
  accesses = accesses;
}

fits : Fits 500 7 6000 11 pool ledger
fits = (refl, refl, (λ h. omega arith, (λ h. absurd (omega (arith, h)), tt)), omega arith)

settle_miner-eq_example :
    settle_miner accesses 500 7 6000 77 ledger ≡ (done tt, settled_by 500 11 pool 6000 77 ledger)
settle_miner-eq_example =
    settle_miner-eq accesses 500 7 6000 77 11 pool ledger fits (refl, refl) (tt, tt, tt, tt, tt)

settle_miner-Outcome_example :
    Outcome 500 11 pool 6000 77 ledger (settle_miner accesses 500 7 6000 77 ledger)
settle_miner-Outcome_example = settle_miner-Outcome accesses 500 7 6000 77 11 pool ledger fits

process_claim-IsEnd_example :
    IsEnd queue (7, none) ledger (process_claim env 500 queue ledger 7 item)
process_claim-IsEnd_example = process_claim-IsEnd env 500 queue ledger 7 item

process_miner_claim-ending : (process_miner_claim env 500 queue ledger 7 item).ending ≡ settled
unfolding process_miner_claim get_miner_rewards find_reward pay send_claim confirm
process_miner_claim-ending =
    ap (λ (r : Progress (Unit {0}) × Ledger). (finish queue (7, none) [] r).ending)
      (settle_miner-eq accesses 500 7 6000 77 11 pool ledger fits (refl, refl) (tt, tt, tt, tt, tt))

process_miner_claim-settled_example :
    ((account : Reward) × (interact granted (get_miner_rewards 7 ledger) ≡ ok account)
      × (6000 ≤ account.balance))
    × IsPaid env
process_miner_claim-settled_example =
    process_miner_claim-settled env 500 queue ledger 7 item process_miner_claim-ending

confirm-confirmed : confirm 600 polls ≡ confirmed
unfolding confirm
confirm-confirmed = refl

claim_amount_of_wraps_example :
    (claim_amount_of miner_ata_fee 6000 missing ≡ u64_mod - miner_ata_fee + 6000)
    × (2 ^ 63 < claim_amount_of miner_ata_fee 6000 missing)
claim_amount_of_wraps_example = claim_amount_of_wraps 6000 (omega arith) (omega arith)

abbrev staked : StakeAccount
staked = record {
  id = 4;
  pool_id = 1;
  mint_pubkey = 60;
  staker_pubkey = 8;
  stake_pda = 90;
  rewards_balance = 7000;
  staked_balance = 1;
}

abbrev staker_ledger : Ledger
staker_ledger = record ledger { stake_accounts = staked ∷ [] }

settle_staker-Outcome_example :
    StakerOutcome 500 4 pool 6000 77 staker_ledger
      (settle_staker accesses 500 8 60 6000 77 staker_ledger)
unfolding find_pool_stake
settle_staker-Outcome_example =
    settle_staker-Outcome accesses 500 8 60 6000 77 staked pool staker_ledger
      (refl, refl, (λ e. omega arith, tt), omega arith)

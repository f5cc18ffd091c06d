-- ===== src/Claims/Process/Paid.antt =====
-- What a settled claim rests on: src/systems/claim_system.rs.
use coal_pool_server.Prelude.{
  ℕ, ◌≤◌, ◌≡◌, refl, Option, none, some, List, ◌∷◌, arith, ltb, if_rule, nat_eq, option_eq, pair_eq,
}
use coal_pool_server.Prelude.HashMap.{HashMap}
use coal_pool_server.State.{Pubkey}
use coal_pool_server.Models.{Reward}
use coal_pool_server.Database.{Result, ok, err, interact}
use coal_pool_server.Claims.{ClaimKey, ClaimsQueueItem}
use coal_pool_server.Claims.Ledger.{Ledger, Step, get_miner_rewards}
use coal_pool_server.Claims.Transaction.Sends.{failing, send_claim-sent, Confirms, confirm-Confirms}
use coal_pool_server.Claims.Transaction.{
  Instruction, Sending, sent, given_up, sending, send_claim, Confirmation, confirmed, expired,
  failed, confirming, confirm, claim_instructions, miner_ata_fee,
}
use coal_pool_server.Claims.Process.{
  settled, Answers, Processed, pay, process_miner_claim, settle_miner, after_confirmation,
  after_sending, if_covered,
}

-- The node took the transaction after ten failures or fewer, and its signature was seen final.
abbrev pub IsPaid : Answers → Type 0
IsPaid env =
    ((signature : ℕ) × (failures : ℕ) × (rest : List (Option ℕ)) × (env.sends
        ≡ failing failures (some signature ∷ rest))
      × (failures ≤ 10))
    × Confirms 600 env.polls

pay-IsPaid :
    (env : Answers) (queue : HashMap ClaimKey ClaimsQueueItem) (key : ClaimKey) (l : Ledger)
    (ixs : List Instruction) (settle : ℕ → Step (Unit {0}))
    → (pay env queue key l ixs settle).ending ≡ settled
    → IsPaid env
unfolding pay
pay-IsPaid env queue key l ixs settle =
    if_rule (λ (r : Processed). r.ending ≡ settled → IsPaid env) env.has_blockhash
      (λ found. paid (send_claim 1 env.sends) refl) λ not_found. λ e. absurd (cc e)
  where
    paid_at :
        (s : Sending) (signature : ℕ)
        → send_claim 1 env.sends ≡ sent signature
        → (c : Confirmation) → confirm 600 env.polls ≡ c
        → (after_confirmation queue key l ixs (settle signature) c).ending ≡ settled
        → IsPaid env
    paid_at s signature e confirmed e' h =
        let (n, rest, its, bound) = send_claim-sent 1 env.sends signature (omega arith) e in
        ((signature, n, rest, its, omega (arith, bound)), confirm-Confirms 600 env.polls e')
    paid_at s signature e confirming e' h = absurd (cc h)
    paid_at s signature e expired e' h = absurd (cc h)
    paid_at s signature e failed e' h = absurd (cc h)

    paid :
        (s : Sending)
        → send_claim 1 env.sends ≡ s
        → (after_sending env.polls queue key l ixs settle s).ending ≡ settled
        → IsPaid env
    paid sending e h = absurd (cc h)
    paid given_up e h = absurd (cc h)
    paid (sent signature) e h = paid_at (sent signature) signature e (confirm 600 env.polls) refl h

if_covered-settled :
    {A : Type 0} (balance_of : A → ℕ) (amount : ℕ) (queue : HashMap ClaimKey ClaimsQueueItem)
    (key : ClaimKey) (l : Ledger) (paid : Processed) (r : Result A)
    → (if_covered balance_of amount queue key l paid r).ending ≡ settled
    → ((account : A) × (r ≡ ok account) × (amount ≤ balance_of account)) × (paid.ending ≡ settled)
if_covered-settled {A} balance_of amount queue key l paid (err e) h = absurd (cc h)
if_covered-settled {A} balance_of amount queue key l paid (ok account) h =
    if_rule
      (λ (r : Processed).
        r.ending ≡ settled
        → ((a : A) × (Result.ok account ≡ ok a) × (amount ≤ balance_of a))
          × (paid.ending ≡ settled))
      (ltb (balance_of account) amount) (λ low. λ k. absurd (cc k))
      (λ high. λ k. ((account, refl, ground (arith, high)), k)) h

-- A miner's claim is settled only if the reward row of the miner covered its amount, the node took
-- the transaction after ten failures or fewer, and its signature was seen final, without an error, in
-- time.
pub process_miner_claim-settled :
    (env : Answers) (wallet : Pubkey) (queue : HashMap ClaimKey ClaimsQueueItem) (l : Ledger)
    (miner_pubkey : Pubkey) (item : ClaimsQueueItem)
    → (process_miner_claim env wallet queue l miner_pubkey item).ending ≡ settled
    → ((account : Reward) × (interact env.balance (get_miner_rewards miner_pubkey l) ≡ ok account)
        × (item.amount ≤ account.balance))
      × IsPaid env
unfolding process_miner_claim
process_miner_claim-settled env wallet queue l user item h =
    let ixs = claim_instructions miner_ata_fee item.amount item.receiver_pubkey env.token_account in
    let settle = settle_miner env.accesses wallet user item.amount in
    let (covered, ends) =
      if_covered-settled (λ (r : Reward). r.balance) item.amount queue (user, none) l
        (pay env queue (user, none) l ixs settle) (interact env.balance (get_miner_rewards user l))
        h in
    (covered, pay-IsPaid env queue (user, none) l ixs settle ends)

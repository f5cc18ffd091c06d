-- ===== src/Claims/Transaction/Sends.antt =====
-- The loops of src/systems/claim_system.rs that send a claim and wait for it, and what is sent.
use coal_pool_server.Prelude.{
  ℕ, zero, suc, ◌+◌, ◌-◌, ◌^◌, ◌≤◌, ◌<◌, ◌≡◌, ap, ◌∙◌, ◌⊎◌, ◌≢◌, false, Option, none, some, List,
  [], ◌∷◌, arith, ltb, u64_mod, Bool-cases, inl, inr,
}
use coal_pool_server.Claims.{claim_minimum}
use coal_pool_server.Claims.Transaction.{
  TokenAccount, funded, unfunded, missing, miner_ata_fee, claim_amount_of, sent, given_up,
  send_claim, Poll, succeeded, confirmed, confirming, confirm,
}

-- `n` attempts that fail, before the others.
abbrev pub failing : ℕ → List (Option ℕ) → List (Option ℕ)
failing zero rest = rest
failing (suc n) rest = none ∷ failing n rest

send_claim-failing :
    (n k : ℕ) (rest : List (Option ℕ))
    → k + n ≤ 11
    → send_claim k (failing n rest) ≡ send_claim (k + n) rest
unfolding send_claim
send_claim-failing zero k rest le = ap (λ j. send_claim j rest) (omega arith)
send_claim-failing (suc n) k rest le =
    let test : ltb 10 k ≡ false = ground (arith, le) in
    rw (send_claim, test)
      (send_claim-failing n (k + 1) rest (omega (arith, le))
        ∙ ap (λ j. send_claim j rest) (omega arith))

-- If the node takes the claim after ten failures or fewer it is sent, whatever would follow, and
-- at the eleventh failure in a row it is given up.
pub send_claim_lem :
    (n signature : ℕ) (rest : List (Option ℕ))
    → n ≤ 10
    → (send_claim 1 (failing n (some signature ∷ rest)) ≡ sent signature)
      × (send_claim 1 (failing 11 rest) ≡ given_up)
unfolding send_claim
send_claim_lem n signature rest le = (
  send_claim-failing n 1 (some signature ∷ rest) (omega (arith, le)),
  send_claim-failing 10 1 (none ∷ rest) (omega arith),
)

-- A claim that was sent was taken by the node after ten failures or fewer.
pub send_claim-sent :
    (k : ℕ) (sends : List (Option ℕ)) (signature : ℕ)
    → k ≤ 11
    → send_claim k sends ≡ sent signature
    → (n : ℕ) × (rest : List (Option ℕ)) × (sends ≡ failing n (some signature ∷ rest))
      × (n + k ≤ 11)
unfolding send_claim
send_claim-sent k [] signature late e = absurd (cc e)
send_claim-sent k (some s ∷ rest) signature late e =
    let its : s ≡ signature = cc e in
    (0, rest, ap (λ (x : ℕ). some x ∷ rest) its, omega (arith, late))
send_claim-sent k (none ∷ rest) signature late e = elim (Bool-cases (ltb 10 k)) [
  | inl out ↦ absurd (ground (arith, e, out))
  | inr in_time ↦
      let (n, rest', its, bound) =
        send_claim-sent (k + 1) rest signature (ground (arith, in_time))
          (ground (arith, e, in_time)) in
      (suc n, rest', ap (λ (l : List (Option ℕ)). none ∷ l) its, omega (arith, bound))
]

-- A look within the limit that shows the signature final, without an error.
abbrev pub Confirms : ℕ → List Poll → Type 0
Confirms limit [] = ⊥
Confirms limit (p ∷ rest) = (p.elapsed < limit) × ((p.status ≡ succeeded) ⊎ Confirms limit rest)

-- Some look comes after the limit.
abbrev pub RunsOut : ℕ → List Poll → Type 0
RunsOut limit [] = ⊥
RunsOut limit (p ∷ rest) = (limit ≤ p.elapsed) ⊎ RunsOut limit rest

-- A claim is confirmed only if its signature was seen final without an error, before the limit,
-- with every look before that within the limit too.
pub confirm-Confirms :
    (limit : ℕ) (polls : List Poll) → confirm limit polls ≡ confirmed → Confirms limit polls
unfolding confirm
confirm-Confirms limit [] e = absurd (ground (arith, e))
confirm-Confirms limit (p ∷ rest) e = ground (arith, e, confirm-Confirms limit rest)

-- Once the clock has passed the limit the wait is over.
pub confirm-ends :
    (limit : ℕ) (polls : List Poll) → RunsOut limit polls → confirm limit polls ≢ confirming
unfolding confirm
confirm-ends limit [] out = absurd out
confirm-ends limit (p ∷ rest) out = ground (arith, out, confirm-ends limit rest)

-- What is sent is never more than what was claimed, if the claim is worth the token account that
-- it may have to create.
pub claim_amount_of-le :
    (fee amount : ℕ) (account : TokenAccount)
    → amount < u64_mod
    → fee ≤ amount
    → claim_amount_of fee amount account ≤ amount
unfolding claim_amount_of
claim_amount_of-le fee amount missing room worth = omega (arith, room, worth)
claim_amount_of-le fee amount funded room worth = omega arith
claim_amount_of-le fee amount unfunded room worth = omega arith

-- A miner's claim that is not below the minimum and is worth less than the token account that it
-- has to create wraps around: it sends its amount and 2^64 minus the price of the account, which
-- is more than 2^63.
pub claim_amount_of_wraps :
    (amount : ℕ)
    → claim_minimum ≤ amount
    → amount < miner_ata_fee
    → (claim_amount_of miner_ata_fee amount missing ≡ u64_mod - miner_ata_fee + amount)
      × (2 ^ 63 < claim_amount_of miner_ata_fee amount missing)
unfolding claim_amount_of
claim_amount_of_wraps amount enough small =
    (omega (arith, enough, small), omega (arith, enough, small))

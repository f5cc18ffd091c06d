-- ===== src/Claims/Transaction.antt =====
-- The transaction of a claim (src/systems/claim_system.rs): its instructions, and the loops that send
-- it and wait for it. What the node answers is an argument.
pub mod Sends
use coal_pool_server.Prelude.{
  ℕ, ◌+◌, ◌-◌, Bool, true, false, Option, none, some, List, [], ◌∷◌, ◌++◌, if◌then◌else◌, ltb, leb,
  sub64, take, nat_eq, option_eq, pair_eq,
}
use coal_pool_server.State.{Pubkey}

-- The answer about the receiver's token account: a balance, none, or an error.
pub data TokenAccount : Type 0 where
  funded unfunded missing : TokenAccount

pub data Instruction : Type 0 where
  set_compute_unit_price : ℕ → Instruction
  create_associated_token_account : Pubkey → Instruction
  undelegate_stake : Pubkey → ℕ → Instruction

-- What the claim costs if it creates the token account: for a staker, and for a miner.
abbrev pub staker_ata_fee : ℕ
staker_ata_fee = 1000

abbrev pub miner_ata_fee : ℕ
miner_ata_fee = 2000000000

unfoldable pub claim_amount_of : ℕ → ℕ → TokenAccount → ℕ
claim_amount_of fee amount missing = sub64 amount fee
claim_amount_of fee amount account = amount

abbrev pub create_ata : Pubkey → TokenAccount → List Instruction
create_ata receiver funded = []
create_ata receiver account = create_associated_token_account receiver ∷ []

-- The claim goes to the token account of `receiver`.
unfoldable pub claim_instructions : ℕ → ℕ → Pubkey → TokenAccount → List Instruction
unfolding claim_amount_of
claim_instructions fee amount receiver account =
    set_compute_unit_price 100000
    ∷ (create_ata receiver account
        ++ undelegate_stake receiver (claim_amount_of fee amount account) ∷ [])

pub data Sending : Type 0 where
  sent : ℕ → Sending
  given_up : Sending
  sending : Sending

-- The loop that sends the transaction; an attempt gives a signature or fails.
unfoldable pub send_claim : ℕ → List (Option ℕ) → Sending
send_claim send_attempts [] = sending
send_claim send_attempts (some signature ∷ rest) = sent signature
send_claim send_attempts (none ∷ rest) =
    if ltb 10 send_attempts then given_up else send_claim (send_attempts + 1) rest

-- What a look at the signature shows: an error or no status yet, a status that is not final, or a
-- final one.
pub data SignatureStatus : Type 0 where
  unknown unfinalized succeeded failed_on_chain : SignatureStatus

pub record Poll : Type 0 where
  pub elapsed : ℕ
  pub status : SignatureStatus

pub data Confirmation : Type 0 where
  confirmed expired failed confirming : Confirmation

-- The loop that waits for the signature, for `limit` seconds at most.
unfoldable pub confirm : ℕ → List Poll → Confirmation
confirm limit [] = confirming
confirm limit (p ∷ rest) =
    let later = confirm limit rest in
    if leb limit p.elapsed then expired else elim p.status [
      | unknown ↦ later
      | unfinalized ↦ later
      | succeeded ↦ confirmed
      | failed_on_chain ↦ failed
    ]

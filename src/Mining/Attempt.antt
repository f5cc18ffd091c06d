-- ===== src/Mining/Attempt.antt =====
-- One turn of the `for` loop of `pool_submission_system` (src/systems/pool_submission_system.rs): the
-- transaction that it builds, and how it sends it and waits for it. What the node answers is an argument.
pub mod Ends
use coal_pool_server.Prelude.{
  ℕ, ◌+◌, Bool, true, false, not, Option, none, some, List, [], ◌∷◌, ◌++◌, if◌then◌else◌, leb, ltb,
  add64,
}
use coal_pool_server.Prelude.Int.{ℤ, pos, ◌+ℤ◌, ◌-ℤ◌, leb_ℤ}
use coal_pool_server.State.{Pubkey, Proof, Drillx}
use coal_pool_server.Claims.Transaction.{
  Sending, sent, given_up, sending, Poll, Confirmation, confirmed, expired, failed, confirming,
  confirm,
}

-- The config of the mine, as far as it is read.
pub record MineConfig : Type 0 where
  pub last_reset_at : ℤ

-- What one attempt learns: the latest proof and config if they could be loaded, the clock, the tip
-- account and the bus that were drawn, whether there was a block hash, whether the simulation said that
-- the hash is invalid, what the sendings gave, and the looks at the signature.
pub record Findings : Type 0 where
  pub loaded : Option (Proof × MineConfig)
  pub now : ℕ
  pub tip_account : Pubkey
  pub bus : ℕ
  pub has_blockhash : Bool
  pub is_invalid_hash : Bool
  pub sends : List (Option ℕ)
  pub polls : List Poll

-- `expired_timer` counts from before the simulation.
unfoldable pub should_add_reset : Option (Proof × MineConfig) → ℕ → Bool
should_add_reset none now = false
should_add_reset (some (p, config)) now =
    leb_ℤ ((config.last_reset_at +ℤ pos 300) -ℤ pos now) (pos 5)

unfoldable pub cu_limit_of : Bool → ℕ
cu_limit_of add_reset = if add_reset then 625000 else 565000

unfoldable pub prio_fee_of : ℕ → Bool → ℕ
prio_fee_of fee add_reset = if add_reset then add64 fee 50000 else fee

-- The loop that sends: it gives up at the fourth failure.
unfoldable pub send_mine : ℕ → List (Option ℕ) → Sending
send_mine rpc_send_attempts [] = sending
send_mine rpc_send_attempts (some signature ∷ rest) = sent signature
send_mine rpc_send_attempts (none ∷ rest) =
    if leb 5 (rpc_send_attempts + 1) then given_up else send_mine (rpc_send_attempts + 1) rest

-- How an attempt ends. `stale`, `invalid_hash` and `not_sent` leave the loop, `no_blockhash` and
-- `unconfirmed` take its next turn, `mined` is the success, and `waiting` has not ended yet. From
-- `unconfirmed` on the transaction was sent, so the task that sends it again was spawned.
pub data AttemptEnd : Type 0 where
  stale : Proof → AttemptEnd
  invalid_hash not_sent no_blockhash unconfirmed : AttemptEnd
  mined : ℕ → AttemptEnd
  waiting : AttemptEnd

abbrev pub after_wait : ℕ → Confirmation → AttemptEnd
after_wait signature confirmed = mined signature
after_wait signature expired = unconfirmed
after_wait signature failed = unconfirmed
after_wait signature confirming = waiting

abbrev pub after_send : List Poll → Sending → AttemptEnd
after_send polls (sent signature) = after_wait signature (confirm 200 polls)
after_send polls given_up = not_sent
after_send polls sending = waiting

module _ (drillx : Drillx) where
  open drillx use {Solution, is_valid}

  pub data MineInstruction : Type 0 where
    set_compute_unit_limit set_compute_unit_price : ℕ → MineInstruction
    transfer : Pubkey → ℕ → MineInstruction
    auth reset : MineInstruction
    mine : Solution → ℕ → MineInstruction

  abbrev tip : ℕ → Pubkey → List MineInstruction
  tip jito_tip account = if ltb 0 jito_tip then transfer account jito_tip ∷ [] else []

  abbrev reset_if : Bool → List MineInstruction
  reset_if add_reset = if add_reset then reset ∷ [] else []

  unfoldable pub mine_instructions : ℕ → ℕ → Solution → Findings → List MineInstruction
  unfolding should_add_reset cu_limit_of prio_fee_of
  mine_instructions prio_fee jito_tip best f =
      let add_reset = should_add_reset f.loaded f.now in
      set_compute_unit_limit (cu_limit_of add_reset)
      ∷ set_compute_unit_price (prio_fee_of prio_fee add_reset)
      ∷ (tip jito_tip f.tip_account ++ (auth ∷ (reset_if add_reset ++ mine best f.bus ∷ [])))

  -- The check that the solution still solves the challenge of the latest proof.
  unfoldable pub outdated : Solution → Option (Proof × MineConfig) → Option Proof
  outdated best none = none
  outdated best (some (p, config)) = if is_valid best p.challenge then none else some p

  abbrev pub transact : Findings → AttemptEnd
  transact f =
      if not f.has_blockhash
      then no_blockhash
      else if f.is_invalid_hash
      then invalid_hash
      else after_send f.polls (send_mine 1 f.sends)

  abbrev pub unless_outdated : Option Proof → AttemptEnd → AttemptEnd
  unless_outdated (some p) end = stale p
  unless_outdated none end = end

  unfoldable pub attempt : Solution → Findings → AttemptEnd
  unfolding outdated send_mine confirm
  attempt best f = unless_outdated (outdated best f.loaded) (transact f)

-- ===== src/Claims.antt =====
-- The claims queue (src/main.rs): its state, and what the requests that fill it share. `Solana` is
-- what the handlers use of the `solana_sdk` crate. A request is handled in one step.
pub mod Requests
pub mod Stakers
pub mod Admission
pub mod StakerAdmission
pub mod Orderly
pub mod Cooldown
pub mod Ledger
pub mod Transaction
pub mod Process
mod Tests
use Prim.Native.String.{String}
use coal_pool_server.Prelude.{
  ℕ, ◌+◌, ◌-◌, Bool, true, false, Option, none, some, List, [], ◌∷◌, if◌then◌else◌, ltb, nat_eq,
  option_eq, pair_eq, sub64, leb,
}
use coal_pool_server.Prelude.Int.{ℤ}
use coal_pool_server.Prelude.HashMap.{HashMap, get, insert, contains_key}
use coal_pool_server.State.{Pubkey}

-- CLAIM_MINIMUM
abbrev pub claim_minimum : ℕ
claim_minimum = 5000

-- 48 hours in seconds.
abbrev pub cooldown_time : ℕ
cooldown_time = 172800

pub record Solana : Type 1 where
  pub Signature : Type 0
  pub pubkey_from_str : String → Option Pubkey
  pub signature_from_str : String → Option Signature
  pub verify : Signature → Pubkey → List ℕ → Bool

pub record ClaimsQueueItem : Type 0 where
  pub receiver_pubkey : Pubkey
  pub amount : ℕ
  pub mint : Option Pubkey

abbrev pub ClaimKey : Type 0
ClaimKey = Pubkey × Option Pubkey

-- `claim_cooldown` holds the second at which a key's last claim was accepted.
pub record ClaimsQueue : Type 0 where
  pub queue : HashMap ClaimKey ClaimsQueueItem
  pub claim_cooldown : HashMap Pubkey ℕ

pub data StatusCode : Type 0 where
  status_ok bad_request unauthorized too_many_requests internal_server_error : StatusCode

-- A body is a text, or a number in decimal.
pub data Body : Type 0 where
  text : String → Body
  number : ℤ → Body

pub record Response : Type 0 where
  pub status : StatusCode
  pub body : Body

abbrev pub reject : StatusCode → Body → ClaimsQueue → ClaimsQueue × Response
reject status body cq = (cq, record { status = status; body = body })

abbrev pub is_queued : ClaimsQueue → ClaimKey → Bool
is_queued cq key = contains_key key cq.queue

-- A key's last claim is less than 48 hours old.
abbrev pub in_cooldown : ClaimsQueue → Pubkey → ℕ → Bool
in_cooldown cq pubkey now = elim (get pubkey cq.claim_cooldown) [
  | none ↦ false
  | some last_processed ↦ ltb (now - last_processed) cooldown_time
]

-- The two insertions of an accepted claim.
abbrev pub enqueue : ClaimsQueue → ClaimKey → ClaimsQueueItem → ℕ → ClaimsQueue
enqueue cq key item now = record {
  queue = insert key item cq.queue;
  claim_cooldown = insert key.0 now cq.claim_cooldown;
}

abbrev pub accept : ClaimsQueue → ClaimKey → ClaimsQueueItem → ℕ → ClaimsQueue × Response
accept cq key item now =
    (enqueue cq key item now, record { status = status_ok; body = text "SUCCESS" })

-- A signed message is valid for 30 seconds. The difference of two `u64` wraps, so a time stamp ahead
-- of the clock is too old as well.
abbrev pub is_stale : ℕ → ℕ → Bool
is_stale now timestamp = leb 30 (sub64 now timestamp)

-- ===== src/Stakes.antt =====
-- The routes on delegated stakes (src/main.rs), and the accounts of the chain that they look at
-- (src/ore_utils.rs). Unstake has the three routes that take a stake back, Migrate the one that moves a
-- boost to the second version, Landing the wait for a transaction, and Passing
-- what a request has passed that reaches the node. The crates and the node are the
-- fields of `Crates` and `Node`.
pub mod Landing
pub mod Passing
pub mod Unstake
pub mod Migrate
pub mod Refresh
mod Tests
use Prim.Native.String.{String}
use coal_pool_server.Prelude.{
  ℕ, Bool, true, false, Option, none, some, List, [], ◌∷◌, if◌then◌else◌, ltb, length, nat_beq,
  ◌&&◌,
}
use coal_pool_server.State.{Pubkey}
use coal_pool_server.Claims.{StatusCode, Response, bad_request, internal_server_error, text}

-- A seed of an address: a text, one of the constants of ore_miner_delegation, or the bytes of a key.
pub data Seed : Type 0 where
  label : String → Seed
  delegated_boost delegated_boost_v2 : Seed
  key : Pubkey → Seed

pub record Instruction : Type 0 where
  pub program_id : Pubkey
  pub accounts : List Pubkey
  pub bytes : List ℕ

-- An instruction in a transaction names its program and its accounts by their place among the keys.
pub record CompiledInstruction : Type 0 where
  pub program_id_index : ℕ
  pub accounts : List ℕ
  pub bytes : List ℕ

pub record Transaction : Type 0 where
  pub signatures : List (Option ℕ)
  pub account_keys : List Pubkey
  pub recent_blockhash : ℕ
  pub instructions : List CompiledInstruction

-- How `try_partial_sign` ends: with the signature put in its place, with an error (the key is not one of the
-- signers), or in a panic (the transaction has fewer places for signatures than signers).
pub data PartialSign : Type 0 where
  signs : Transaction → PartialSign
  refuses sign_panics : PartialSign

-- What the routes use of solana_sdk, base64, bincode, spl_associated_token_account and
-- ore_miner_delegation. The accounts of the program are read as the amounts they hold.
pub record Crates : Type 0 where
  pub pubkey_from_str : String → Option Pubkey
  pub decode : String → Option (List ℕ)
  pub deserialize : List ℕ → Option Transaction
  -- `try_partial_sign` with a key, on the transaction's own block hash
  pub try_partial_sign : Pubkey → Transaction → PartialSign
  pub is_signed : Transaction → Bool
  pub find_program_address : List Seed → Pubkey
  -- MINT_ADDRESS
  pub ore_mint : Pubkey
  pub get_associated_token_address : Pubkey → Pubkey → Pubkey
  pub delegated_stake_from_bytes : List ℕ → Option ℕ
  pub delegated_boost_from_bytes : List ℕ → Option ℕ
  pub delegated_boost_v2_from_bytes : List ℕ → Option ℕ
  pub undelegate_stake : Pubkey → Pubkey → Pubkey → ℕ → Instruction
  pub undelegate_boost : Pubkey → Pubkey → Pubkey → ℕ → Instruction
  pub undelegate_boost_v2 : Pubkey → Pubkey → Pubkey → ℕ → Instruction
  pub init_delegate_boost_v2 : Pubkey → Pubkey → Pubkey → Pubkey → Instruction
  pub migrate_boost_to_v2 : Pubkey → Pubkey → Pubkey → Instruction

pub record WalletExtension : Type 0 where
  pub miner_wallet : Pubkey
  pub fee_wallet : Pubkey

-- TransactionConfirmationStatus
pub data ConfirmationStatus : Type 0 where
  processed confirmed finalized : ConfirmationStatus

pub record TransactionStatus : Type 0 where
  pub confirmation_status : ConfirmationStatus
  pub has_err : Bool

-- A look at a signature: the seconds since the wait began, and the status, if the node gives one.
pub record Look : Type 0 where
  pub elapsed : ℕ
  pub status : Option TransactionStatus

-- The answers of the node. `looks` are those that the wait for a signature gets, one after the other.
pub record Node : Type 0 where
  pub get_account_data : Pubkey → Option (List ℕ)
  pub send_transaction_with_config : Transaction → Option ℕ
  pub send_and_confirm_transaction : Transaction → Option ℕ
  pub looks : ℕ → List Look

-- What a handler does: it answers, it hands a transaction to the node and then answers, unless it waits
-- for ever, or it panics.
pub data Handled : Type 0 where
  answers : Response → Handled
  submits : Transaction → Option Response → Handled
  panics : Handled

abbrev pub respond : StatusCode → String → Response
respond status body = record { status = status; body = text body }

abbrev pub invalid_tx : Response
invalid_tx = respond bad_request "Invalid Tx"

unfoldable pub bytes_beq : List ℕ → List ℕ → Bool
bytes_beq [] [] = true
bytes_beq [] (y ∷ ys) = false
bytes_beq (x ∷ xs) [] = false
bytes_beq (x ∷ xs) (y ∷ ys) = nat_beq x y && bytes_beq xs ys

-- The routes that no longer take stakes.
abbrev pub post_stake : Response
post_stake = respond bad_request "Legacy staking no longer supported"

abbrev pub post_stake_boost : Response
post_stake_boost = respond bad_request "V1 Boost no longer supported. Update client to use V2 Boost"

abbrev pub post_stake_boost_v2 : Response
post_stake_boost_v2 = respond bad_request "Boost staking no longer supported"

-- `ixs.len() > limit`
unfoldable pub at_most : ℕ → Transaction → Handled → Handled
at_most limit tx go = if ltb limit (length tx.instructions) then answers invalid_tx else go

-- The next instruction of the transaction must have the data of the server's own. There is no check
-- that there is one; its accounts are looked up, and not compared.
unfoldable pub matching :
    List CompiledInstruction → Instruction → (List CompiledInstruction → Handled) → Handled
matching [] base_ix go = panics
matching (ix ∷ ixs) base_ix go =
    if bytes_beq ix.bytes base_ix.bytes then go ixs else answers invalid_tx

module _ (crates : Crates) where
  open crates use {
    pubkey_from_str, decode, deserialize, try_partial_sign, is_signed, find_program_address,
  }

  -- The body of the request as a transaction; text that is not base64 panics.
  unfoldable pub with_transaction : String → (Transaction → Handled) → Handled
  with_transaction body go = elim (decode body) [
    | none ↦ panics
    | some serialized_tx ↦ elim (deserialize serialized_tx) [
      | none ↦ answers invalid_tx
      | some tx ↦ go tx
    ]
  ]

  -- The key and the mint of a route on boosts, by what the text gives.
  unfoldable pub with_keys : String → String → (Pubkey → Pubkey → Handled) → Handled
  with_keys pubkey mint go = elim (pubkey_from_str pubkey) [
    | none ↦ answers (respond bad_request "Invalid Pubkey")
    | some user_pubkey ↦ elim (pubkey_from_str mint) [
      | none ↦ answers (respond bad_request "Invalid Mint")
      | some mint_pubkey ↦ go user_pubkey mint_pubkey
    ]
  ]

  -- The end of each route: the fee wallet signs, and the transaction goes out.
  unfoldable pub sign_and_submit :
      WalletExtension → Transaction → (Transaction → Option Response) → Handled
  sign_and_submit wallet tx submit = elim (try_partial_sign wallet.fee_wallet tx) [
    | refuses ↦ answers (respond internal_server_error "Server Failed to sign tx.")
    | sign_panics ↦ panics
    | signs signed ↦ if is_signed signed then submits signed (submit signed) else answers invalid_tx
  ]

  unfoldable pub managed_proof_of : Pubkey → Pubkey
  managed_proof_of miner = find_program_address (label "managed-proof-account" ∷ key miner ∷ [])

  unfoldable pub get_delegated_stake_pda : Pubkey → Pubkey → Pubkey
  unfolding managed_proof_of
  get_delegated_stake_pda staker miner =
      find_program_address
        (label "delegated-stake" ∷ key staker ∷ key (managed_proof_of miner) ∷ [])

  unfoldable pub get_delegated_boost_pda : Pubkey → Pubkey → Pubkey → Pubkey
  unfolding managed_proof_of
  get_delegated_boost_pda staker miner mint =
      find_program_address
        (delegated_boost ∷ key staker ∷ key mint ∷ key (managed_proof_of miner) ∷ [])

  unfoldable pub get_delegated_boost_v2_pda : Pubkey → Pubkey → Pubkey → Pubkey
  unfolding managed_proof_of
  get_delegated_boost_v2_pda staker miner mint =
      find_program_address
        (delegated_boost_v2 ∷ key staker ∷ key mint ∷ key (managed_proof_of miner) ∷ [])

-- The account at an address, as far as the program can read it.
abbrev pub parsed : (List ℕ → Option ℕ) → Option (List ℕ) → Option ℕ
parsed from_bytes none = none
parsed from_bytes (some bytes) = from_bytes bytes

module _ (crates : Crates) (node : Node) where
  open crates use {
    delegated_stake_from_bytes, delegated_boost_from_bytes, delegated_boost_v2_from_bytes,
  }
  open node use {get_account_data}

  unfoldable pub get_delegated_stake_account : Pubkey → Pubkey → Option ℕ
  get_delegated_stake_account staker miner =
      parsed delegated_stake_from_bytes
        (get_account_data (get_delegated_stake_pda crates staker miner))

  unfoldable pub get_delegated_boost_account : Pubkey → Pubkey → Pubkey → Option ℕ
  get_delegated_boost_account staker miner mint =
      parsed delegated_boost_from_bytes
        (get_account_data (get_delegated_boost_pda crates staker miner mint))

  unfoldable pub get_delegated_boost_account_v2 : Pubkey → Pubkey → Pubkey → Option ℕ
  get_delegated_boost_account_v2 staker miner mint =
      parsed delegated_boost_v2_from_bytes
        (get_account_data (get_delegated_boost_v2_pda crates staker miner mint))

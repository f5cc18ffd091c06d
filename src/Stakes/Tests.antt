-- ===== src/Stakes/Tests.antt =====
-- Requests to the routes on stakes with a small instance of the crates: an instruction's data are a tag and
-- what follows it, and the fee wallet's signature is the second of two.
use Prim.Native.String.{String}
use text.Mathlib.Text.{◌==◌}
use coal_pool_server.Prelude.{
  ℕ, ◌≡◌, refl, inl, inr, Bool, true, false, Option, none, some, List, [], ◌∷◌, arith,
  if◌then◌else◌, nat_beq,
}
use coal_pool_server.State.{Pubkey}
use coal_pool_server.Claims.{status_ok}
use coal_pool_server.Stakes.{
  Seed, key, PartialSign, signs, Instruction, CompiledInstruction, Transaction, Crates, Node,
  WalletExtension, submits, panics, processed, confirmed, Look, respond,
  get_delegated_stake_account, get_delegated_boost_account_v2,
}
use coal_pool_server.Stakes.Landing.{landed, confirm_txn, now, later, Lands, confirm_txn_iff}
use coal_pool_server.Database.{granted, broken}
use coal_pool_server.Database.Stakes.{StakeRow}
use coal_pool_server.Stakes.Refresh.{gather, update_stake_accounts}
use coal_pool_server.Stakes.Refresh.Sync.{update_stake_accounts-eq}
use coal_pool_server.Stakes.Unstake.{
  UnstakeParams, UnstakeBoostParams, post_unstake, submit_and_wait, send_and_confirm,
}
use coal_pool_server.Stakes.Unstake.Submissions.{unstake_routes_iff}
use coal_pool_server.Stakes.Unstake.Panics.{unstake_routes_panic_iff}
use coal_pool_server.Stakes.Migrate.{MigrateBoostParams, post_migrate_boost_v2}
use coal_pool_server.Stakes.Migrate.Migrations.{post_migrate_boost_v2_iff}

abbrev instruction : ℕ → List ℕ → Instruction
instruction tag rest = record { program_id = 3; accounts = []; bytes = tag ∷ rest }

abbrev compiled : ℕ → List ℕ → CompiledInstruction
compiled tag rest = record { program_id_index = 0; accounts = []; bytes = tag ∷ rest }

abbrev transaction : Option ℕ → List CompiledInstruction → Transaction
transaction fee ixs = record {
  signatures = some 41 ∷ fee ∷ [];
  account_keys = 9 ∷ 8 ∷ 3 ∷ [];
  recent_blockhash = 77;
  instructions = ixs;
}

-- The number that a body stands for.
abbrev decode : String → Option (List ℕ)
decode body =
    if body == "unstake"
    then some (1 ∷ [])
    else if body == "empty"
    then some (0 ∷ [])
    else if body == "migrate"
    then some (2 ∷ [])
    else none

abbrev deserialize : List ℕ → Option Transaction
deserialize [] = none
deserialize (n ∷ rest) =
    if nat_beq n 0
    then some (transaction none [])
    else if nat_beq n 1
    then some (transaction none (compiled 5 (100 ∷ []) ∷ []))
    else some (transaction none (compiled 6 [] ∷ (compiled 7 [] ∷ [])))

abbrev sign : Pubkey → Transaction → PartialSign
sign wallet tx = signs (record tx { signatures = some 41 ∷ some wallet ∷ [] })

abbrev has_all : List (Option ℕ) → Bool
has_all [] = true
has_all (none ∷ rest) = false
has_all (some s ∷ rest) = has_all rest

abbrev last_key : List Seed → Pubkey
last_key [] = 0
last_key (key k ∷ rest) = k
last_key (other ∷ rest) = last_key rest

abbrev crates : Crates
crates = record {
  pubkey_from_str = λ s. if s == "user" then some 9 else if s == "mint" then some 12 else none;
  decode = decode;
  deserialize = deserialize;
  try_partial_sign = sign;
  is_signed = λ tx. has_all tx.signatures;
  find_program_address = last_key;
  ore_mint = 11;
  get_associated_token_address = λ owner mint. owner;
  delegated_stake_from_bytes = λ b. some 500;
  delegated_boost_from_bytes = λ b. some 500;
  delegated_boost_v2_from_bytes = λ b. none;
  undelegate_stake = λ user miner ata amount. instruction 5 (amount ∷ []);
  undelegate_boost = λ user miner mint amount. instruction 8 (amount ∷ []);
  undelegate_boost_v2 = λ user miner mint amount. instruction 9 (amount ∷ []);
  init_delegate_boost_v2 = λ user miner fee mint. instruction 6 [];
  migrate_boost_to_v2 = λ user miner mint. instruction 7 [];
}

abbrev look : ℕ → Option Bool → Look
look elapsed none = record { elapsed = elapsed; status = none }
look elapsed (some done) = record {
  elapsed = elapsed;
  status =
      some
        (record { confirmation_status = if done then confirmed else processed; has_err = false });
}

abbrev looks : List Look
looks = look 0 none ∷ look 5 (some false) ∷ look 10 (some true) ∷ []

abbrev node : Node
node = record {
  get_account_data = λ address. some (1 ∷ []);
  send_transaction_with_config = λ tx. some 55;
  send_and_confirm_transaction = λ tx. some 56;
  looks = λ sig. looks;
}

abbrev wallet : WalletExtension
wallet = record { miner_wallet = 20; fee_wallet = 21 }

abbrev stake : UnstakeParams
stake = record { pubkey = "user"; amount = 100 }

abbrev boost : UnstakeBoostParams
boost = record { pubkey = "user"; mint = "mint"; amount = 100 }

abbrev migration : MigrateBoostParams
migration = record { pubkey = "user"; mint = "mint"; init = true }

landing : Lands looks
landing =
    later (omega arith, inl refl)
      (later (omega arith, inr (_, refl, refl)) (now (omega arith, (_, refl, λ e. cc e, refl))))

confirm_txn_iff_example : confirm_txn looks ≡ landed
confirm_txn_iff_example = (confirm_txn_iff looks).1 landing

abbrev signed_unstake : Transaction
signed_unstake = transaction (some 21) (compiled 5 (100 ∷ []) ∷ [])

abbrev signed_migration : Transaction
signed_migration = transaction (some 21) (compiled 6 [] ∷ (compiled 7 [] ∷ []))

waited : submit_and_wait node signed_unstake ≡ some (respond status_ok "SUCCESS")
unfolding submit_and_wait confirm_txn
waited = refl

unstake_routes_iff_example :
    post_unstake crates node wallet stake "unstake"
    ≡ submits signed_unstake (submit_and_wait node signed_unstake)
unfolding get_delegated_stake_account
unstake_routes_iff_example =
    (unstake_routes_iff crates node wallet stake boost "unstake" signed_unstake
        (submit_and_wait node signed_unstake)).0.1
      (9, refl, λ e. cc e, refl, (1 ∷ [], _, _, refl, refl, refl, refl, refl, refl))

unstake_routes_panic_iff_example : post_unstake crates node wallet stake "empty" ≡ panics
unfolding get_delegated_stake_account
unstake_routes_panic_iff_example =
    (unstake_routes_panic_iff crates node wallet stake boost "empty").0.1
      (9, refl, inr (λ e. cc e, inl (0 ∷ [], _, refl, refl, refl)))

post_migrate_boost_v2_iff_example :
    post_migrate_boost_v2 crates node wallet migration "migrate"
    ≡ submits signed_migration (send_and_confirm node signed_migration)
unfolding get_delegated_boost_account_v2
post_migrate_boost_v2_iff_example =
    (post_migrate_boost_v2_iff crates node wallet migration "migrate" signed_migration
        (send_and_confirm node signed_migration)).1
      (
        9,
        12,
        refl,
        refl,
        (2 ∷ [], _, refl, refl, (inl (refl, refl, (_, _, refl, refl, refl)), (refl, refl), refl)),
      )

abbrev stake_of : ℕ → ℕ → StakeRow
stake_of pda balance = record {
  account = record {
    id = pda;
    pool_id = 1;
    mint_pubkey = 5;
    staker_pubkey = 6;
    stake_pda = pda;
    rewards_balance = 3;
    staked_balance = balance;
  };
  total_rewards_earned = 4;
}

abbrev first_byte : List ℕ → Option ℕ
first_byte [] = none
first_byte (b ∷ rest) = some b

abbrev on_chain : List (Pubkey × List ℕ)
on_chain = (31, 70 ∷ []) ∷ (32, []) ∷ (33, 90 ∷ []) ∷ []

update_stake_accounts-eq_example :
    (update_stake_accounts first_byte
        (λ m. m)
        ((broken ∷ granted ∷ []) ∷ [])
        (some on_chain)
        (stake_of 31 1 ∷ stake_of 32 2 ∷ stake_of 34 3 ∷ [])
      ≡ some (stake_of 31 70 ∷ stake_of 32 2 ∷ stake_of 34 3 ∷ []))
    × (update_stake_accounts first_byte
          (λ m. m)
          ((broken ∷ granted ∷ []) ∷ [])
          none
          (stake_of 31 1 ∷ stake_of 32 2 ∷ stake_of 34 3 ∷ [])
        ≡ some (stake_of 31 1 ∷ stake_of 32 2 ∷ stake_of 34 3 ∷ []))
unfolding gather
update_stake_accounts-eq_example =
    update_stake_accounts-eq first_byte (λ m. m) ((broken ∷ granted ∷ []) ∷ []) on_chain
      (stake_of 31 1 ∷ stake_of 32 2 ∷ stake_of 34 3 ∷ []) (λ m distinct. (distinct, λ k. refl))
      (tt, tt)

-- ===== src/Signup.antt =====
-- Signing up: the routes `/signup`, `/v2/signup` and `/pause` of src/main.rs, with the queries on miners
-- of src/app_database.rs. The columns `miners.pubkey` and `rewards.miner_id` are unique
-- (migrations/2024-10-06-185750_miner_pubkey_unique, 2024-10-06-190014_reward_miner_id_unique).
pub mod Joining
mod Tests
use coal_pool_server.Prelude.{
  ℕ, ◌+◌, Bool, true, false, Option, none, some, List, [], ◌∷◌, if◌then◌else◌, nat_beq, is_some,
}
use coal_pool_server.State.{Pubkey, AppState}
use coal_pool_server.Models.{Miner, Reward, Pool}
use coal_pool_server.Database.{
  AppDatabaseError, failed_to_get_connection_from_pool, failed_to_update_row, failed_to_insert_row,
  interaction_failed, query_failed, Result, ok, err, Access, interact,
}

-- The three tables, with the counters of the ids.
pub record Accounts : Type 0 where
  pub miners : List Miner
  pub next_miner : ℕ
  pub rewards : List Reward
  pub next_reward : ℕ
  pub pools : List Pool

unfoldable pub find_miner : Pubkey → List Miner → Option Miner
find_miner pubkey [] = none
find_miner pubkey (m ∷ ms) = if nat_beq m.pubkey pubkey then some m else find_miner pubkey ms

unfoldable pub find_reward : ℕ → List Reward → Option Reward
find_reward miner_id [] = none
find_reward miner_id (r ∷ rs) =
    if nat_beq r.miner_id miner_id then some r else find_reward miner_id rs

unfoldable pub find_pool : Pubkey → List Pool → Option Pool
find_pool authority [] = none
find_pool authority (p ∷ ps) =
    if nat_beq p.authority_pubkey authority then some p else find_pool authority ps

abbrev pub row_or_failed : {A : Type 0} → Option A → Result A
row_or_failed none = err query_failed
row_or_failed (some r) = ok r

unfoldable pub get_miner_by_pubkey_str : Access → Pubkey → Accounts → Result Miner
unfolding find_miner
get_miner_by_pubkey_str access pubkey t =
    interact access (row_or_failed (find_miner pubkey t.miners))

-- The four queries of the transaction. A query that fails rolls them back.
abbrev pub new_miner : Pubkey → ℕ → Miner
new_miner pubkey id = record { id = id; pubkey = pubkey; enabled = true }

abbrev pub insert_miner : Option Miner → Pubkey → Accounts → Result Accounts
insert_miner (some m) pubkey t = err query_failed
insert_miner none pubkey t =
    ok (record t {
      miners = new_miner pubkey t.next_miner ∷ t.miners;
      next_miner = t.next_miner + 1;
    })

abbrev pub insert_reward : Option Reward → Miner → Accounts → Result Accounts
insert_reward (some r) miner t = err query_failed
insert_reward none miner t = ok (record t {
  rewards = record { id = t.next_reward; balance = 0; miner_id = miner.id } ∷ t.rewards;
  next_reward = t.next_reward + 1;
})

abbrev pub and_then : {A B : Type 0} → Result A → (A → Result B) → Result B
and_then (ok x) f = f x
and_then (err e) f = err e

-- A transaction that fails leaves the tables as they were. The id that it has used up is not skipped here,
-- so later ids may be smaller than those of the database.
unfoldable pub signup_user_transaction : Access → Pubkey → Pubkey → Accounts → Result Accounts
unfolding find_miner find_reward find_pool
signup_user_transaction access pubkey authority t = interact access (
    and_then (insert_miner (find_miner pubkey t.miners) pubkey t) λ t'.
      and_then (row_or_failed (find_miner pubkey t'.miners)) λ miner.
        and_then (row_or_failed (find_pool authority t'.pools))
          λ pool. insert_reward (find_reward miner.id t'.rewards) miner t')

-- The answers of the routes.
pub data SignupReply : Type 0 where
  success exists invalid_pubkey no_connection_reply failed_to_add : SignupReply

abbrev pub signed_up : Result Accounts → Accounts → SignupReply × Accounts
signed_up (ok t') t = (success, t')
signed_up (err e) t = (failed_to_add, t)

-- What follows the look for the miner.
abbrev pub after_look : Result Miner → Result Accounts → Accounts → SignupReply × Accounts
after_look (ok miner) transaction t = if miner.enabled then (exists, t) else signed_up transaction t
after_look (err failed_to_get_connection_from_pool) transaction t = (no_connection_reply, t)
after_look (err failed_to_update_row) transaction t = signed_up transaction t
after_look (err failed_to_insert_row) transaction t = signed_up transaction t
after_look (err interaction_failed) transaction t = signed_up transaction t
after_look (err query_failed) transaction t = signed_up transaction t

-- `user` is the key that the parameter spells, if it does; the accesses are those of the look and of the
-- transaction.
unfoldable pub post_signup :
    Option Pubkey → Access → Access → Pubkey → Accounts → SignupReply × Accounts
unfolding get_miner_by_pubkey_str signup_user_transaction
post_signup none a b authority t = (invalid_pubkey, t)
post_signup (some user) a b authority t =
    after_look (get_miner_by_pubkey_str a user t) (signup_user_transaction b user authority t) t

unfoldable pub post_signup_v2 :
    Option Pubkey → Access → Access → Pubkey → Accounts → SignupReply × Accounts
unfolding get_miner_by_pubkey_str signup_user_transaction
post_signup_v2 none a b authority t = (invalid_pubkey, t)
post_signup_v2 (some miner) a b authority t =
    after_look (get_miner_by_pubkey_str a miner t) (signup_user_transaction b miner authority t) t

-- `/pause`: whether the password was right, and the state.
unfoldable pub post_pause : Bool → AppState → Bool × AppState
post_pause right st = if right then (true, record st { paused = true }) else (false, st)

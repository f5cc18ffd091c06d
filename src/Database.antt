-- ===== src/Database.antt =====
-- The queries of src/app_database.rs on the balances. Each query is read as SQL states it: on
-- `BIGINT UNSIGNED` columns a result out of range is an error, which leaves the table as it was.
-- Whether a connection is had and the interaction with it goes through is an argument.
pub mod Attempts
pub mod Bulk
pub mod Pages
pub mod Stakes
pub mod Batches
pub mod Challenges
pub mod Updates
mod Tests
use coal_pool_server.Prelude.{
  ℕ, ◌+◌, ◌-◌, Bool, true, false, Option, none, some, List, [], ◌∷◌, map, if◌then◌else◌, ltb, leb,
  zero, suc, nat_beq, u64_mod, nat_eq, drop, take, length,
}
use coal_pool_server.Prelude.HashMap.{get}
use coal_pool_server.Models.{UpdateReward, Reward, Pool}

pub data AppDatabaseError : Type 0 where
  failed_to_get_connection_from_pool failed_to_update_row failed_to_insert_row interaction_failed
        query_failed :
      AppDatabaseError

pub data Result (A : Type 0) : Type 0 where
  ok : A → Result A
  err : AppDatabaseError → Result A

-- What becomes of a call before its query runs.
pub data Access : Type 0 where
  granted no_connection broken : Access

abbrev pub interact : {A : Type 0} → Access → Result A → Result A
interact granted r = r
interact no_connection r = err failed_to_get_connection_from_pool
interact broken r = err interaction_failed

-- A query that fails if any of its rows does.
abbrev pub for_rows : {A : Type 0} → (A → Result A) → List A → Result (List A)
for_rows f [] = ok []
for_rows f (x ∷ xs) = elim (f x) [
  | err e ↦ err e
  | ok y ↦ elim (for_rows f xs) [ err e ↦ err e | ok ys ↦ ok (y ∷ ys) ]
]

-- The `WHEN` branches of a batch, by miner: the first that fits is taken.
abbrev pub amounts : List UpdateReward → List (ℕ × ℕ)
amounts = map (λ (r : UpdateReward). (r.miner_id, r.balance))

unfoldable pub increase_row : List UpdateReward → Reward → Result Reward
increase_row batch row = elim (get row.miner_id (amounts batch)) [
  | none ↦ ok row
  | some amount ↦
      if ltb (row.balance + amount) u64_mod
      then ok (record row { balance = row.balance + amount })
      else err query_failed
]

unfoldable pub update_rewards : Access → List UpdateReward → List Reward → Result (List Reward)
unfolding increase_row
update_rewards access batch rows = interact access (for_rows (increase_row batch) rows)

unfoldable pub decrease_row : ℕ → ℕ → Reward → Result Reward
decrease_row miner_id amount row =
    if nat_beq row.miner_id miner_id
    then (if leb amount row.balance
        then ok (record row { balance = row.balance - amount })
        else err query_failed)
    else ok row

unfoldable pub decrease_miner_reward : Access → ℕ → ℕ → List Reward → Result (List Reward)
unfolding decrease_row
decrease_miner_reward access miner_id amount rows =
    interact access (for_rows (decrease_row miner_id amount) rows)

-- `slice::chunks`, with the length of the list as a bound on the number of chunks.
abbrev pub chunks_of {ℓ} : {A : Type ℓ} → ℕ → ℕ → List A → List (List A)
chunks_of zero size xs = []
chunks_of (suc f) size [] = []
chunks_of (suc f) size (x ∷ xs) = take size (x ∷ xs) ∷ chunks_of f size (drop size (x ∷ xs))

abbrev pub chunks {ℓ} : {A : Type ℓ} → ℕ → List A → List (List A)
chunks size xs = chunks_of (length xs) size xs

-- `while let Err(_) = call { sleep }`, over the accesses that its attempts get; no value means that
-- it is still trying.
unfoldable pub retry : {A : Type 0} → List Access → (Access → Result A) → Option A
retry [] call = none
retry (a ∷ rest) call = elim (call a) [ ok r ↦ some r | err e ↦ retry rest call ]

-- The batches of rewards, one after the other, each with its attempts.
unfoldable pub update_batches :
    List (List Access) → List (List UpdateReward) → List Reward → Option (List Reward)
unfolding retry update_rewards
update_batches attempts [] rows = some rows
update_batches [] (batch ∷ batches) rows = none
update_batches (accesses ∷ attempts) (batch ∷ batches) rows =
    elim (retry accesses (λ access. update_rewards access batch rows)) [
      | none ↦ none
      | some rows' ↦ update_batches attempts batches rows'
    ]

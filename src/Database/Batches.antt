-- ===== src/Database/Batches.antt =====
-- The batches that rewards are written in make no difference.
use coal_pool_server.Prelude.{
  ℕ, ◌+◌, ◌≤◌, ◌<◌, ◌≡◌, refl, ap, ◌∙◌, ◌⊎◌, inl, Option, none, some, List, [], ◌∷◌, map, arith,
  if◌then◌else◌, u64_mod, ltb, inr, nat_eq, nat_beq, All, sum_of,
}
use coal_pool_server.Prelude.HashMap.{get, HasDistinctKeys}
use coal_pool_server.Models.{UpdateReward, Reward}
use coal_pool_server.Database.Attempts.{ReachesAll}
use coal_pool_server.Database.Bulk.{
  write_batches, update_row, update_rows, Fits, updated, applied, write_chunks-eq,
}
use coal_pool_server.Database.{
  Result, err, query_failed, ok, Access, for_rows, amounts, increase_row, update_rewards, chunks,
  retry, update_batches,
}

-- What a list of updates holds for a miner.
abbrev pub amount_for : ℕ → List UpdateReward → ℕ
amount_for miner_id [] = 0
amount_for miner_id (u ∷ us) =
    if nat_beq u.miner_id miner_id then u.balance else amount_for miner_id us

abbrev pub credit : List UpdateReward → Reward → Reward
credit us row = record row { balance = row.balance + amount_for row.miner_id us }

abbrev pub update_sum : List UpdateReward → ℕ
update_sum = sum_of (λ (u : UpdateReward). u.balance)

amount_for-le : (m : ℕ) (us : List UpdateReward) → amount_for m us ≤ update_sum us
amount_for-le m [] = omega arith
amount_for-le m (u ∷ us) = ground (arith, amount_for-le m us)

pub get-amounts :
    (m : ℕ) (us : List UpdateReward)
    → ((get m (amounts us) ≡ none) × (amount_for m us ≡ 0))
      ⊎ (get m (amounts us) ≡ some (amount_for m us))
get-amounts m [] = inl (refl, refl)
get-amounts m (u ∷ us) = ground (arith, get-amounts m us)

-- A row that has room for all of the updates takes the credit of a batch.
increase_row-eq :
    (us : List UpdateReward) (row : Reward)
    → row.balance + update_sum us < u64_mod
    → increase_row us row ≡ ok (credit us row)
unfolding increase_row
increase_row-eq us row fits =
    ground (arith, get-amounts row.miner_id us, amount_for-le row.miner_id us)

abbrev pub HasRoom : List UpdateReward → Reward → Type 0
HasRoom us row = row.balance + update_sum us < u64_mod

pub for_rows-eq :
    (us : List UpdateReward) (rows : List Reward)
    → All (HasRoom us) rows
    → for_rows (increase_row us) rows ≡ ok (map (credit us) rows)
for_rows-eq us [] h = refl
for_rows-eq us (row ∷ rows) h = ground (arith, increase_row-eq us row h.0, for_rows-eq us rows h.1)

-- The same query, over any table.
abbrev add_balance : ℕ → Reward → Result Reward
add_balance amount row =
    if ltb (row.balance + amount) u64_mod
    then ok (record row { balance = row.balance + amount })
    else err query_failed

abbrev with_balance : ℕ → Reward → Reward
with_balance amount row = record row { balance = row.balance + amount }

abbrev miner_of : Reward → ℕ
miner_of row = row.miner_id

abbrev entry_of : UpdateReward → ℕ × ℕ
entry_of u = (u.miner_id, u.balance)

update_batches-write_batches :
    (attempts : List (List Access)) (batches : List (List UpdateReward)) (rows : List Reward)
    → update_batches attempts batches rows
      ≡ write_batches (update_rows miner_of add_balance entry_of) attempts batches rows
unfolding update_batches write_batches update_rows update_row update_rewards increase_row
update_batches-write_batches attempts [] rows = refl
update_batches-write_batches [] (batch ∷ batches) rows = refl
update_batches-write_batches (accesses ∷ attempts) (batch ∷ batches) rows = λ i.
    elim (retry accesses (λ access. update_rewards access batch rows)) [
      | none ↦ none
      | some rows' ↦ update_batches-write_batches attempts batches rows' i
    ]

HasRoom-Fits :
    (us : List UpdateReward) (rows : List Reward)
    → All (HasRoom us) rows
    → All (Fits miner_of add_balance with_balance (amounts us)) rows
HasRoom-Fits us [] room = tt
HasRoom-Fits us (row ∷ rows) room = (
  λ x found.
      ground (arith, found, room.0, get-amounts row.miner_id us, amount_for-le row.miner_id us),
  HasRoom-Fits us rows room.1,
)

credit-updated :
    (us : List UpdateReward) (row : Reward)
    → updated miner_of add_balance with_balance (amounts us) row ≡ credit us row
credit-updated us row = elim (get-amounts row.miner_id us) [
  | inl (absent, nothing) ↦
      let unchanged : row.balance ≡ row.balance + amount_for row.miner_id us =
        omega (arith, nothing) in
      ap (λ (o : Option ℕ). applied with_balance o row) absent
      ∙ ap (λ (balance : ℕ). record row { balance = balance }) unchanged
  | inr present ↦ ap (λ (o : Option ℕ). applied with_balance o row) present
]

updated-credit :
    (us : List UpdateReward) (rows : List Reward)
    → map (updated miner_of add_balance with_balance (amounts us)) rows ≡ map (credit us) rows
updated-credit us [] = refl
updated-credit us (row ∷ rows) = λ i. credit-updated us row i ∷ updated-credit us rows i

-- If each chunk of 400 updates gets through at some attempt, no miner is updated twice and every
-- row has room, the chunks have the effect of one update with all of them.
pub update_chunks-eq :
    (attempts : List (List Access)) (us : List UpdateReward) (rows : List Reward)
    → ReachesAll attempts (chunks 400 us)
    → HasDistinctKeys (amounts us)
    → All (HasRoom us) rows
    → update_batches attempts (chunks 400 us) rows ≡ some (map (credit us) rows)
update_chunks-eq attempts us rows reaches distinct room =
    update_batches-write_batches attempts (chunks 400 us) rows
    ∙ write_chunks-eq miner_of add_balance with_balance (λ x row. refl) entry_of 399 attempts us
        rows reaches distinct (HasRoom-Fits us rows room)
    ∙ ap some (updated-credit us rows)

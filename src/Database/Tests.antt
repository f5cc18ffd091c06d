-- ===== src/Database/Tests.antt =====
-- Updates of two miners, written in batches with a failed attempt.
use coal_pool_server.Prelude.{◌≡◌, refl, some, List, [], ◌∷◌, nat_eq}
use coal_pool_server.Models.{UpdateReward, Reward}
use coal_pool_server.Database.{
  Access, granted, no_connection, broken, update_batches, update_rewards, increase_row, retry,
}

abbrev first : UpdateReward
first = record { miner_id = 11; balance = 5 }

abbrev second : UpdateReward
second = record { miner_id = 22; balance = 7 }

abbrev rows : List Reward
rows =
    record { id = 1; balance = 100; miner_id = 11 }
    ∷ record { id = 2; balance = 0; miner_id = 22 }
    ∷ record { id = 3; balance = 9; miner_id = 33 }
    ∷ []

abbrev attempts : List (List Access)
attempts = (no_connection ∷ granted ∷ []) ∷ (broken ∷ broken ∷ granted ∷ []) ∷ []

-- Each of two batches gets through at some attempt.
both_batches :
    update_batches attempts ((first ∷ []) ∷ (second ∷ []) ∷ []) rows
    ≡ some (
        record { id = 1; balance = 105; miner_id = 11 }
        ∷ record { id = 2; balance = 7; miner_id = 22 }
        ∷ record { id = 3; balance = 9; miner_id = 33 }
        ∷ [])
unfolding update_batches update_rewards increase_row retry
both_batches = refl

-- ===== src/Database/Updates.antt =====
-- What a query of src/app_database.rs that succeeds has done, also when it is retried.
use coal_pool_server.Prelude.{
  ℕ, ◌≡◌, refl, sym, ap, ◌∙◌, ◌⊎◌, inl, inr, some, List, [], ◌∷◌, map, arith, nat_eq,
}
use coal_pool_server.Models.{UpdateReward, Reward}
use coal_pool_server.Database.{
  AppDatabaseError, Result, ok, err, Access, granted, no_connection, broken, for_rows, increase_row,
  retry, interact,
}
use coal_pool_server.Database.Batches.{credit, get-amounts}

Result-cases :
    {A : Type 0} (r : Result A) → ((x : A) × (r ≡ ok x)) ⊎ ((e : AppDatabaseError) × (r ≡ err e))
Result-cases (ok x) = inl (x, refl)
Result-cases (err e) = inr (e, refl)

increase_row-ok :
    (us : List UpdateReward) (row row' : Reward)
    → increase_row us row ≡ ok row'
    → row' ≡ credit us row
unfolding increase_row
increase_row-ok us row row' h = elim (get-amounts row.miner_id us) [
  | inl (absent, nothing) ↦
      let same : row ≡ row' = ground (arith, h, absent) in
      sym same ∙ ap (λ (b : ℕ). record row { balance = b }) (omega (arith, nothing))
  | inr present ↦ ground (arith, h, present)
]

pub for_rows-ok :
    (us : List UpdateReward) (rows rows' : List Reward)
    → for_rows (increase_row us) rows ≡ ok rows'
    → rows' ≡ map (credit us) rows
for_rows-ok us [] rows' h = cc h
for_rows-ok us (row ∷ rows) rows' h = elim (Result-cases (increase_row us row)) [
  | inr (e, failed) ↦ absurd (ground (arith, h, failed))
  | inl (x, first) ↦ elim (Result-cases (for_rows (increase_row us) rows)) [
    | inr (e, failed) ↦ absurd (ground (arith, h, first, failed))
    | inl (xs, rest) ↦
        let same : x ∷ xs ≡ rows' = ground (arith, h, first, rest) in
        let its = increase_row-ok us row x first in
        let theirs = for_rows-ok us rows xs rest in sym same ∙ cc (its, theirs)
  ]
]

pub retry-ok :
    {A : Type 0} (accesses : List Access) (r : Result A) (x : A)
    → retry accesses (λ access. interact access r) ≡ some x
    → r ≡ ok x
unfolding retry
retry-ok [] r x h = absurd (cc h)
retry-ok (granted ∷ rest) (ok y) x h = cc h
retry-ok (granted ∷ rest) (err e) x h = retry-ok rest (err e) x h
retry-ok (no_connection ∷ rest) r x h = retry-ok rest r x h
retry-ok (broken ∷ rest) r x h = retry-ok rest r x h

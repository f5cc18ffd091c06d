-- ===== src/Rewards/Payout/Tables.antt =====
-- The batches of submissions of `pool_mine_success_system` (src/systems/pool_mine_success_system.rs), and
-- the newest row with a nonce.
use mathlib.Core.List.{flatten}
use coal_pool_server.Prelude.{
  ℕ, zero, suc, drop, ◌≡◌, ◌⊎◌, inl, inr, refl, ap, ◌∙◌, false, some, List, [], ◌∷◌, ◌++◌, arith,
  All, nat_beq, nat_eq, nat_beq_iff, length, ℕ_discrete,
}
use coal_pool_server.Models.{InsertSubmission}
use coal_pool_server.Database.{
  Result, ok, Access, granted, no_connection, broken, interact, chunks_of, chunks, retry,
}
use coal_pool_server.Database.Attempts.{Reaches, ReachesAll, chunks_of-flatten}
use coal_pool_server.Rewards.Payout.{
  Submission, SubmissionTable, submission_row, insert_submission_row, insert_submissions,
  add_new_submissions_batch, add_batches, find_submission,
}

-- A call that reaches the database gives what its query gives.
pub retry-Reaches :
    {A : Type 0} (accesses : List Access) (r : Result A) (x : A)
    → r ≡ ok x
    → Reaches accesses
    → retry accesses (λ (access : Access). interact access r) ≡ some x
unfolding retry
retry-Reaches [] r x e reaches = absurd reaches
retry-Reaches (granted ∷ rest) r x e reaches = rw e
retry-Reaches (no_connection ∷ rest) r x e reaches = retry-Reaches rest r x e reaches
retry-Reaches (broken ∷ rest) r x e reaches = retry-Reaches rest r x e reaches

insert_submissions-append :
    (xs ys : List InsertSubmission) (t : SubmissionTable)
    → insert_submissions ys (insert_submissions xs t) ≡ insert_submissions (xs ++ ys) t
insert_submissions-append [] ys t = refl
insert_submissions-append (x ∷ xs) ys t =
    insert_submissions-append xs ys (insert_submission_row x t)

-- No chunk is empty, so batches that reach the database add up to one insertion.
IsCut : List (List InsertSubmission) → Type 0
IsCut [] = Unit
IsCut ([] ∷ batches) = ⊥
IsCut ((s ∷ ss) ∷ batches) = IsCut batches

add_batches-eq :
    (attempts : List (List Access)) (batches : List (List InsertSubmission)) (t : SubmissionTable)
    → IsCut batches
    → ReachesAll attempts batches
    → add_batches attempts batches t ≡ some (insert_submissions (flatten batches) t)
unfolding add_batches add_new_submissions_batch flatten IsCut
add_batches-eq attempts [] t cut reaches = refl
add_batches-eq attempts ([] ∷ batches) t cut reaches = absurd cut
add_batches-eq [] ((s ∷ ss) ∷ batches) t cut reaches = absurd reaches
add_batches-eq (accesses ∷ attempts) ((s ∷ ss) ∷ batches) t cut reaches =
    let t' = insert_submissions (s ∷ ss) t in
    rw (retry-Reaches accesses (ok t') t' refl reaches.0, add_batches)
      (add_batches-eq attempts batches t' cut reaches.1
        ∙ ap some (insert_submissions-append (s ∷ ss) (flatten batches) t))

chunks-IsCut : (f : ℕ) (xs : List InsertSubmission) → IsCut (chunks_of f 1000 xs)
unfolding IsCut
chunks-IsCut zero xs = tt
chunks-IsCut (suc f) [] = tt
chunks-IsCut (suc f) (x ∷ xs) = chunks-IsCut f (drop 1000 (x ∷ xs))

pub add_chunks-eq :
    (attempts : List (List Access)) (ss : List InsertSubmission) (t : SubmissionTable)
    → ReachesAll attempts (chunks 1000 ss)
    → add_batches attempts (chunks 1000 ss) t ≡ some (insert_submissions ss t)
add_chunks-eq attempts ss t reaches =
    add_batches-eq attempts (chunks 1000 ss) t (chunks-IsCut (length ss) ss) reaches
    ∙ ap (λ (xs : List InsertSubmission). some (insert_submissions xs t))
        (chunks_of-flatten (length ss) 999 ss (omega arith))

-- A submission with the nonce is among the ones that are inserted.
abbrev pub HasNonce : ℕ → List InsertSubmission → Type 0
HasNonce nonce [] = ⊥
HasNonce nonce (s ∷ ss) = (s.nonce ≡ nonce) ⊎ HasNonce nonce ss

-- The newest row with the nonce is one of the challenge.
abbrev pub FindsIn : ℕ → ℕ → List Submission → Type 0
FindsIn nonce challenge_id rows =
    (r : Submission) × (find_submission nonce rows ≡ some r)
    × (r.nonce ≡ nonce)
    × (r.challenge_id ≡ challenge_id)

insert_submission_row-FindsIn :
    (nonce challenge_id : ℕ) (s : InsertSubmission) (t : SubmissionTable)
    → s.challenge_id ≡ challenge_id
    → (s.nonce ≡ nonce) ⊎ FindsIn nonce challenge_id t.rows
    → FindsIn nonce challenge_id (insert_submission_row s t).rows
unfolding find_submission
insert_submission_row-FindsIn nonce challenge_id s t its h = elim (ℕ_discrete s.nonce nonce) [
  | yes same ↦ (submission_row s t.next_id, rw ((nat_beq_iff s.nonce nonce).1 same), same, its)
  | no other ↦ elim h [
    | inl same ↦ absurd (other same)
    | inr (r, found, nonce_too, challenge_too) ↦
        let misses : nat_beq s.nonce nonce ≡ false = ground (arith, other) in
        (r, rw misses found, nonce_too, challenge_too)
  ]
]

pub insert_submissions-FindsIn :
    (nonce challenge_id : ℕ) (ss : List InsertSubmission) (t : SubmissionTable)
    → All (λ (s : InsertSubmission). s.challenge_id ≡ challenge_id) ss
    → HasNonce nonce ss ⊎ FindsIn nonce challenge_id t.rows
    → FindsIn nonce challenge_id (insert_submissions ss t).rows
insert_submissions-FindsIn nonce challenge_id [] t all (inl has) = absurd has
insert_submissions-FindsIn nonce challenge_id [] t all (inr finds) = finds
insert_submissions-FindsIn nonce challenge_id (s ∷ ss) t (its, all) (inl (inl same)) =
    insert_submissions-FindsIn nonce challenge_id ss (insert_submission_row s t) all
      (inr (insert_submission_row-FindsIn nonce challenge_id s t its (inl same)))
insert_submissions-FindsIn nonce challenge_id (s ∷ ss) t (its, all) (inl (inr later)) =
    insert_submissions-FindsIn nonce challenge_id ss (insert_submission_row s t) all (inl later)
insert_submissions-FindsIn nonce challenge_id (s ∷ ss) t (its, all) (inr finds) =
    insert_submissions-FindsIn nonce challenge_id ss (insert_submission_row s t) all
      (inr (insert_submission_row-FindsIn nonce challenge_id s t its (inr finds)))

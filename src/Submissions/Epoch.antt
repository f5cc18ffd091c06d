-- ===== src/Submissions/Epoch.antt =====
-- The epoch's hashes under `record_submission`: which submissions are held, and the best hash.
use coal_pool_server.Prelude.{
  ℕ, ◌≤◌, ◌<◌, ◌≡◌, refl, inl, inr, Option, none, some, [], arith, ltb, ap, ◌∙◌, ℕ_discrete, All,
  All-map, Bool-cases, Option-cases, nat_eq,
}
use coal_pool_server.Prelude.HashMap.{
  HashMap, get, insert, HasDistinctKeys, get-insert_self, get-insert_ne, insert-HasDistinctKeys,
  All-insert,
}
use coal_pool_server.State.{Pubkey, Drillx, InternalMessageSubmission, EpochHashes}
use coal_pool_server.Submissions.{
  min_diff, hashpower_of, submission_of, insert_submission, record_submission,
}

-- A held submission is hard enough, no harder than the best hash, and has the hashpower of its
-- difficulty.
abbrev pub IsRecorded : ℕ → Pubkey × InternalMessageSubmission → Type 0
IsRecorded best (pubkey, s) =
    (min_diff ≤ s.supplied_diff)
    × (s.supplied_diff ≤ best)
    × (s.hashpower ≡ hashpower_of s.supplied_diff)

module _ (drillx : Drillx) where
  open drillx use {Solution, difficulty}

  -- Without a best solution nothing is held; with one, its difficulty is the best one, and a held
  -- submission has it.
  abbrev pub IsBest : Option Solution → ℕ → HashMap Pubkey InternalMessageSubmission → Type 0
  IsBest none best m = (m ≡ []) × (best ≡ 0)
  IsBest (some solution) best m =
      (difficulty solution ≡ best)
      × ((pubkey : Pubkey) × (s : InternalMessageSubmission) × (get pubkey m ≡ some s)
          × (s.supplied_diff ≡ best))

  pub record IsSound (e : EpochHashes Solution) : Type 0 where
    pub distinct : HasDistinctKeys e.submissions
    pub recorded : All (IsRecorded e.best_hash.difficulty) e.submissions
    pub best : IsBest e.best_hash.solution e.best_hash.difficulty e.submissions

  -- Replacing an easier submission, or none, leaves the best hash in place if it stays the best.
  IsBest-insert :
      (o : Option Solution) (best : ℕ) (m : HashMap Pubkey InternalMessageSubmission)
      (pubkey : Pubkey) (s : InternalMessageSubmission)
      → 0 < s.supplied_diff
      → s.supplied_diff ≤ best
      → ((old : InternalMessageSubmission)
          → get pubkey m ≡ some old
          → old.supplied_diff < s.supplied_diff)
      → IsBest o best m
      → IsBest o best (insert pubkey s m)
  IsBest-insert none best m pubkey s hard below easier h = absurd (omega arith)
  IsBest-insert (some solution) best m pubkey s hard below easier (d, (pk, old, g, top)) =
      elim (ℕ_discrete pubkey pk) [
        | yes same ↦ absurd (omega (arith, easier old (ap (λ k. get k m) same ∙ g)))
        | no other ↦ (d, (pk, old, get-insert_ne pk pubkey s m other ∙ g, top))
      ]

  insert_submission-IsRecorded :
      (e : EpochHashes Solution) (miner_id : ℕ) (solution : Solution) (pubkey : Pubkey)
      → min_diff ≤ difficulty solution
      → All (IsRecorded e.best_hash.difficulty) e.submissions
      → All
          (IsRecorded (insert_submission drillx e miner_id solution pubkey).best_hash.difficulty)
          (insert_submission drillx e miner_id solution pubkey).submissions
  unfolding insert_submission submission_of
  insert_submission-IsRecorded e miner_id solution pubkey hard h =
      All-insert (IsRecorded _) pubkey _ e.submissions (ground arith) (
        All-map (IsRecorded e.best_hash.difficulty) (IsRecorded _) (λ x r. ground arith)
          e.submissions h)

  -- A submission that is harder than the one it replaces keeps the epoch sound.
  pub insert_submission-IsSound :
      (e : EpochHashes Solution) (miner_id : ℕ) (solution : Solution) (pubkey : Pubkey)
      → min_diff ≤ difficulty solution
      → ((old : InternalMessageSubmission)
          → get pubkey e.submissions ≡ some old
          → old.supplied_diff < difficulty solution)
      → IsSound e
      → IsSound (insert_submission drillx e miner_id solution pubkey)
  unfolding insert_submission submission_of
  insert_submission-IsSound e miner_id solution pubkey hard easier v = record {
    distinct = insert-HasDistinctKeys pubkey _ e.submissions v.distinct;
    recorded = insert_submission-IsRecorded e miner_id solution pubkey hard v.recorded;
    best = elim (Bool-cases (ltb e.best_hash.difficulty (difficulty solution))) [
      | inl harder ↦ rw harder (refl, (pubkey, _, get-insert_self pubkey _ e.submissions, refl))
      | inr same ↦ rw same (
          IsBest-insert e.best_hash.solution e.best_hash.difficulty e.submissions pubkey _
            (omega arith) (ground arith) easier v.best)
    ];
  }

  -- `record_submission` keeps the epoch sound, whatever the client sent before.
  pub record_submission-IsSound :
      (e : EpochHashes Solution) (miner_id : ℕ) (solution : Solution) (pubkey : Pubkey)
      → min_diff ≤ difficulty solution
      → IsSound e
      → IsSound (record_submission drillx e miner_id solution pubkey)
  unfolding record_submission
  record_submission-IsSound e miner_id solution pubkey hard v =
      elim (Option-cases (get pubkey e.submissions)) [
        | inl none_yet ↦
            rw (none_yet, record_submission)
              (insert_submission-IsSound e miner_id solution pubkey hard
                (λ old g. absurd (ground arith)) v)
        | inr (last, found) ↦ elim (Bool-cases (ltb last.supplied_diff (difficulty solution))) [
          | inl harder ↦
              rw (found, record_submission, harder)
                (insert_submission-IsSound e miner_id solution pubkey hard (λ old g. ground arith)
                  v)
          | inr easier ↦ rw (found, record_submission, easier) v
        ]
      ]

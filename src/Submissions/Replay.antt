-- ===== src/Submissions/Replay.antt =====
-- What a batch comes to (src/systems/client_submissions_handler.rs), told by difficulties alone: each key
-- holds its hardest accepted submission, and the best hash is the hardest of all.
use native.Mathlib.Nat.{ℕ_set}
use mathlib.Core.Logic.{∥∥₁_elim}
use mathlib.Core.List.{Perm, Permᴰ}
use mathlib.Core.List.Permᴰ.{nil, cons, swap, trans}
use coal_pool_server.Prelude.{
  ℕ, ◌≡◌, ◌≢◌, refl, sym, ap, ◌∙◌, inl, inr, true, false, Option, none, some, List, [], ◌∷◌, arith,
  ltb, nat_beq, nat_eq, max, ℕ_discrete, Bool-cases, Option-cases, subst, if◌then◌else◌,
}
use coal_pool_server.Prelude.HashMap.{get, get-insert_self, get-insert_ne, All-get}
use coal_pool_server.State.{
  Pubkey, SocketAddr, Drillx, Server, EpochHashes, InternalMessageSubmission,
}
use coal_pool_server.Submissions.{
  Verdict, low_difficulty, window_closed, no_nonce_range, out_of_range, no_socket, invalid_solution,
  accepted, verdict, submission_of, insert_submission, record_submission, settle, handle_submission,
  handle_submissions,
}
use coal_pool_server.Submissions.Epoch.{IsSound, IsRecorded}
use coal_pool_server.Submissions.Batch.{handle_submission-IsSound}
use coal_pool_server.Submissions.Frame.{with_hashes, settle-Frames}

-- The largest of a number read off each element.
abbrev pub top_of : {A : Type 0} → (A → ℕ) → List A → ℕ
top_of f [] = 0
top_of f (x ∷ xs) = max (f x) (top_of f xs)

top_of-Permᴰ : {A : Type 0} {xs ys : List A} (f : A → ℕ) → Permᴰ xs ys → top_of f xs ≡ top_of f ys
top_of-Permᴰ f nil = refl
top_of-Permᴰ f (cons same rest) =
    let first = ap f same in let others = top_of-Permᴰ f rest in omega (arith, first, others)
top_of-Permᴰ f (swap one other) =
    let first = ap f one in let second = ap f other in omega (arith, first, second)
top_of-Permᴰ f (trans p q) = top_of-Permᴰ f p ∙ top_of-Permᴰ f q

top_of-Perm : {A : Type 0} {xs ys : List A} (f : A → ℕ) → Perm xs ys → top_of f xs ≡ top_of f ys
top_of-Perm f perm = ∥∥₁_elim perm (ℕ_set _ _) (top_of-Permᴰ f)

max_step :
    (before here : ℕ) {whole later rest rest' : ℕ}
    → whole ≡ max later rest'
    → later ≡ max before here
    → rest' ≡ rest
    → whole ≡ max before (max here rest)
max_step before here all some_of same = omega (arith, all, some_of, same)

-- The difficulty that the epoch holds for a key, zero for none.
abbrev pub difficulty_of : Option InternalMessageSubmission → ℕ
difficulty_of none = 0
difficulty_of (some s) = s.supplied_diff

abbrev pub scored : Verdict → ℕ → ℕ
scored (accepted miner_id) d = d
scored low_difficulty d = 0
scored window_closed d = 0
scored no_nonce_range d = 0
scored out_of_range d = 0
scored no_socket d = 0
scored invalid_solution d = 0

module _ (drillx : Drillx) where
  open drillx use {Solution, difficulty}

  abbrev pub held : Pubkey → Server Solution → ℕ
  held pubkey st = difficulty_of (get pubkey st.epoch_hashes.submissions)

  -- What a message scores: its difficulty if it is accepted, and nothing if not.
  abbrev pub score : Server Solution → SocketAddr × Solution × Pubkey → ℕ
  score st (addr, solution, pubkey) =
      scored (verdict drillx st addr solution pubkey) (difficulty solution)

  -- The same for one key.
  abbrev pub score_of : Pubkey → Server Solution → SocketAddr × Solution × Pubkey → ℕ
  score_of key st (addr, solution, pubkey) =
      if nat_beq pubkey key then score st (addr, solution, pubkey) else 0

  record_submission-held_self :
      (e : EpochHashes Solution) (miner_id : ℕ) (solution : Solution) (pubkey : Pubkey)
      → difficulty_of (get pubkey (record_submission drillx e miner_id solution pubkey).submissions)
        ≡ max (difficulty_of (get pubkey e.submissions)) (difficulty solution)
  unfolding record_submission insert_submission submission_of
  record_submission-held_self e miner_id solution pubkey =
      let new = submission_of drillx miner_id solution in
      let own = get-insert_self pubkey new e.submissions in
      elim (Option-cases (get pubkey e.submissions)) [
        | inl none_yet ↦ rw (none_yet, record_submission, own) (omega arith)
        | inr (last, found) ↦ elim (Bool-cases (ltb last.supplied_diff (difficulty solution))) [
          | inl harder ↦ rw (found, record_submission, harder, own) (ground (arith, harder))
          | inr easier ↦ rw (found, record_submission, easier, found) (ground (arith, easier))
        ]
      ]

  record_submission-held_ne :
      (e : EpochHashes Solution) (miner_id : ℕ) (solution : Solution) (pubkey key : Pubkey)
      → pubkey ≢ key
      → get key (record_submission drillx e miner_id solution pubkey).submissions
        ≡ get key e.submissions
  unfolding record_submission insert_submission submission_of
  record_submission-held_ne e miner_id solution pubkey key other =
      let new = submission_of drillx miner_id solution in
      let apart = get-insert_ne key pubkey new e.submissions other in
      elim (Option-cases (get pubkey e.submissions)) [
        | inl none_yet ↦ rw (none_yet, record_submission) apart
        | inr (last, found) ↦ elim (Bool-cases (ltb last.supplied_diff (difficulty solution))) [
          | inl harder ↦ rw (found, record_submission, harder) apart
          | inr easier ↦ rw (found, record_submission, easier)
        ]
      ]

  -- The best hash takes part too, if the epoch was sound.
  record_submission-best :
      (e : EpochHashes Solution) (miner_id : ℕ) (solution : Solution) (pubkey : Pubkey)
      → IsSound drillx e
      → (record_submission drillx e miner_id solution pubkey).best_hash.difficulty
        ≡ max e.best_hash.difficulty (difficulty solution)
  unfolding record_submission insert_submission submission_of
  record_submission-best e miner_id solution pubkey sound =
      let new = submission_of drillx miner_id solution in
      let P = λ (b : EpochHashes Solution).
        b.best_hash.difficulty ≡ max e.best_hash.difficulty (difficulty solution) in
      let inserted : P (insert_submission drillx e miner_id solution pubkey) =
        elim (Bool-cases (ltb e.best_hash.difficulty (difficulty solution))) [
          | inl harder ↦ rw harder (ground (arith, harder))
          | inr easier ↦ rw easier (ground (arith, easier))
        ] in
      elim (Option-cases (get pubkey e.submissions)) [
        | inl none_yet ↦ rw (none_yet, record_submission) inserted
        | inr (last, found) ↦
            let known =
              All-get (IsRecorded e.best_hash.difficulty) pubkey last e.submissions sound.recorded
                found in
            elim (Bool-cases (ltb last.supplied_diff (difficulty solution))) [
              | inl harder ↦ rw (found, record_submission, harder) inserted
              | inr easier ↦ rw (found, record_submission, easier) (ground (arith, easier, known.1))
            ]
      ]

  settle-held :
      (st : Server Solution) (addr : SocketAddr) (solution : Solution) (pubkey key : Pubkey)
      (v : Verdict)
      → held key (settle drillx st addr solution pubkey v).0
        ≡ max (held key st) (if nat_beq pubkey key then scored v (difficulty solution) else 0)
  unfolding settle
  settle-held st addr solution pubkey key low_difficulty = ground arith
  settle-held st addr solution pubkey key window_closed = ground arith
  settle-held st addr solution pubkey key no_nonce_range = ground arith
  settle-held st addr solution pubkey key out_of_range = ground arith
  settle-held st addr solution pubkey key no_socket = ground arith
  settle-held st addr solution pubkey key invalid_solution = ground arith
  settle-held st addr solution pubkey key (accepted miner_id) =
      let e = st.epoch_hashes in
      elim (ℕ_discrete pubkey key) [
        | no other ↦
            let misses : nat_beq pubkey key ≡ false = ground (arith, other) in
            rw (misses, record_submission-held_ne e miner_id solution pubkey key other)
              (omega arith)
        | yes same ↦
            let hits : nat_beq pubkey key ≡ true = ground (arith, same) in
            rw hits (
              subst
                (λ (k : Pubkey).
                  difficulty_of
                    (get k (record_submission drillx e miner_id solution pubkey).submissions)
                  ≡ max (difficulty_of (get k e.submissions)) (difficulty solution))
                same (record_submission-held_self e miner_id solution pubkey))
      ]

  settle-best :
      (st : Server Solution) (addr : SocketAddr) (solution : Solution) (pubkey : Pubkey)
      (v : Verdict)
      → IsSound drillx st.epoch_hashes
      → (settle drillx st addr solution pubkey v).0.epoch_hashes.best_hash.difficulty
        ≡ max st.epoch_hashes.best_hash.difficulty (scored v (difficulty solution))
  unfolding settle
  settle-best st addr solution pubkey low_difficulty sound = omega arith
  settle-best st addr solution pubkey window_closed sound = omega arith
  settle-best st addr solution pubkey no_nonce_range sound = omega arith
  settle-best st addr solution pubkey out_of_range sound = omega arith
  settle-best st addr solution pubkey no_socket sound = omega arith
  settle-best st addr solution pubkey invalid_solution sound = omega arith
  settle-best st addr solution pubkey (accepted miner_id) sound =
      record_submission-best st.epoch_hashes miner_id solution pubkey sound

  -- The checks do not read the hashes.
  top_of-hashes :
      (st : Server Solution) (e : EpochHashes Solution) (key : Pubkey)
      (msgs : List (SocketAddr × Solution × Pubkey))
      → (top_of (score_of key (with_hashes st e)) msgs ≡ top_of (score_of key st) msgs)
        × (top_of (score (with_hashes st e)) msgs ≡ top_of (score st) msgs)
  unfolding verdict
  top_of-hashes st e key msgs = (refl, refl)

  -- After a batch each key holds the larger of what it held and of what its accepted messages score, and
  -- if the epoch's hashes were sound, the best difficulty is the larger of what it was and of what all
  -- accepted messages score. Whether a message is accepted is judged on the state before the batch.
  pub handle_submissions_replays :
      (st : Server Solution) (key : Pubkey) (msgs : List (SocketAddr × Solution × Pubkey))
      → IsSound drillx st.epoch_hashes
      → (held key (handle_submissions drillx st msgs).0
          ≡ max (held key st) (top_of (score_of key st) msgs))
        × ((handle_submissions drillx st msgs).0.epoch_hashes.best_hash.difficulty
            ≡ max st.epoch_hashes.best_hash.difficulty (top_of (score st) msgs))
  unfolding handle_submissions handle_submission
  handle_submissions_replays st key [] sound = (omega arith, omega arith)
  handle_submissions_replays st key ((addr, solution, pubkey) ∷ msgs) sound =
      let st' = (handle_submission drillx st (addr, solution, pubkey)).0 in
      let (rest, best) =
        handle_submissions_replays st' key msgs
          (handle_submission-IsSound drillx st (addr, solution, pubkey) sound) in
      let v = verdict drillx st addr solution pubkey in
      let same = (settle-Frames drillx st addr solution pubkey v).0 in
      let (scores, all_scores) = top_of-hashes st st'.epoch_hashes key msgs in
      (
        max_step (held key st) (score_of key st (addr, solution, pubkey)) rest
            (settle-held st addr solution pubkey key v)
            (ap (λ (s : Server Solution). top_of (score_of key s) msgs) same ∙ scores),
        max_step st.epoch_hashes.best_hash.difficulty (score st (addr, solution, pubkey)) best
            (settle-best st addr solution pubkey v sound)
            (ap (λ (s : Server Solution). top_of (score s) msgs) same ∙ all_scores),
      )

  -- Two orders of the messages of a batch come to the same difficulties: for each key, and if the
  -- epoch's hashes were sound, for the best hash.
  pub handle_submissions_permutes :
      (st : Server Solution) (key : Pubkey) (msgs msgs' : List (SocketAddr × Solution × Pubkey))
      → IsSound drillx st.epoch_hashes
      → Perm msgs msgs'
      → (held key (handle_submissions drillx st msgs).0
          ≡ held key (handle_submissions drillx st msgs').0)
        × ((handle_submissions drillx st msgs).0.epoch_hashes.best_hash.difficulty
            ≡ (handle_submissions drillx st msgs').0.epoch_hashes.best_hash.difficulty)
  handle_submissions_permutes st key msgs msgs' sound perm =
      let (one, best) = handle_submissions_replays st key msgs sound in
      let (one', best') = handle_submissions_replays st key msgs' sound in
      let keeps = top_of-Perm (score_of key st) perm in
      let keeps_all = top_of-Perm (score st) perm in
      (
        one ∙ ap (max (held key st)) keeps ∙ sym one',
        best ∙ ap (max st.epoch_hashes.best_hash.difficulty) keeps_all ∙ sym best',
      )

-- ===== src/Rewards/Payout.antt =====
-- What `pool_mine_success_system` (src/systems/pool_mine_success_system.rs) writes once the reward is
-- divided: the submissions and the rewards in batches, the pool's total, and the challenge's row. The
-- accesses to the database are arguments. The table `submissions_2` has its newest row first.
pub mod Tables
pub mod Written
use coal_pool_server.Prelude.{
  ℕ, ◌+◌, Bool, true, false, Option, none, some, List, [], ◌∷◌, if◌then◌else◌, nat_beq, nat_eq, ltb,
  u64_mod,
}
use coal_pool_server.Prelude.Int.{ℤ}
use coal_pool_server.Prelude.HashMap.{HashMap, get, insert}
use coal_pool_server.State.{Pubkey, Challenge}
use coal_pool_server.Models.{InsertSubmission, Reward, Pool}
use coal_pool_server.Database.{
  Result, ok, err, failed_to_update_row, failed_to_insert_row, query_failed, Access, interact,
  chunks, retry, update_batches,
}
use coal_pool_server.Database.Challenges.{ChallengeTable, update_challenge_rewards}
use coal_pool_server.Rewards.{MessageInternalMineSuccess, Shares, divide}

pub record Submission : Type 0 where
  pub id : ℕ
  pub miner_id : ℕ
  pub challenge_id : ℕ
  pub nonce : ℕ
  pub difficulty : ℤ

pub record SubmissionTable : Type 0 where
  pub rows : List Submission
  pub next_id : ℕ

abbrev pub submission_row : InsertSubmission → ℕ → Submission
submission_row s id = record {
  id = id;
  miner_id = s.miner_id;
  challenge_id = s.challenge_id;
  nonce = s.nonce;
  difficulty = s.difficulty;
}

abbrev pub insert_submission_row : InsertSubmission → SubmissionTable → SubmissionTable
insert_submission_row s t = record {
  rows = submission_row s t.next_id ∷ t.rows;
  next_id = t.next_id + 1;
}

abbrev pub insert_submissions : List InsertSubmission → SubmissionTable → SubmissionTable
insert_submissions [] t = t
insert_submissions (s ∷ ss) t = insert_submissions ss (insert_submission_row s t)

-- An insertion of no rows is an error.
abbrev pub inserted : List InsertSubmission → SubmissionTable → Result SubmissionTable
inserted [] t = err failed_to_insert_row
inserted (s ∷ ss) t = ok (insert_submissions (s ∷ ss) t)

unfoldable pub add_new_submissions_batch :
    Access → List InsertSubmission → SubmissionTable → Result SubmissionTable
add_new_submissions_batch access batch t = interact access (inserted batch t)

unfoldable pub add_batches :
    List (List Access) → List (List InsertSubmission) → SubmissionTable → Option SubmissionTable
unfolding retry add_new_submissions_batch
add_batches attempts [] t = some t
add_batches [] (batch ∷ batches) t = none
add_batches (accesses ∷ attempts) (batch ∷ batches) t =
    elim (retry accesses (λ (access : Access). add_new_submissions_batch access batch t)) [
      | none ↦ none
      | some t' ↦ add_batches attempts batches t'
    ]

unfoldable pub find_submission : ℕ → List Submission → Option Submission
find_submission nonce [] = none
find_submission nonce (r ∷ rs) = if nat_beq r.nonce nonce then some r else find_submission nonce rs

abbrev pub id_of : Option Submission → Result ℕ
id_of none = err query_failed
id_of (some r) = ok r.id

unfoldable pub get_submission_id_with_nonce : Access → ℕ → SubmissionTable → Result ℕ
unfolding find_submission
get_submission_id_with_nonce access nonce t = interact access (id_of (find_submission nonce t.rows))

-- The total of the pool's row; no row is an error.
abbrev pub earned : Pubkey → ℕ → HashMap Pubkey Pool → Option Pool → Result (HashMap Pubkey Pool)
earned authority amount pools none = err failed_to_update_row
earned authority amount pools (some pool) =
    if ltb (pool.total_rewards + amount) u64_mod
    then ok (insert authority (record pool { total_rewards = pool.total_rewards + amount }) pools)
    else err query_failed

unfoldable pub update_pool_rewards :
    Access → Pubkey → ℕ → HashMap Pubkey Pool → Result (HashMap Pubkey Pool)
update_pool_rewards access authority amount pools =
    interact access (earned authority amount pools (get authority pools))

-- The challenge gets its submission and its reward, or is passed over.
abbrev pub or_same : Result ChallengeTable → ChallengeTable → ChallengeTable
or_same (ok t') t = t'
or_same (err e) t = t

abbrev pub mark_challenge : Access → Challenge → ℕ → ChallengeTable → Result ℕ → ChallengeTable
mark_challenge access challenge rewards t (err e) = t
mark_challenge access challenge rewards t (ok id) =
    or_same (update_challenge_rewards access challenge id rewards t) t

pub record Books : Type 0 where
  pub submissions : SubmissionTable
  pub rewards : List Reward
  pub pools : HashMap Pubkey Pool
  pub challenges : ChallengeTable

-- The accesses of all the calls.
pub record Attempts : Type 0 where
  pub submissions : List (List Access)
  pub rewards : List (List Access)
  pub pool : List Access
  pub look : Access
  pub mark : Access

-- How it ends: all is written, the division panicked, or a call is still tried.
pub data Payout : Type 0 where
  paid : Books → Payout
  panicked waiting : Payout

abbrev pub booked :
    Attempts
    → MessageInternalMineSuccess
    → Option SubmissionTable
    → Option (List Reward)
    → Option (HashMap Pubkey Pool)
    → ChallengeTable
    → Payout
booked a msg none rewards pools challenges = waiting
booked a msg (some t) none pools challenges = waiting
booked a msg (some t) (some rewards) none challenges = waiting
booked a msg (some t) (some rewards) (some pools) challenges = paid (record {
  submissions = t;
  rewards = rewards;
  pools = pools;
  challenges =
      mark_challenge a.mark msg.challenge msg.rewards challenges
        (get_submission_id_with_nonce a.look msg.best_nonce t);
})

abbrev pub pay_shares :
    Attempts → Pubkey → MessageInternalMineSuccess → Books → Option Shares → Payout
pay_shares a wallet msg b none = panicked
pay_shares a wallet msg b (some shares) =
    booked a msg (add_batches a.submissions (chunks 1000 shares.submissions) b.submissions)
      (update_batches a.rewards (chunks 400 shares.rewards) b.rewards)
      (retry a.pool (λ (access : Access). update_pool_rewards access wallet msg.rewards b.pools))
      b.challenges

-- The handler of one message, up to the stakers' part, which is `pay_stakers` of Rewards/Stakers/Payment.antt.
unfoldable pub handle_mine_success : Attempts → Pubkey → MessageInternalMineSuccess → Books → Payout
unfolding divide add_batches update_batches retry update_pool_rewards get_submission_id_with_nonce
    update_challenge_rewards
handle_mine_success a wallet msg b = pay_shares a wallet msg b (divide msg)

-- ===== src/Rewards/Payout/Written.antt =====
-- What the handler of `pool_mine_success_system` (src/systems/pool_mine_success_system.rs) has written at
-- its end.
use coal_pool_server.Prelude.{
  ℕ, ◌+◌, ◌<◌, ◌≡◌, ◌⊎◌, inl, inr, refl, sym, ap, ◌∙◌, true, Option, some, List, [], ◌∷◌, map,
  arith, All, nat_eq, ltb, u64_mod, Option-cases,
}
use coal_pool_server.Prelude.HashMap.{HashMap, get, insert, HasDistinctKeys}
use coal_pool_server.State.{Pubkey, InternalMessageSubmission}
use coal_pool_server.Models.{InsertSubmission, Reward, Pool}
use coal_pool_server.Database.{ok, granted, amounts, chunks}
use coal_pool_server.Database.Batches.{credit, HasRoom, update_chunks-eq}
use coal_pool_server.Database.Attempts.{Reaches, ReachesAll}
use coal_pool_server.Database.Challenges.{
  ChallengeRow, ChallengeTable, find_challenge, set_rewards, update_challenge_rewards,
}
use coal_pool_server.Rewards.{
  MessageInternalMineSuccess, Shares, shares_of, add_share, earned_rewards, insert_submission_of,
  divide, miners_rewards_of,
}
use coal_pool_server.Rewards.Payout.{
  Submission, SubmissionTable, insert_submissions, find_submission, get_submission_id_with_nonce,
  earned, update_pool_rewards, mark_challenge, Books, Attempts, paid, booked, pay_shares,
  handle_mine_success,
}
use coal_pool_server.Rewards.Payout.Tables.{
  retry-Reaches, add_chunks-eq, HasNonce, insert_submissions-FindsIn,
}

-- The rows that the division makes of the submissions, in their order.
abbrev pub rows_of : ℕ → HashMap Pubkey InternalMessageSubmission → List InsertSubmission
rows_of id [] = []
rows_of id ((pubkey, s) ∷ m) = insert_submission_of id s ∷ rows_of id m

shares_of-rows :
    (t k id : ℕ) (m : HashMap Pubkey InternalMessageSubmission) (shares : Shares)
    → shares_of t k id m ≡ some shares
    → shares.submissions ≡ rows_of id m
unfolding shares_of add_share
shares_of-rows t k id [] shares h =
    let same : record { rewards = []; submissions = []; total_earned = 0 } ≡ shares = cc h in
    sym (ap (λ (x : Shares). x.submissions) same)
shares_of-rows t k id ((pubkey, s) ∷ m) shares h =
    elim (Option-cases (earned_rewards t s.hashpower k)) [
      | inl fails ↦ absurd (ground (arith, h, fails))
      | inr (q, earns) ↦ elim (Option-cases (shares_of t k id m)) [
        | inl fails ↦ absurd (ground (arith, h, earns, fails))
        | inr (rest, divides) ↦
            let same : add_share id s q rest ≡ shares = ground (arith, h, earns, divides) in
            sym (ap (λ (x : Shares). x.submissions) same)
            ∙ ap (λ (xs : List InsertSubmission). insert_submission_of id s ∷ xs)
                (shares_of-rows t k id m rest divides)
      ]
    ]

-- One of the epoch's submissions has the nonce.
abbrev pub Supplies : ℕ → HashMap Pubkey InternalMessageSubmission → Type 0
Supplies nonce [] = ⊥
Supplies nonce ((pubkey, s) ∷ m) = (s.supplied_nonce ≡ nonce) ⊎ Supplies nonce m

rows_of-HasNonce :
    (nonce id : ℕ) (m : HashMap Pubkey InternalMessageSubmission)
    → Supplies nonce m
    → HasNonce nonce (rows_of id m)
unfolding insert_submission_of
rows_of-HasNonce nonce id [] h = h
rows_of-HasNonce nonce id ((pubkey, s) ∷ m) (inl same) = inl same
rows_of-HasNonce nonce id ((pubkey, s) ∷ m) (inr h) = inr (rows_of-HasNonce nonce id m h)

rows_of-All :
    (id : ℕ) (m : HashMap Pubkey InternalMessageSubmission)
    → All (λ (s : InsertSubmission). s.challenge_id ≡ id) (rows_of id m)
unfolding insert_submission_of
rows_of-All id [] = tt
rows_of-All id ((pubkey, s) ∷ m) = (refl, rows_of-All id m)

earned-ok :
    (wallet : Pubkey) (amount : ℕ) (pools : HashMap Pubkey Pool) (pool : Pool)
    → get wallet pools ≡ some pool
    → pool.total_rewards + amount < u64_mod
    → earned wallet amount pools (get wallet pools)
      ≡ ok (insert wallet (record pool { total_rewards = pool.total_rewards + amount }) pools)
earned-ok wallet amount pools pool has fits =
    let room : ltb (pool.total_rewards + amount) u64_mod ≡ true = ground (arith, fits) in
    ap (earned wallet amount pools) has ∙ rw room

marked-eq :
    (a : Attempts) (msg : MessageInternalMineSuccess) (challenges : ChallengeTable)
    (t : SubmissionTable) (best : Submission) (row : ChallengeRow)
    → a.look ≡ granted
    → a.mark ≡ granted
    → find_submission msg.best_nonce t.rows ≡ some best
    → find_challenge msg.challenge challenges.rows ≡ some row
    → mark_challenge a.mark msg.challenge msg.rewards challenges
        (get_submission_id_with_nonce a.look msg.best_nonce t)
      ≡ record challenges { rows = set_rewards msg.challenge best.id msg.rewards challenges.rows }
unfolding get_submission_id_with_nonce update_challenge_rewards
marked-eq a msg challenges t best row looks marks found knows = rw (looks, marks, found, knows)

booked-eq :
    (a : Attempts) (msg : MessageInternalMineSuccess) (challenges : ChallengeTable)
    (t : SubmissionTable) (rewards : List Reward) (pools : HashMap Pubkey Pool)
    (marked : ChallengeTable) {o : Option SubmissionTable} {p : Option (List Reward)}
    {q : Option (HashMap Pubkey Pool)}
    → o ≡ some t
    → p ≡ some rewards
    → q ≡ some pools
    → mark_challenge a.mark msg.challenge msg.rewards challenges
        (get_submission_id_with_nonce a.look msg.best_nonce t)
      ≡ marked
    → booked a msg o p q challenges
      ≡ paid (record { submissions = t; rewards = rewards; pools = pools; challenges = marked })
booked-eq a msg challenges t rewards pools marked {o} {p} {q} e1 e2 e3 e4 =
    ap (λ (x : Option SubmissionTable). booked a msg x p q challenges) e1
    ∙ ap (λ (x : Option (List Reward)). booked a msg (some t) x q challenges) e2
    ∙ ap (λ (x : Option (HashMap Pubkey Pool)). booked a msg (some t) (some rewards) x challenges)
        e3
    ∙ ap
        (λ (x : ChallengeTable).
          paid (record { submissions = t; rewards = rewards; pools = pools; challenges = x }))
        e4

-- What the handler has written for the message: the epoch's submissions, the credit of the shares, the
-- reward in the total of the pool, and in the row of the challenge the reward and the id of a
-- submission of that challenge with the best nonce.
pub record HasWritten (wallet : Pubkey) (msg : MessageInternalMineSuccess) (shares : Shares)
    (pool : Pool) (b b' : Books) : Type 0 where
  pub submissions :
      b'.submissions ≡ insert_submissions (rows_of msg.challenge_id msg.submissions) b.submissions
  pub rewards : b'.rewards ≡ map (credit shares.rewards) b.rewards
  pub pools :
      b'.pools
      ≡ insert wallet (record pool { total_rewards = pool.total_rewards + msg.rewards }) b.pools
  pub best : Submission
  pub found : find_submission msg.best_nonce b'.submissions.rows ≡ some best
  pub its_nonce : best.nonce ≡ msg.best_nonce
  pub its_challenge : best.challenge_id ≡ msg.challenge_id
  pub challenge :
      b'.challenges.rows ≡ set_rewards msg.challenge best.id msg.rewards b.challenges.rows

-- If the division has a result, with no miner twice, and every call gets through at some attempt (the look
-- for the best submission and the update of the challenge at their only one), the rows of the rewards
-- and the pool's row have room, the challenge is in its table, and a submission of the message has the
-- best nonce, then the handler comes to the stakers' part, and it has written the submissions, the shares, the pool's total,
-- and for the challenge the reward and a submission of it that has the best nonce.
pub handle_mine_success-HasWritten :
    (a : Attempts) (wallet : Pubkey) (msg : MessageInternalMineSuccess) (b : Books)
    (shares : Shares) (pool : Pool) (row : ChallengeRow)
    → divide msg ≡ some shares
    → HasDistinctKeys (amounts shares.rewards)
    → ReachesAll a.submissions (chunks 1000 shares.submissions)
    → ReachesAll a.rewards (chunks 400 shares.rewards)
    → Reaches a.pool
    → a.look ≡ granted
    → a.mark ≡ granted
    → All (HasRoom shares.rewards) b.rewards
    → get wallet b.pools ≡ some pool
    → pool.total_rewards + msg.rewards < u64_mod
    → find_challenge msg.challenge b.challenges.rows ≡ some row
    → Supplies msg.best_nonce msg.submissions
    → (b' : Books) × (handle_mine_success a wallet msg b ≡ paid b')
      × HasWritten wallet msg shares pool b b'
unfolding handle_mine_success divide update_pool_rewards
handle_mine_success-HasWritten a wallet msg b shares pool row divided distinct subs rewards pools
      looks marks room has fits knows supplied =
    let rows = rows_of msg.challenge_id msg.submissions in
    let t = insert_submissions shares.submissions b.submissions in
    let of_rows =
      shares_of-rows (miners_rewards_of msg) msg.total_hashpower msg.challenge_id msg.submissions
        shares divided in
    let table = ap (λ (xs : List InsertSubmission). insert_submissions xs b.submissions) of_rows in
    let pools' =
      insert wallet (record pool { total_rewards = pool.total_rewards + msg.rewards }) b.pools in
    let rewards' = map (credit shares.rewards) b.rewards in
    let (best, found, its_nonce, its_challenge) =
      insert_submissions-FindsIn msg.best_nonce msg.challenge_id rows b.submissions
        (rows_of-All msg.challenge_id msg.submissions)
        (inl (rows_of-HasNonce msg.best_nonce msg.challenge_id msg.submissions supplied)) in
    let found' : find_submission msg.best_nonce t.rows ≡ some best =
      ap (λ (x : SubmissionTable). find_submission msg.best_nonce x.rows) table ∙ found in
    let marked = record b.challenges {
      rows = set_rewards msg.challenge best.id msg.rewards b.challenges.rows;
    } in
    (
      record { submissions = t; rewards = rewards'; pools = pools'; challenges = marked },
      ap (pay_shares a wallet msg b) divided
          ∙ booked-eq a msg b.challenges t rewards' pools' marked
              (add_chunks-eq a.submissions shares.submissions b.submissions subs)
              (update_chunks-eq a.rewards shares.rewards b.rewards rewards distinct room)
              (retry-Reaches a.pool (earned wallet msg.rewards b.pools (get wallet b.pools)) pools'
                (earned-ok wallet msg.rewards b.pools pool has fits) pools)
              (marked-eq a msg b.challenges t best row looks marks found' knows),
      record {
        submissions = table;
        rewards = refl;
        pools = refl;
        best = best;
        found = found';
        its_nonce = its_nonce;
        its_challenge = its_challenge;
        challenge = refl;
      },
    )

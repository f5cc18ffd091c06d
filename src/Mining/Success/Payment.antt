-- ===== src/Mining/Success/Payment.antt =====
-- What `pool_mine_success_system` is told (src/systems/pool_submission_system.rs) is what it can divide.
use coal_pool_server.Prelude.{
  ℕ, ◌+◌, ◌*◌, ◌≤◌, ◌<◌, ◌≡◌, refl, sym, Option, none, some, List, [], ◌∷◌, map, arith, nat_eq,
  u64_mod, length, All, subst,
}
use coal_pool_server.Prelude.HashMap.{HashMap, get}
use coal_pool_server.State.{Pubkey, Drillx, EpochHashes, Proof, InternalMessageSubmission}
use coal_pool_server.Models.{Reward}
use coal_pool_server.Submissions.{min_hashpower, max_calculated_hashpower}
use coal_pool_server.Submissions.Epoch.{IsSound, IsBest, IsRecorded}
use coal_pool_server.Submissions.Hashpower.{hashpower_of_mono}
use coal_pool_server.Rewards.{
  MessageInternalMineSuccess, Shares, divide, full_rewards_of, commissions_of, staker_rewards_of,
}
use coal_pool_server.Rewards.Conservation.{hashpower_sum, balance_sum, divide_conserves}
use coal_pool_server.Database.{Access, for_rows, increase_row, update_rewards, retry}
use coal_pool_server.Database.Batches.{credit}
use coal_pool_server.Database.Updates.{for_rows-ok, retry-ok}
use coal_pool_server.Database.Challenges.{ChallengeRow, ChallengeTable}
use coal_pool_server.Mining.Success.{
  MineEvent, Receipt, unavailable, without_logs, malformed, returned, look_up, challenge_row,
  success_message, commission_rewards, MineEnd, told, no_event, panicked, waiting, Asks, tell,
  pay_commission, with_rewards, with_event, mine_success,
}

full_rewards_of-fits :
    (base boost full : ℕ) → full_rewards_of base boost ≡ some full → full < u64_mod
unfolding full_rewards_of
full_rewards_of-fits base boost full h = ground (arith, h)

module _ (old : Proof) (best_nonce : ℕ) (submissions : HashMap Pubkey InternalMessageSubmission)
    (rows : List Reward) (miner_id : ℕ) where
  -- The message is that of a reward that fits, and the commission is paid.
  record Tells (msg : MessageInternalMineSuccess) (rows' : List Reward) : Type 0 where
    full_rewards : ℕ
    fits : full_rewards < u64_mod
    challenge_id : ℕ
    its : msg ≡ success_message old best_nonce submissions full_rewards challenge_id
    paid : rows' ≡ map (credit (commission_rewards miner_id msg.commissions)) rows

  abbrev IsPaid : MineEnd → Type 0
  IsPaid (told msg t rows') = Tells msg rows'
  IsPaid no_event = Unit
  IsPaid panicked = Unit
  IsPaid waiting = Unit

  tell-IsPaid :
      (full id : ℕ) (t : ChallengeTable) (o : Option (List Reward))
      → full < u64_mod
      → ((rows' : List Reward)
          → o ≡ some rows'
          → rows' ≡ map (credit (commission_rewards miner_id (commissions_of full))) rows)
      → IsPaid (tell (success_message old best_nonce submissions full id) t o)
  unfolding success_message
  tell-IsPaid full id t none fits paid = tt
  tell-IsPaid full id t (some rows') fits paid = record {
    full_rewards = full;
    fits = fits;
    challenge_id = id;
    its = refl;
    paid = paid rows' refl;
  }

  pay_commission-IsPaid :
      (asks : Asks) (full : ℕ) (found : Option (ChallengeRow × ChallengeTable))
      → full < u64_mod
      → IsPaid (
          pay_commission asks miner_id (success_message old best_nonce submissions full) rows found)
  unfolding update_rewards success_message
  pay_commission-IsPaid asks full none fits = tt
  pay_commission-IsPaid asks full (some (r, t)) fits =
      let us = commission_rewards miner_id (commissions_of full) in
      let update = λ (access : Access). update_rewards access us rows in
      tell-IsPaid full r.id t (retry asks.updates update) fits λ rows' h.
        for_rows-ok us rows rows' (retry-ok asks.updates (for_rows (increase_row us) rows) rows' h)

  with_rewards-IsPaid :
      (asks : Asks) (found : Option (ChallengeRow × ChallengeTable)) (sum : Option ℕ)
      → ((full : ℕ) → sum ≡ some full → full < u64_mod)
      → IsPaid
          (with_rewards asks miner_id (success_message old best_nonce submissions) rows found sum)
  with_rewards-IsPaid asks found none fits = tt
  with_rewards-IsPaid asks found (some full) fits =
      pay_commission-IsPaid asks full found (fits full refl)

  with_event-IsPaid :
      (rest : MineEvent → MineEnd) (o : Option Receipt)
      → ((event : MineEvent) → IsPaid (rest event))
      → IsPaid (with_event rest o)
  with_event-IsPaid rest none h = tt
  with_event-IsPaid rest (some unavailable) h = tt
  with_event-IsPaid rest (some without_logs) h = tt
  with_event-IsPaid rest (some malformed) h = tt
  with_event-IsPaid rest (some (returned none)) h = tt
  with_event-IsPaid rest (some (returned (some event))) h = h event

  mine_success-IsPaid :
      (asks : Asks) (receipts : List Receipt) (pool_id : ℕ) (t : ChallengeTable)
      → IsPaid (mine_success asks receipts pool_id miner_id old best_nonce submissions t rows)
  unfolding mine_success
  mine_success-IsPaid asks receipts pool_id t = with_event-IsPaid _ (look_up receipts) λ event.
      with_rewards-IsPaid asks (challenge_row asks.looks pool_id old.challenge t)
        (full_rewards_of event.net_base_reward event.net_miner_boost_reward)
        (full_rewards_of-fits event.net_base_reward event.net_miner_boost_reward)

-- The hashpowers of an epoch whose best difficulty wraps nothing.
hashpower_sum-bounds :
    (best : ℕ) (m : HashMap Pubkey InternalMessageSubmission)
    → best ≤ 69
    → All (IsRecorded best) m
    → (min_hashpower * length m ≤ hashpower_sum m)
      × (hashpower_sum m ≤ max_calculated_hashpower * length m)
hashpower_sum-bounds best [] le h = (omega arith, omega arith)
hashpower_sum-bounds best ((pubkey, s) ∷ m) le ((hard, below, its), rest) =
    let (lo, up) = hashpower_sum-bounds best m le rest in
    let (least, same, most) =
      hashpower_of_mono s.supplied_diff s.supplied_diff hard (omega arith) (omega arith) in
    (omega (arith, its, lo, least), omega (arith, its, up, most))

-- There is a submission if there is a best solution.
best_nonempty :
    (m : HashMap Pubkey InternalMessageSubmission) (pubkey : Pubkey) (s : InternalMessageSubmission)
    → get pubkey m ≡ some s
    → 0 < length m
best_nonempty [] pubkey s h = absurd (cc h)
best_nonempty (x ∷ m) pubkey s h = omega arith

-- The division has a result, in which the commission and the shares add up to the reward at most, and
-- leave less than one unit for each submission.
abbrev pub DividesAll :
    HashMap Pubkey InternalMessageSubmission → MessageInternalMineSuccess → Type 0
DividesAll m msg =
    (shares : Shares) × (divide msg ≡ some shares)
    × (balance_sum shares.rewards + msg.commissions ≤ msg.rewards)
    × (msg.rewards < balance_sum shares.rewards + msg.commissions + length m)

module _ (drillx : Drillx) where
  sound_nonempty :
      (e : EpochHashes drillx.Solution) (o : Option drillx.Solution) (best : drillx.Solution)
      → o ≡ some best
      → IsBest drillx o e.best_hash.difficulty e.submissions
      → 0 < length e.submissions
  sound_nonempty e none best has b = absurd (cc has)
  sound_nonempty e (some _) best has (d, (pubkey, s, found, top)) =
      best_nonempty e.submissions pubkey s found

  success_message-DividesAll :
      (e : EpochHashes drillx.Solution) (best : drillx.Solution) (old : Proof)
      (best_nonce full id : ℕ)
      → IsSound drillx e
      → e.best_hash.solution ≡ some best
      → e.best_hash.difficulty ≤ 69
      → length e.submissions ≤ 1099511627776
      → full < u64_mod
      → DividesAll e.submissions (success_message old best_nonce e.submissions full id)
  unfolding success_message staker_rewards_of
  success_message-DividesAll e best old best_nonce full id sound has below few fits =
      let some_one = sound_nonempty e e.best_hash.solution best has sound.best in
      let (lo, up) =
        hashpower_sum-bounds e.best_hash.difficulty e.submissions below sound.recorded in
      let msg = success_message old best_nonce e.submissions full id in
      let (shares, computed, most, rest) =
        divide_conserves msg fits refl refl (omega (arith, lo, some_one))
          (omega (arith, up, few)) in
      (shares, computed, omega (arith, most), omega (arith, rest))

-- If the epoch's hashes are sound and have a best solution, of difficulty 69 at most, and there are no
-- more than 2^40 submissions, then whenever the task tells of a success, the commission has been added
-- to the row of its miner, and the division of what it tells has a result: commission and shares add
-- up to the reward at most, and leave less than one unit for each submission.
pub mine_success-Divides :
    (drillx : Drillx) (e : EpochHashes drillx.Solution) (best : drillx.Solution) (asks : Asks)
    (receipts : List Receipt) (pool_id miner_id : ℕ) (old : Proof) (best_nonce : ℕ)
    (t t' : ChallengeTable) (rows rows' : List Reward) (msg : MessageInternalMineSuccess)
    → IsSound drillx e
    → e.best_hash.solution ≡ some best
    → e.best_hash.difficulty ≤ 69
    → length e.submissions ≤ 1099511627776
    → mine_success asks receipts pool_id miner_id old best_nonce e.submissions t rows
      ≡ told msg t' rows'
    → (rows' ≡ map (credit (commission_rewards miner_id msg.commissions)) rows)
      × DividesAll e.submissions msg
mine_success-Divides drillx e best asks receipts pool_id miner_id old best_nonce t t' rows rows' msg
      sound has below few told_so =
    let p : Tells old best_nonce e.submissions rows miner_id msg rows' =
      subst (IsPaid old best_nonce e.submissions rows miner_id) told_so
        (mine_success-IsPaid old best_nonce e.submissions rows miner_id asks receipts pool_id t) in
    (
      p.paid,
      subst (DividesAll e.submissions) (sym p.its) (
          success_message-DividesAll drillx e best old best_nonce p.full_rewards p.challenge_id
            sound has below few p.fits),
    )

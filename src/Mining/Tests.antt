-- ===== src/Mining/Tests.antt =====
-- A round of the mine: one client's solution, its transaction, and the next challenge.
use coal_pool_server.Prelude.{
  ℕ, ◌≡◌, refl, true, false, none, some, List, [], ◌∷◌, ◌++◌, nat_beq, arith, map,
}
use coal_pool_server.Prelude.Int.{pos, ◌-ℤ◌, ◌+ℤ◌, saturating_add, saturating_sub}
use coal_pool_server.Cutoff.{get_cutoff}
use coal_pool_server.State.{Drillx, Server, Proof, EpochHashes, v2, SocketAddr, Pubkey}
use coal_pool_server.Submissions.{hashpower_of, pow2_64, handle_submissions, handle_submission}
use coal_pool_server.Claims.Transaction.{succeeded, unknown}
use coal_pool_server.Database.{granted}
use coal_pool_server.Database.Batches.{credit}
use coal_pool_server.Database.Challenges.{ChallengeTable, find_challenge, Knows, record_challenge}
use coal_pool_server.Models.{Reward}
use coal_pool_server.Rewards.{MessageInternalMineSuccess, commissions_of}
use coal_pool_server.Mining.{World, resend_turn, await_turn}
use coal_pool_server.Mining.Attempt.{Findings, attempt}
use coal_pool_server.Mining.Attempt.Ends.{HasMined, attempt-HasMined}
use coal_pool_server.ReadyClients.{
  Sent, assign, run_task, serve_client, serve_clients, should_mine, handle_ready_clients,
}
use coal_pool_server.Mining.Machine.Reserved.{
  starts, goes_on, none-Reserved, IsReserved, PunctualRun-IsReserved,
}
use coal_pool_server.Mining.Machine.{
  System, idle, open_round, after_attempt, await, with_server, opens, attempts, submits, awaits,
  serves, registers, here, next,
}
use coal_pool_server.Mining.Machine.Invariant.{IsFine, Reach-IsFine}
use coal_pool_server.Mining.Records.{resend_turn-Knows, await_turn_misses}
use coal_pool_server.Mining.Success.{
  Receipt, unavailable, without_logs, returned, look_up, Asks, told, mine_success,
  commission_rewards, success_message,
}
use coal_pool_server.Mining.Success.Payment.{DividesAll, mine_success-Divides}
use coal_pool_server.Mining.Success.Told.{mine_success_tells}

-- A solution is its difficulty and its nonce, and solves the challenge 7 only.
abbrev toy : Drillx
toy = record {
  Solution = ℕ × ℕ;
  difficulty = λ s. s.0;
  nonce = λ s. s.1;
  is_valid = λ s challenge. nat_beq challenge 7;
}

abbrev first_proof : Proof
first_proof = record { challenge = 7; last_hash_at = pos 1000; balance = 0 }

abbrev second_proof : Proof
second_proof = record { challenge = 8; last_hash_at = pos 2010; balance = 50 }

abbrev epoch : EpochHashes toy.Solution
epoch = record {
  challenge = 7;
  best_hash = record { solution = some (15, 3); difficulty = 15 };
  submissions =
      (100, record { miner_id = 11; supplied_diff = 15; supplied_nonce = 3; hashpower = 640 }) ∷ [];
}

abbrev server : Server toy.Solution
server = record {
  app_state = record {
    sockets = (1, record { pubkey = 100; miner_id = 11; client_version = v2 }) ∷ [];
    paused = false;
  };
  proof = first_proof;
  last_challenge = 6;
  epoch_hashes = epoch;
  client_nonce_ranges = [];
  ready_clients = [];
  nonce = 0;
  submission_window = record { closed = false };
  pongs = [];
}

abbrev world : World toy.Solution
world = record { server = server; challenges = record { rows = []; next_id = 1 } }

abbrev start : System toy.Solution
start = record { world = world; phase = idle; resenders = []; pending = [] }

abbrev findings : Findings
findings = record {
  loaded = some (first_proof, record { last_reset_at = pos 1990 });
  now = 2001;
  tip_account = 55;
  bus = 3;
  has_blockhash = true;
  is_invalid_hash = false;
  sends = none ∷ some 9 ∷ [];
  polls =
      record { elapsed = 2; status = unknown } ∷ record { elapsed = 4; status = succeeded } ∷ [];
}

abbrev late : List (SocketAddr × toy.Solution × Pubkey)
late = (1, (20, 4), 100) ∷ []

abbrev closed : System toy.Solution
closed = open_round start 2000

abbrev refused_late : System toy.Solution
refused_late = with_server closed (handle_submissions toy closed.world.server late).0

abbrev was_mined : System toy.Solution
was_mined = after_attempt refused_late 0 first_proof (15, 3) (attempt toy (15, 3) findings)

abbrev next_round : System toy.Solution
next_round = await 1 was_mined first_proof (some second_proof) ((granted, granted) ∷ [])

closed-window : closed.world.server.submission_window.closed ≡ true
unfolding open_round get_cutoff saturating_add saturating_sub ◌-ℤ◌ ◌+ℤ◌
closed-window = refl

next_round-window : next_round.world.server.submission_window.closed ≡ false
unfolding open_round get_cutoff saturating_add saturating_sub ◌-ℤ◌ ◌+ℤ◌ handle_submissions
    handle_submission after_attempt attempt await record_challenge
next_round-window = refl

epoch_sound : hashpower_of 15 ≡ 640
unfolding hashpower_of pow2_64
epoch_sound = refl

start-IsFine : IsFine toy start
unfolding hashpower_of pow2_64
start-IsFine = record {
  sound = record {
    distinct = (refl, tt);
    recorded = ((omega arith, omega arith, refl), tt);
    best = (refl, (100, _, refl, refl));
  };
  window = refl;
}

Reach-IsFine_example : IsFine toy next_round
unfolding open_round get_cutoff saturating_add saturating_sub ◌-ℤ◌ ◌+ℤ◌ handle_submissions
    handle_submission after_attempt attempt
Reach-IsFine_example = Reach-IsFine toy 1 start-IsFine (
    next
      (next (next (next here (opens start 2000 refl)) (submits closed late))
        (attempts refused_late 0 first_proof (15, 3) findings refl))
      (awaits was_mined first_proof (some second_proof) ((granted, granted) ∷ []) refl))

-- The client has asked for a range.
abbrev asking : System toy.Solution
asking = record start {
  world = record world { server = record server { ready_clients = (1, tt) ∷ [] } };
}

abbrev served : System toy.Solution
served = record (with_server asking (handle_ready_clients asking.world.server 1020).0) {
  pending = [] ++ (handle_ready_clients asking.world.server 1020).1;
}

abbrev task : Sent
task =
    (assign asking.world.server 7 (pos 36) 1
      (record { pubkey = 100; miner_id = 11; client_version = v2 })).1

abbrev registered : System toy.Solution
registered = record (with_server served (run_task task served.world.server)) { pending = [] ++ [] }

PunctualRun-IsReserved_example : IsReserved registered
unfolding handle_ready_clients should_mine get_cutoff serve_clients serve_client assign run_task
    saturating_add saturating_sub ◌-ℤ◌ ◌+ℤ◌
PunctualRun-IsReserved_example = PunctualRun-IsReserved toy 1 none-Reserved (
    goes_on (goes_on starts (serves asking 1020 (omega arith)) λ e. absurd (omega (arith, e)))
      (registers served [] [] task refl) λ e. refl)

attempt-HasMined_example : HasMined toy (15, 3) findings 9
unfolding attempt
attempt-HasMined_example = attempt-HasMined toy (15, 3) findings 9 refl

resend_turn-Knows_example :
    Knows
      (resend_turn 1 world first_proof false
        (some second_proof)
        ((granted, granted) ∷ [])).1.challenges
      (resend_turn 1 world first_proof false
        (some second_proof)
        ((granted, granted) ∷ [])).1.server.epoch_hashes.challenge
unfolding resend_turn record_challenge
resend_turn-Knows_example =
    resend_turn-Knows 1 world first_proof (some second_proof) ((granted, granted) ∷ []) refl

await_turn_misses_example :
    (find_challenge 8
        (await_turn 1 world first_proof
          (some second_proof)
          ((granted, granted) ∷ [])).1.challenges.rows
      ≡ none)
    × ((await_turn 1 world first_proof
          (some second_proof)
          ((granted, granted) ∷ [])).1.server.epoch_hashes.challenge
        ≡ 8)
unfolding find_challenge
await_turn_misses_example =
    await_turn_misses 1 world first_proof second_proof ((granted, granted) ∷ []) refl (omega arith)
      refl

abbrev asks : Asks
asks = record {
  looks = (granted, (granted, granted) ∷ []) ∷ (granted, []) ∷ [];
  updates = granted ∷ [];
}

abbrev receipts : List Receipt
receipts =
    unavailable
    ∷ without_logs
    ∷ returned (some (record { net_base_reward = 900; net_miner_boost_reward = 100 }))
    ∷ []

abbrev rows : List Reward
rows =
    record { id = 1; balance = 30; miner_id = 5 }
    ∷ record { id = 2; balance = 0; miner_id = 11 }
    ∷ []

abbrev credited : List Reward
credited =
    record { id = 1; balance = 80; miner_id = 5 }
    ∷ record { id = 2; balance = 0; miner_id = 11 }
    ∷ []

abbrev message : MessageInternalMineSuccess
message = success_message first_proof 3 epoch.submissions 1000 1

mine_success-Divides_example :
    (credited ≡ map (credit (commission_rewards 5 message.commissions)) rows)
    × DividesAll epoch.submissions message
unfolding mine_success success_message
mine_success-Divides_example =
    mine_success-Divides toy epoch (15, 3) asks receipts 1 5 first_proof 3 world.challenges _ rows
      credited message start-IsFine.sound refl (omega arith) (omega arith) refl

mine_success_tells_example :
    (msg : MessageInternalMineSuccess) × (t' : ChallengeTable) × (rows' : List Reward)
    × (mine_success asks receipts 1 5 first_proof 3 epoch.submissions world.challenges rows
        ≡ told msg t' rows')
    × Knows t' 7
unfolding look_up commissions_of
mine_success_tells_example =
    mine_success_tells receipts (record { net_base_reward = 900; net_miner_boost_reward = 100 })
      granted [] [] [] [] 1 5 first_proof 3 epoch.submissions world.challenges rows refl
      (omega arith) (omega arith, (omega arith, tt))

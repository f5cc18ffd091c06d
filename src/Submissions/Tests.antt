-- ===== src/Submissions/Tests.antt =====
-- The handler of submissions on a server with two clients.
use coal_pool_server.Prelude.{
  ℕ, ◌≡◌, refl, Bool, false, none, List, [], ◌∷◌, nat_beq, arith, ◌↔◌, max,
}
use coal_pool_server.Prelude.Int.{pos}
use coal_pool_server.State.{Drillx, Server, v2, SocketAddr, Pubkey}
use coal_pool_server.Submissions.{
  hashpower_of, accepted, verdict, handle_submissions, handle_submission, in_ranges, contains,
}
use coal_pool_server.Submissions.Epoch.{IsSound}
use coal_pool_server.Submissions.Batch.{Counts, verdict_iff, handle_submissions-IsSound}
use mathlib.Core.List.Perm
use coal_pool_server.Submissions.Replay.{
  held, score, score_of, top_of, handle_submissions_replays, handle_submissions_permutes,
}
use coal_pool_server.Submissions.Hashpower.{hashpower_of_vanishes}

-- A solution is its difficulty and its nonce, and solves the challenge 7 only.
abbrev toy : Drillx
toy = record {
  Solution = ℕ × ℕ;
  difficulty = λ s. s.0;
  nonce = λ s. s.1;
  is_valid = λ s challenge. nat_beq challenge 7;
}

-- Client 1 has key 100 and client 2 key 200.
abbrev server : Bool → Server toy.Solution
server closed = record {
  app_state = record {
    sockets =
        (1, record { pubkey = 100; miner_id = 11; client_version = v2 })
        ∷ (2, record { pubkey = 200; miner_id = 22; client_version = v2 })
        ∷ [];
    paused = false;
  };
  proof = record { challenge = 7; last_hash_at = pos 1000; balance = 0 };
  last_challenge = 6;
  epoch_hashes = record {
    challenge = 7;
    best_hash = record { solution = none; difficulty = 0 };
    submissions = [];
  };
  client_nonce_ranges =
      (100, record { start = 0; end = 50 } ∷ [])
      ∷ (200, record { start = 50; end = 100 } ∷ [])
      ∷ [];
  ready_clients = [];
  nonce = 100;
  submission_window = record { closed = closed };
  pongs = [];
}

-- A good submission, a harder one, an easier one, one out of range, and one that is too easy.
abbrev batch : List (SocketAddr × toy.Solution × Pubkey)
batch =
    (1, (15, 3), 100)
    ∷ (2, (18, 60), 200)
    ∷ (1, (13, 4), 100)
    ∷ (1, (30, 70), 100)
    ∷ (2, (11, 61), 200)
    ∷ []

batch_difficulty :
    (handle_submissions toy (server false) batch).0.epoch_hashes.best_hash.difficulty ≡ 18
unfolding handle_submissions handle_submission in_ranges contains
batch_difficulty = refl

handle_submissions-IsSound_example :
    IsSound toy (handle_submissions toy (server false) batch).0.epoch_hashes
handle_submissions-IsSound_example =
    handle_submissions-IsSound toy (server false) batch
      (record { distinct = tt; recorded = tt; best = (refl, refl) })

abbrev swapped : List (SocketAddr × toy.Solution × Pubkey)
swapped =
    (2, (18, 60), 200)
    ∷ (1, (15, 3), 100)
    ∷ (1, (13, 4), 100)
    ∷ (1, (30, 70), 100)
    ∷ (2, (11, 61), 200)
    ∷ []

handle_submissions_replays_example :
    (held toy 100 (handle_submissions toy (server false) batch).0
      ≡ max (held toy 100 (server false)) (top_of (score_of toy 100 (server false)) batch))
    × ((handle_submissions toy (server false) batch).0.epoch_hashes.best_hash.difficulty
        ≡ max 0 (top_of (score toy (server false)) batch))
handle_submissions_replays_example =
    handle_submissions_replays toy (server false) 100 batch
      (record { distinct = tt; recorded = tt; best = (refl, refl) })

handle_submissions_permutes_example :
    (held toy 100 (handle_submissions toy (server false) batch).0
      ≡ held toy 100 (handle_submissions toy (server false) swapped).0)
    × ((handle_submissions toy (server false) batch).0.epoch_hashes.best_hash.difficulty
        ≡ (handle_submissions toy (server false) swapped).0.epoch_hashes.best_hash.difficulty)
handle_submissions_permutes_example =
    handle_submissions_permutes toy (server false) 100 batch swapped
      (record { distinct = tt; recorded = tt; best = (refl, refl) }) (Perm.swap _ _ _)

verdict_iff_example :
    (verdict toy (server false) 1 (15, 3) 100 ≡ accepted 11)
    ↔ Counts toy (server false) 1 (15, 3) 100 11
verdict_iff_example = verdict_iff toy (server false) 1 (15, 3) 100 11

hashpower_of_vanishes_example : hashpower_of 72 ≡ 0
hashpower_of_vanishes_example = hashpower_of_vanishes 72 (omega arith)

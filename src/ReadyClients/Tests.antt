-- ===== src/ReadyClients/Tests.antt =====
-- A round of the loop over the ready clients, with two clients of which one is connected.
use coal_pool_server.Prelude.{ℕ, false, none, [], ◌∷◌, arith}
use coal_pool_server.Prelude.Int.{pos}
use coal_pool_server.State.{Server, v2}
use coal_pool_server.ReadyClients.{handle_ready_clients, run_tasks}
use coal_pool_server.ReadyClients.Ownership.{IsAssigned, handle_ready_clients-IsAssigned}

abbrev server : Server ℕ
server = record {
  app_state = record {
    sockets = (1, record { pubkey = 100; miner_id = 11; client_version = v2 }) ∷ [];
    paused = false;
  };
  proof = record { challenge = 7; last_hash_at = pos 1000; balance = 0 };
  last_challenge = 6;
  epoch_hashes = record {
    challenge = 7;
    best_hash = record { solution = none; difficulty = 0 };
    submissions = [];
  };
  client_nonce_ranges = [];
  ready_clients = (2, tt) ∷ (1, tt) ∷ [];
  nonce = 0;
  submission_window = record { closed = false };
  pongs = [];
}

handle_ready_clients-IsAssigned_example :
    IsAssigned (run_tasks (handle_ready_clients server 1020).1 (handle_ready_clients server 1020).0)
handle_ready_clients-IsAssigned_example =
    handle_ready_clients-IsAssigned server 1020 (handle_ready_clients server 1020).1 (omega arith)
      (record {
        below = λ pubkey n o. absurd (ground (arith, o.1));
        one_owner = λ p q n o o'. absurd (ground (arith, o.1));
      })
      λ task m. m

-- ===== src/Clients/Tests.antt =====
-- Two clients, their messages and their pongs.
use coal_pool_server.Prelude.{
  ℕ, ◌+◌, ◌≤◌, ◌<◌, ◌≡◌, refl, ◌↔◌, Bool, true, false, none, some, List, [], ◌∷◌, ◌++◌, arith,
  nat_beq, nat_eq, if◌then◌else◌,
}
use coal_pool_server.Prelude.Bytes.{from_le_bytes, le_bytes}
use coal_pool_server.Prelude.HashMap.{get}
use coal_pool_server.Prelude.Int.{pos}
use coal_pool_server.State.{Pubkey, SocketAddr, v1, v2, Server, best_solution, pong, ready}
use coal_pool_server.Models.{Miner}
use coal_pool_server.Database.{Result, ok, err, query_failed}
use coal_pool_server.Clients.{
  Signing, binary, text, close, pong_frame, continues, panics, process_message, process_binary,
  process_solution, read_messages, ws_handler, ws_handler_v2, upgraded, track_pongs,
}
use coal_pool_server.Clients.Parsing.{IsSigned, process_message_iff}
use coal_pool_server.Clients.Entry.{IsMiner, ws_handler_iff}
use coal_pool_server.Clients.Liveness.{is_old, track_pongs_lem}
use coal_pool_server.Clients.Sockets.{IsDistinct}

-- A signature is a number that its text spells, and a good one is the key. A solution is its nonce.
abbrev signing : Signing ℕ
signing = record {
  Signature = ℕ;
  is_utf8 = λ bytes. true;
  from_str = λ bytes. some (from_le_bytes bytes);
  verify = λ sig pubkey message. nat_beq sig pubkey;
  new_solution = λ digest nonce. from_le_bytes nonce;
}

abbrev submission : List ℕ
submission = 2 ∷ (le_bytes 16 5 ++ (le_bytes 8 77 ++ (le_bytes 32 100 ++ (100 ∷ []))))

abbrev client : SocketAddr
client = 1

sends : process_message signing (binary submission) 1 ≡ continues (some (best_solution 1 77 100))
unfolding process_message process_binary process_solution from_le_bytes le_bytes
sends = refl

too_short : process_message signing (binary (2 ∷ 5 ∷ [])) 1 ≡ panics
unfolding process_message process_binary process_solution
too_short = refl

reads :
    read_messages signing 1 (pong_frame ∷ text ∷ binary (0 ∷ []) ∷ close ∷ pong_frame ∷ [])
    ≡ pong 1 ∷ ready 1 ∷ []
unfolding read_messages process_message process_binary
reads = refl

process_message_iff_example :
    (process_message signing (binary submission) 1 ≡ continues (some (best_solution 1 77 100))) ↔ (
      (client ≡ client)
      × ((d : List ℕ) × (binary submission ≡ binary d) × IsSigned signing d 77 100))
process_message_iff_example = process_message_iff signing client client (binary submission) 77 100

abbrev verify : ℕ → Pubkey → List ℕ → Bool
verify sig pubkey message = nat_beq sig (pubkey + from_le_bytes message)

abbrev find : Pubkey → Result Miner
find pubkey =
    if nat_beq pubkey 100
    then ok (record { id = 11; pubkey = 100; enabled = true })
    else err query_failed

ws_handler_iff_example :
    ((ws_handler verify 1020 1000 (some 100) (some 1100) find ≡ upgraded 100 11 v1) ↔ (
      ((1000 ≤ 1020) × (1020 < 1000 + 30))
      × IsMiner verify 1000 (some 100) (some 1100) find 100 11))
    × ((ws_handler_v2 verify 1020 1000 (some 100) (some 1100) find ≡ upgraded 100 11 v2) ↔ (
        ((1000 ≤ 1020) × (1020 < 1000 + 30))
        × IsMiner verify 1000 (some 100) (some 1100) find 100 11))
ws_handler_iff_example =
    ws_handler_iff verify 1020 1000 (some 100) (some 1100) find 100 11 (omega arith) (omega arith)
      (omega arith)

abbrev server : Server ℕ
server = record {
  app_state = record {
    sockets =
        (1, record { pubkey = 100; miner_id = 11; client_version = v2 })
        ∷ (2, record { pubkey = 200; miner_id = 22; client_version = v2 })
        ∷ [];
    paused = false;
  };
  proof = record { challenge = 7; last_hash_at = pos 1000; balance = 0 };
  last_challenge = 6;
  epoch_hashes = record {
    challenge = 7;
    best_hash = record { solution = none; difficulty = 0 };
    submissions = [];
  };
  client_nonce_ranges = [];
  ready_clients = [];
  nonce = 0;
  submission_window = record { closed = false };
  pongs = (1, 500) ∷ (2, 600) ∷ [];
}

server-IsDistinct : IsDistinct server
server-IsDistinct = ((refl, (refl, tt)), (refl, (refl, tt)), tt)

track_pongs_lem_example :
    (get 1 (track_pongs 650 server.pongs server).app_state.sockets
      ≡ (if is_old 650 (get 1 server.pongs) then none else get 1 server.app_state.sockets))
    × (get 1 (track_pongs 650 server.pongs server).pongs
        ≡ (if is_old 650 (get 1 server.pongs) then none else get 1 server.pongs))
track_pongs_lem_example = track_pongs_lem 650 1 server (server-IsDistinct.1) (server-IsDistinct.0)

-- ===== src/Startup/Tests.antt =====
-- A first start on empty tables.
use coal_pool_server.Prelude.{◌≡◌, refl, none, [], ◌∷◌}
use coal_pool_server.Database.{granted, broken}
use coal_pool_server.Database.Challenges.{
  find_challenge, get_challenge_by_challenge, add_new_challenge,
}
use coal_pool_server.Signup.{
  new_miner, find_miner, find_pool, find_reward, get_miner_by_pubkey_str, signup_user_transaction,
}
use coal_pool_server.Startup.{
  Tables, Config, StartAccesses, goes, start, new_pool, ensure_pool, ensure_miner, read_pool,
  ensure_challenge, get_pool_by_authority_pubkey, add_new_pool,
}
use coal_pool_server.Startup.Rows.{IsReady}
use coal_pool_server.Startup.Restarts.{start_restarts}

abbrev empty : Tables
empty = record {
  accounts = record { miners = []; next_miner = 1; rewards = []; next_reward = 1; pools = [] };
  next_pool = 1;
  challenges = record { rows = []; next_id = 1 };
}

abbrev ready : Tables
ready = record {
  accounts = record {
    miners = new_miner 70 1 ∷ [];
    next_miner = 2;
    rewards = record { id = 1; balance = 0; miner_id = 1 } ∷ [];
    next_reward = 2;
    pools = new_pool 900 1 ∷ [];
  };
  next_pool = 2;
  challenges = record {
    rows =
        record { id = 1; pool_id = 1; submission_id = none; challenge = 33; rewards_earned = none }
        ∷ [];
    next_id = 2;
  };
}

abbrev config : Config
config = record { pool_id = 1; commissions_pubkey = 70; commissions_miner_id = 1 }

abbrev first : StartAccesses
first = record {
  look_pool = broken;
  add_pool = granted;
  look_miner = granted;
  signup = granted;
  look_again = granted;
  read_pool = granted;
  look_challenge = broken;
  add_challenge = granted;
}

abbrev second : StartAccesses
second = record {
  look_pool = granted;
  add_pool = broken;
  look_miner = granted;
  signup = broken;
  look_again = broken;
  read_pool = granted;
  look_challenge = granted;
  add_challenge = broken;
}

first_start : start first 900 70 33 empty ≡ goes config ready
unfolding start ensure_pool get_pool_by_authority_pubkey add_new_pool ensure_miner
    get_miner_by_pubkey_str signup_user_transaction find_miner find_pool find_reward read_pool
    ensure_challenge get_challenge_by_challenge add_new_challenge find_challenge
first_start = refl

start_restarts_example :
    IsReady 900 70 33 config ready × (start second 900 70 33 ready ≡ goes config ready)
start_restarts_example =
    start_restarts 900 70 33 first second empty ready config first_start (refl, refl, refl, refl)

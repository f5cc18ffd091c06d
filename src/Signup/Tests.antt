-- ===== src/Signup/Tests.antt =====
-- A new user, and one who is not enabled.
use coal_pool_server.Prelude.{ℕ, ◌+◌, ◌≡◌, refl, Bool, false, some, List, [], ◌∷◌, arith, nat_beq}
use coal_pool_server.Prelude.Bytes.{from_le_bytes, le_bytes}
use coal_pool_server.State.{Pubkey, v1}
use coal_pool_server.Database.{granted, broken}
use coal_pool_server.Clients.{ws_handler, upgraded}
use coal_pool_server.Signup.{
  Accounts, find_miner, find_pool, new_miner, get_miner_by_pubkey_str, signup_user_transaction,
  post_signup, post_signup_v2, failed_to_add, success, find_reward,
}
use coal_pool_server.Signup.Joining.{
  HasJoined, IsSettled, post_signup-IsSettled, joined_connects, disabled_stays,
}

abbrev accounts : Accounts
accounts = record {
  miners = record { id = 1; pubkey = 100; enabled = false } ∷ [];
  next_miner = 2;
  rewards = record { id = 1; balance = 40; miner_id = 1 } ∷ [];
  next_reward = 2;
  pools = record { id = 1; authority_pubkey = 900; total_rewards = 0; claimed_rewards = 0 } ∷ [];
}

abbrev joined : Accounts
joined = record {
  miners = new_miner 200 2 ∷ accounts.miners;
  next_miner = 3;
  rewards = record { id = 2; balance = 0; miner_id = 2 } ∷ accounts.rewards;
  next_reward = 3;
  pools = accounts.pools;
}

joins : post_signup_v2 (some 200) granted granted 900 accounts ≡ (success, joined)
unfolding post_signup_v2 find_miner find_reward find_pool signup_user_transaction
joins = refl

post_signup-IsSettled_example :
    IsSettled 200 900 accounts (post_signup (some 200) granted granted 900 accounts)
    × IsSettled 200 900 accounts (post_signup_v2 (some 200) granted granted 900 accounts)
post_signup-IsSettled_example = post_signup-IsSettled 200 900 granted granted accounts

-- A signature that is the sum of the key and the message.
abbrev verify : ℕ → Pubkey → List ℕ → Bool
verify sig pubkey message = nat_beq sig (pubkey + from_le_bytes message)

joined-HasJoined : HasJoined 200 900 accounts joined
unfolding find_miner find_pool
joined-HasJoined = record {
  was_new = refl;
  pool = _;
  its_pool = refl;
  miners = refl;
  rewards = refl;
  pools = refl;
}

joined_connects_example :
    ws_handler verify 1020 1000
      (some 200)
      (some 1200)
      (λ pubkey. get_miner_by_pubkey_str granted pubkey joined)
    ≡ upgraded 200 2 v1
unfolding from_le_bytes le_bytes
joined_connects_example =
    joined_connects verify 1200 200 900 accounts joined 1020 1000 joined-HasJoined (omega arith)
      (omega arith) (omega arith) (omega arith) refl

disabled_stays_example :
    post_signup (some 100) granted broken 900 accounts ≡ (failed_to_add, accounts)
unfolding find_miner
disabled_stays_example = disabled_stays 100 900 broken accounts _ refl refl

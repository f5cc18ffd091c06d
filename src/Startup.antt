-- ===== src/Startup.antt =====
-- What `serve` (src/main.rs) sees to in the database before it starts its tasks: the row of its pool, the
-- miner that receives the commissions, and the row of the current challenge. A panic ends the server.
pub mod Rows
pub mod Restarts
mod Tests
use coal_pool_server.Prelude.{ℕ, ◌+◌, Option, none, some, List, [], ◌∷◌, ◌++◌}
use coal_pool_server.State.{Pubkey, Challenge}
use coal_pool_server.Models.{Miner, Pool}
use coal_pool_server.Database.{
  AppDatabaseError, failed_to_get_connection_from_pool, failed_to_update_row, failed_to_insert_row,
  interaction_failed, query_failed, Result, ok, err, Access, interact,
}
use coal_pool_server.Database.Challenges.{
  ChallengeTable, ChallengeRow, get_challenge_by_challenge, add_new_challenge,
}
use coal_pool_server.Signup.{
  Accounts, find_pool, row_or_failed, get_miner_by_pubkey_str, signup_user_transaction,
}

-- The tables that the start touches.
pub record Tables : Type 0 where
  pub accounts : Accounts
  pub next_pool : ℕ
  pub challenges : ChallengeTable

pub record Config : Type 0 where
  pub pool_id : ℕ
  pub commissions_pubkey : Pubkey
  pub commissions_miner_id : ℕ

-- How far the start has come: it goes on with a value, or it has panicked.
pub data Stage (A : Type 0) : Type 0 where
  goes : A → Tables → Stage A
  panicked : Tables → Stage A

infixl 5 ◌>>=◌
abbrev pub ◌>>=◌ : {A B : Type 0} → (Tables → Stage A) → (A → Tables → Stage B) → Tables → Stage B
◌>>=◌ m f t = elim (m t) [ goes x t' ↦ f x t' | panicked t' ↦ panicked t' ]

unfoldable pub get_pool_by_authority_pubkey : Access → Pubkey → Tables → Result Pool
unfolding find_pool
get_pool_by_authority_pubkey access authority t =
    interact access (row_or_failed (find_pool authority t.accounts.pools))

abbrev pub new_pool : Pubkey → ℕ → Pool
new_pool authority id = record {
  id = id;
  authority_pubkey = authority;
  total_rewards = 0;
  claimed_rewards = 0;
}

-- The table has no unique column but its id, so the row is always added.
unfoldable pub add_new_pool : Access → Pubkey → Tables → Result Tables
add_new_pool access authority t = interact access (
    ok (record t {
      accounts = record (t.accounts) {
        pools = t.accounts.pools ++ new_pool authority t.next_pool ∷ [];
      };
      next_pool = t.next_pool + 1;
    }))

-- An insertion that fails panics.
abbrev pub or_panic : Result Tables → Tables → Stage (Unit {0})
or_panic (ok t') t = goes tt t'
or_panic (err e) t = panicked t

-- What follows the look for a row: only the lack of a connection is taken for a failure, and any other
-- error for a row that is missing.
abbrev pub unless_found : {A : Type 0} → Result A → Result Tables → Tables → Stage (Unit {0})
unless_found (ok row) added t = goes tt t
unless_found (err failed_to_get_connection_from_pool) added t = panicked t
unless_found (err failed_to_update_row) added t = or_panic added t
unless_found (err failed_to_insert_row) added t = or_panic added t
unless_found (err interaction_failed) added t = or_panic added t
unless_found (err query_failed) added t = or_panic added t

unfoldable pub ensure_pool : Access → Access → Pubkey → Tables → Stage (Unit {0})
unfolding get_pool_by_authority_pubkey add_new_pool
ensure_pool look add authority t =
    unless_found (get_pool_by_authority_pubkey look authority t) (add_new_pool add authority t) t

abbrev pub id_or_panic : Result Miner → Tables → Stage ℕ
id_or_panic (ok m) t = goes m.id t
id_or_panic (err e) t = panicked t

abbrev pub with_accounts : Tables → Accounts → Tables
with_accounts t accounts = record t { accounts = accounts }

-- The miner is signed up if it is not found, and then looked for again.
abbrev pub unless_miner : Result Miner → Result Accounts → (Tables → Stage ℕ) → Tables → Stage ℕ
unless_miner (ok m) joined again t = goes m.id t
unless_miner (err e) (ok accounts) again t = again (with_accounts t accounts)
unless_miner (err e) (err e') again t = panicked t

abbrev pub look_again : Access → Pubkey → Tables → Stage ℕ
look_again access pubkey t = id_or_panic (get_miner_by_pubkey_str access pubkey t.accounts) t

unfoldable pub ensure_miner : Access → Access → Access → Pubkey → Pubkey → Tables → Stage ℕ
unfolding get_miner_by_pubkey_str signup_user_transaction
ensure_miner look signup again commissions authority t =
    unless_miner (get_miner_by_pubkey_str look commissions t.accounts)
      (signup_user_transaction signup commissions authority t.accounts)
      (look_again again commissions) t

abbrev pub pool_or_panic : Result Pool → Tables → Stage ℕ
pool_or_panic (ok pool) t = goes pool.id t
pool_or_panic (err e) t = panicked t

unfoldable pub read_pool : Access → Pubkey → Tables → Stage ℕ
unfolding get_pool_by_authority_pubkey
read_pool access authority t = pool_or_panic (get_pool_by_authority_pubkey access authority t) t

abbrev pub with_challenges : Tables → Result ChallengeTable → Result Tables
with_challenges t (ok challenges) = ok (record t { challenges = challenges })
with_challenges t (err e) = err e

unfoldable pub ensure_challenge : Access → Access → Challenge → ℕ → Tables → Stage (Unit {0})
unfolding get_challenge_by_challenge add_new_challenge
ensure_challenge look add challenge pool_id t =
    unless_found (get_challenge_by_challenge look challenge t.challenges)
      (with_challenges t (add_new_challenge add pool_id challenge t.challenges)) t

-- The accesses of the queries, in their order.
pub record StartAccesses : Type 0 where
  pub look_pool : Access
  pub add_pool : Access
  pub look_miner : Access
  pub signup : Access
  pub look_again : Access
  pub read_pool : Access
  pub look_challenge : Access
  pub add_challenge : Access

unfoldable pub start : StartAccesses → Pubkey → Pubkey → Challenge → Tables → Stage Config
unfolding ensure_pool ensure_miner read_pool ensure_challenge
start a authority commissions challenge = do
  _ ← ensure_pool a.look_pool a.add_pool authority
  miner_id ← ensure_miner a.look_miner a.signup a.look_again commissions authority
  pool_id ← read_pool a.read_pool authority
  _ ← ensure_challenge a.look_challenge a.add_challenge challenge pool_id
  goes (record {
    pool_id = pool_id;
    commissions_pubkey = commissions;
    commissions_miner_id = miner_id;
  })

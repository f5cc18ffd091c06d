-- ===== src/Signup/Joining.antt =====
-- What signing up does to the tables (src/main.rs, src/app_database.rs).
use coal_pool_server.Prelude.{
  ℕ, ◌+◌, ◌≤◌, ◌<◌, u64_mod, ◌≡◌, refl, sym, ap, ◌∙◌, inl, inr, Bool, true, false, Option, none,
  some, List, ◌∷◌, arith, nat_beq_iff, Option-cases, if_rule,
}
use coal_pool_server.State.{Pubkey, v1}
use coal_pool_server.Models.{Miner, Reward, Pool}
use coal_pool_server.Database.{
  AppDatabaseError, failed_to_get_connection_from_pool, failed_to_update_row, failed_to_insert_row,
  interaction_failed, query_failed, Result, ok, err, Access, granted, no_connection, broken,
}
use coal_pool_server.Database.Challenges.{interact-ok}
use coal_pool_server.Prelude.Bytes.{le_bytes}
use coal_pool_server.Clients.{ws_handler, upgraded}
use coal_pool_server.Clients.Entry.{ws_handler_iff}
use coal_pool_server.Signup.{
  Accounts, find_miner, find_reward, find_pool, row_or_failed, get_miner_by_pubkey_str, new_miner,
  insert_miner, insert_reward, and_then, signup_user_transaction, SignupReply, success, exists,
  invalid_pubkey, no_connection_reply, failed_to_add, signed_up, after_look, post_signup,
  post_signup_v2,
}

-- The second state is the first with a new miner, enabled, and a reward row of zero for it; the key
-- was not there, and the pool is.
pub record HasJoined (user authority : Pubkey) (t t' : Accounts) : Type 0 where
  pub was_new : find_miner user t.miners ≡ none
  pub pool : Pool
  pub its_pool : find_pool authority t.pools ≡ some pool
  pub miners : t'.miners ≡ new_miner user t.next_miner ∷ t.miners
  pub rewards :
      t'.rewards ≡ record { id = t.next_reward; balance = 0; miner_id = t.next_miner } ∷ t.rewards
  pub pools : t'.pools ≡ t.pools

new_found :
    (user id : ℕ) (ms : List Miner)
    → find_miner user (new_miner user id ∷ ms) ≡ some (new_miner user id)
unfolding find_miner
new_found user id ms = rw ((nat_beq_iff user user).1 refl)

last :
    (user authority : Pubkey) (t t' : Accounts)
    → find_miner user t.miners ≡ none
    → (p : Option Pool) → find_pool authority t.pools ≡ p
    → (r : Option Reward)
    → and_then (row_or_failed p) (λ pool.
      insert_reward r (new_miner user t.next_miner) (record t {
        miners = new_miner user t.next_miner ∷ t.miners;
        next_miner = t.next_miner + 1;
      }))
      ≡ ok t'
    → HasJoined user authority t t'
last user authority t t' lacks none e r h = absurd (cc h)
last user authority t t' lacks (some pool) e (some r) h = absurd (cc h)
last user authority t t' lacks (some pool) e none h =
    let same : record {
      miners = new_miner user t.next_miner ∷ t.miners;
      next_miner = t.next_miner + 1;
      rewards = record { id = t.next_reward; balance = 0; miner_id = t.next_miner } ∷ t.rewards;
      next_reward = t.next_reward + 1;
      pools = t.pools;
    }
        ≡ t' =
      cc h in
    record {
      was_new = lacks;
      pool = pool;
      its_pool = e;
      miners = sym (ap (λ (a : Accounts). a.miners) same);
      rewards = sym (ap (λ (a : Accounts). a.rewards) same);
      pools = sym (ap (λ (a : Accounts). a.pools) same);
    }

rw_query :
    (user authority : Pubkey) (t t' : Accounts)
    → find_miner user t.miners ≡ none
    → and_then (insert_miner (find_miner user t.miners) user t) (λ u.
      and_then (row_or_failed (find_miner user u.miners)) λ miner.
        and_then
          (row_or_failed (find_pool authority u.pools))
          λ pool. insert_reward (find_reward miner.id u.rewards) miner u)
      ≡ ok t'
    → and_then (row_or_failed (find_pool authority t.pools)) (λ pool.
      insert_reward (find_reward t.next_miner t.rewards) (new_miner user t.next_miner) (record t {
        miners = new_miner user t.next_miner ∷ t.miners;
        next_miner = t.next_miner + 1;
      }))
      ≡ ok t'
rw_query user authority t t' lacks done =
    let shorter : and_then (insert_miner (find_miner user t.miners) user t) (λ u.
      and_then (row_or_failed (find_miner user u.miners)) λ miner.
        and_then (row_or_failed (find_pool authority u.pools))
          λ pool. insert_reward (find_reward miner.id u.rewards) miner u)
        ≡ and_then (row_or_failed (find_pool authority t.pools)) (λ pool.
          insert_reward (find_reward t.next_miner t.rewards) (new_miner user t.next_miner)
            (record t {
              miners = new_miner user t.next_miner ∷ t.miners;
              next_miner = t.next_miner + 1;
            })) =
      rw (lacks, new_found user t.next_miner t.miners) in
    sym shorter ∙ done

signup-HasJoined :
    (access : Access) (user authority : Pubkey) (t t' : Accounts)
    → signup_user_transaction access user authority t ≡ ok t'
    → HasJoined user authority t t'
unfolding signup_user_transaction
signup-HasJoined access user authority t t' h =
    let m = new_miner user t.next_miner in
    let t1 : Accounts = record t { miners = m ∷ t.miners; next_miner = t.next_miner + 1 } in
    let query : Result Accounts = and_then (insert_miner (find_miner user t.miners) user t) λ t'.
      and_then (row_or_failed (find_miner user t'.miners)) λ miner.
        and_then (row_or_failed (find_pool authority t'.pools))
          λ pool. insert_reward (find_reward miner.id t'.rewards) miner t' in
    let done = interact-ok access query t' h in
    elim (Option-cases (find_miner user t.miners)) [
      | inr (m, there) ↦ absurd (ground (arith, done, there))
      | inl lacks ↦
          let short : and_then (row_or_failed (find_pool authority t.pools))
                (λ pool. insert_reward (find_reward t.next_miner t.rewards) m t1)
              ≡ ok t' =
            rw_query user authority t t' lacks done in
          last user authority t t' lacks (find_pool authority t.pools) refl
            (find_reward t.next_miner t.rewards) short
    ]

-- The answer is a success only if the user has joined, and any other one leaves the tables as they are.
abbrev pub IsSettled : Pubkey → Pubkey → Accounts → SignupReply × Accounts → Type 0
IsSettled user authority t (success, t') = HasJoined user authority t t'
IsSettled user authority t (exists, t') = t' ≡ t
IsSettled user authority t (invalid_pubkey, t') = t' ≡ t
IsSettled user authority t (no_connection_reply, t') = t' ≡ t
IsSettled user authority t (failed_to_add, t') = t' ≡ t

signed_up-IsSettled :
    (user authority : Pubkey) (t : Accounts) (r : Result Accounts)
    → ((t' : Accounts) → r ≡ ok t' → HasJoined user authority t t')
    → IsSettled user authority t (signed_up r t)
signed_up-IsSettled user authority t (ok t') joined = joined t' refl
signed_up-IsSettled user authority t (err e) joined = refl

after_look-IsSettled :
    (user authority : Pubkey) (t : Accounts) (look : Result Miner) (r : Result Accounts)
    → IsSettled user authority t (signed_up r t)
    → IsSettled user authority t (after_look look r t)
after_look-IsSettled user authority t (ok miner) r h =
    if_rule (IsSettled user authority t) miner.enabled (λ on. refl) λ off. h
after_look-IsSettled user authority t (err failed_to_get_connection_from_pool) r h = refl
after_look-IsSettled user authority t (err failed_to_update_row) r h = h
after_look-IsSettled user authority t (err failed_to_insert_row) r h = h
after_look-IsSettled user authority t (err interaction_failed) r h = h
after_look-IsSettled user authority t (err query_failed) r h = h

-- Whatever the accesses to the database, both routes answer with a success only if the key had no miner
-- before and now has one who is enabled, with a new id and a reward row of zero, and all else is as it was;
-- any other answer leaves the tables as they were.
pub post_signup-IsSettled :
    (user authority : Pubkey) (a b : Access) (t : Accounts)
    → IsSettled user authority t (post_signup (some user) a b authority t)
      × IsSettled user authority t (post_signup_v2 (some user) a b authority t)
unfolding post_signup post_signup_v2
post_signup-IsSettled user authority a b t =
    let settled =
      after_look-IsSettled user authority t (get_miner_by_pubkey_str a user t)
        (signup_user_transaction b user authority t)
        (signed_up-IsSettled user authority t (signup_user_transaction b user authority t)
          λ t'. signup-HasJoined b user authority t t') in
    (settled, settled)

-- A user who has joined is found and is enabled, and if the look goes through signing up again answers that
-- there is one.
pub joined_again :
    (user authority : Pubkey) (b : Access) (t t' : Accounts)
    → HasJoined user authority t t'
    → (get_miner_by_pubkey_str granted user t' ≡ ok (new_miner user t.next_miner))
      × (post_signup (some user) granted b authority t' ≡ (exists, t'))
unfolding get_miner_by_pubkey_str post_signup
joined_again user authority b t t' joined =
    let found : find_miner user t'.miners ≡ some (new_miner user t.next_miner) =
      ap (find_miner user) joined.miners ∙ new_found user t.next_miner t.miners in
    (rw found, rw found)

signup-err :
    (b : Access) (user authority : Pubkey) (t : Accounts) (miner : Miner)
    → find_miner user t.miners ≡ some miner
    → (e : AppDatabaseError) × (signup_user_transaction b user authority t ≡ err e)
unfolding signup_user_transaction
signup-err granted user authority t miner found = (
  query_failed,
  ap
      (λ (o : Option Miner). and_then (insert_miner o user t) λ u.
        and_then (row_or_failed (find_miner user u.miners)) λ miner'.
          and_then (row_or_failed (find_pool authority u.pools))
            λ pool. insert_reward (find_reward miner'.id u.rewards) miner' u)
      found,
)
signup-err no_connection user authority t miner found = (failed_to_get_connection_from_pool, refl)
signup-err broken user authority t miner found = (interaction_failed, refl)

-- A miner who is not enabled cannot sign up again: the answer is that adding it failed, whatever the
-- access of the transaction, and the tables stay as they are.
pub disabled_stays :
    (user authority : Pubkey) (b : Access) (t : Accounts) (miner : Miner)
    → find_miner user t.miners ≡ some miner
    → miner.enabled ≡ false
    → post_signup (some user) granted b authority t ≡ (failed_to_add, t)
unfolding post_signup get_miner_by_pubkey_str
disabled_stays user authority b t miner found off =
    let (e, fails) = signup-err b user authority t miner found in
    let looked : after_look (get_miner_by_pubkey_str granted user t)
          (signup_user_transaction b user authority t) t
        ≡ signed_up (signup_user_transaction b user authority t) t =
      rw (found, off) in
    looked ∙ ap (λ (r : Result Accounts). signed_up r t) fails

-- A user who has joined, and whose signature verifies for a timestamp that is not in the future and less
-- than 30 seconds old, gets a websocket under the new id, if the look goes through, with times of 64
-- bits and the clock at 30 seconds or later.
pub joined_connects :
    {Sig : Type 0} (verify : Sig → Pubkey → List ℕ → Bool) (sig : Sig) (user authority : Pubkey)
    (t t' : Accounts) (now timestamp : ℕ)
    → HasJoined user authority t t'
    → timestamp ≤ now
    → now < timestamp + 30
    → 30 ≤ now
    → now < u64_mod
    → verify sig user (le_bytes 8 timestamp) ≡ true
    → ws_handler verify now timestamp
        (some user)
        (some sig)
        (λ pubkey. get_miner_by_pubkey_str granted pubkey t')
      ≡ upgraded user t.next_miner v1
unfolding post_signup
joined_connects verify sig user authority t t' now timestamp joined past young late fits verifies =
    let found = (joined_again user authority granted t t' joined).0 in
    (ws_handler_iff verify now timestamp (some user) (some sig)
        (λ pubkey. get_miner_by_pubkey_str granted pubkey t') user t.next_miner late fits
        (omega (arith, past, fits))).0.1
      (
        (past, young),
        record {
          named = refl;
          miner = new_miner user t.next_miner;
          found = found;
          enabled = refl;
          its_id = refl;
          signature = sig;
          signs = refl;
          verifies = verifies;
        },
      )

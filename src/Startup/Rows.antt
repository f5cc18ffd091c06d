-- ===== src/Startup/Rows.antt =====
-- What each stage of the start of src/main.rs has found or written in the database when it goes through.
use coal_pool_server.Prelude.{ℕ, ◌≡◌, refl, ◌∙◌, subst, inl, inr, some, arith, Option-cases}
use coal_pool_server.State.{Pubkey, Challenge}
use coal_pool_server.Models.{Miner, Pool}
use coal_pool_server.Database.{
  failed_to_get_connection_from_pool, failed_to_update_row, failed_to_insert_row,
  interaction_failed, query_failed, Result, ok, err, Access,
}
use coal_pool_server.Database.Challenges.{
  ChallengeTable, ChallengeRow, get_challenge_by_challenge, add_new_challenge, Knows,
  get_challenge_by_challenge-Knows, add_new_challenge-Knows, interact-ok,
}
use coal_pool_server.Signup.{Accounts, find_pool, find_miner, get_miner_by_pubkey_str}
use coal_pool_server.Startup.{
  Tables, Config, goes, get_pool_by_authority_pubkey, or_panic, unless_found, id_or_panic,
  with_accounts, unless_miner, look_again, pool_or_panic, with_challenges,
}

-- The rows that a server needs: its pool, the receiver of the commissions and the challenge.
abbrev pub HasPool : Pubkey → ℕ → Accounts → Type 0
HasPool authority id t = (pool : Pool) × (find_pool authority t.pools ≡ some pool) × (pool.id ≡ id)

abbrev pub HasMiner : Pubkey → ℕ → Accounts → Type 0
HasMiner pubkey id t = (m : Miner) × (find_miner pubkey t.miners ≡ some m) × (m.id ≡ id)

abbrev pub IsReady : Pubkey → Pubkey → Challenge → Config → Tables → Type 0
IsReady authority commissions challenge config t =
    HasPool authority config.pool_id t.accounts
    × HasMiner commissions config.commissions_miner_id t.accounts
    × Knows t.challenges challenge
    × (config.commissions_pubkey ≡ commissions)

get_miner-Found :
    (a : Access) (pubkey : Pubkey) (t : Accounts) (m : Miner)
    → get_miner_by_pubkey_str a pubkey t ≡ ok m
    → find_miner pubkey t.miners ≡ some m
unfolding get_miner_by_pubkey_str
get_miner-Found a pubkey t m e = elim (Option-cases (find_miner pubkey t.miners)) [
  | inl lacks ↦ absurd (ground (arith, interact-ok a _ m e, lacks))
  | inr (m', found) ↦ found ∙ ground (arith, interact-ok a _ m e, found)
]

get_pool-Found :
    (a : Access) (authority : Pubkey) (t : Tables) (p : Pool)
    → get_pool_by_authority_pubkey a authority t ≡ ok p
    → find_pool authority t.accounts.pools ≡ some p
unfolding get_pool_by_authority_pubkey
get_pool-Found a authority t p e = elim (Option-cases (find_pool authority t.accounts.pools)) [
  | inl lacks ↦ absurd (ground (arith, interact-ok a _ p e, lacks))
  | inr (p', found) ↦ found ∙ ground (arith, interact-ok a _ p e, found)
]

id_or_panic-HasMiner :
    (a : Access) (pubkey : Pubkey) (r : Result Miner) (id : ℕ) (t t' : Tables)
    → get_miner_by_pubkey_str a pubkey t.accounts ≡ r
    → id_or_panic r t ≡ goes id t'
    → HasMiner pubkey id t'.accounts
id_or_panic-HasMiner a pubkey (err e) id t t' read h = absurd (cc h)
id_or_panic-HasMiner a pubkey (ok m) id t t' read h =
    let its_id : m.id ≡ id = cc h in
    let same : t ≡ t' = cc h in
    subst (λ (u : Tables). HasMiner pubkey id u.accounts) same
      (m, get_miner-Found a pubkey t.accounts m read, its_id)

pub unless_miner-HasMiner :
    (a again : Access) (pubkey : Pubkey) (r : Result Miner) (joined : Result Accounts) (id : ℕ)
    (t t' : Tables)
    → get_miner_by_pubkey_str a pubkey t.accounts ≡ r
    → unless_miner r joined (look_again again pubkey) t ≡ goes id t'
    → HasMiner pubkey id t'.accounts
unless_miner-HasMiner a again pubkey (ok m) joined id t t' read h =
    id_or_panic-HasMiner a pubkey (ok m) id t t' read h
unless_miner-HasMiner a again pubkey (err e) (ok accounts) id t t' read h =
    id_or_panic-HasMiner again pubkey (get_miner_by_pubkey_str again pubkey accounts) id
      (with_accounts t accounts) t' refl h
unless_miner-HasMiner a again pubkey (err e) (err e') id t t' read h = absurd (cc h)

pub pool_or_panic-HasPool :
    (a : Access) (authority : Pubkey) (r : Result Pool) (id : ℕ) (t t' : Tables)
    → get_pool_by_authority_pubkey a authority t ≡ r
    → pool_or_panic r t ≡ goes id t'
    → (t ≡ t') × HasPool authority id t'.accounts
pool_or_panic-HasPool a authority (err e) id t t' read h = absurd (cc h)
pool_or_panic-HasPool a authority (ok p) id t t' read h =
    let its_id : p.id ≡ id = cc h in
    let same : t ≡ t' = cc h in
    (
      same,
      subst (λ (u : Tables). HasPool authority id u.accounts) same
          (p, get_pool-Found a authority t p read, its_id),
    )

-- Only the challenges may have changed, and the challenge is known.
abbrev pub IsRecorded : Challenge → Tables → Tables → Type 0
IsRecorded challenge t t' = (t'.accounts ≡ t.accounts) × Knows t'.challenges challenge

or_panic-IsRecorded :
    (add : Access) (challenge pool_id : ℕ) (t t' : Tables) (added : Result ChallengeTable)
    → add_new_challenge add pool_id challenge t.challenges ≡ added
    → or_panic (with_challenges t added) t ≡ goes tt t'
    → IsRecorded challenge t t'
or_panic-IsRecorded add challenge pool_id t t' (err e) done h = absurd (cc h)
or_panic-IsRecorded add challenge pool_id t t' (ok challenges) done h =
    let same : record t { challenges = challenges } ≡ t' = cc h in
    subst (IsRecorded challenge t) same
      (refl, (add_new_challenge-Knows add pool_id challenge t.challenges challenges done).0)

pub unless_found-IsRecorded :
    (look add : Access) (challenge pool_id : ℕ) (t t' : Tables) (r : Result ChallengeRow)
    → get_challenge_by_challenge look challenge t.challenges ≡ r
    → unless_found r (with_challenges t (add_new_challenge add pool_id challenge t.challenges)) t
      ≡ goes tt t'
    → IsRecorded challenge t t'
unless_found-IsRecorded look add challenge pool_id t t' (ok row) read h =
    let same : t ≡ t' = cc h in
    subst (IsRecorded challenge t) same
      (refl, get_challenge_by_challenge-Knows look challenge t.challenges row read)
unless_found-IsRecorded look add challenge pool_id t t' (err failed_to_get_connection_from_pool)
      read h =
    absurd (cc h)
unless_found-IsRecorded look add challenge pool_id t t' (err failed_to_update_row) read h =
    or_panic-IsRecorded add challenge pool_id t t' _ refl h
unless_found-IsRecorded look add challenge pool_id t t' (err failed_to_insert_row) read h =
    or_panic-IsRecorded add challenge pool_id t t' _ refl h
unless_found-IsRecorded look add challenge pool_id t t' (err interaction_failed) read h =
    or_panic-IsRecorded add challenge pool_id t t' _ refl h
unless_found-IsRecorded look add challenge pool_id t t' (err query_failed) read h =
    or_panic-IsRecorded add challenge pool_id t t' _ refl h

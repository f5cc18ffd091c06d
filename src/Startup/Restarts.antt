-- ===== src/Startup/Restarts.antt =====
-- A start that goes through leaves what the server needs in the database, and a restart changes nothing:
-- `serve` of src/main.rs.
use coal_pool_server.Prelude.{ℕ, ◌≡◌, refl, sym, ap, ◌∙◌, subst, ◌⊎◌, inl, inr, some, arith}
use coal_pool_server.State.{Pubkey, Challenge}
use coal_pool_server.Models.{Miner, Pool}
use coal_pool_server.Database.{Result, ok, Access, granted}
use coal_pool_server.Database.Challenges.{
  ChallengeRow, get_challenge_by_challenge, add_new_challenge, find_challenge,
}
use coal_pool_server.Signup.{
  Accounts, find_pool, find_miner, get_miner_by_pubkey_str, signup_user_transaction,
}
use coal_pool_server.Startup.{
  Tables, Config, Stage, goes, panicked, ◌>>=◌, get_pool_by_authority_pubkey, unless_found,
  ensure_pool, unless_miner, look_again, ensure_miner, read_pool, with_challenges, ensure_challenge,
  StartAccesses, start,
}
use coal_pool_server.Startup.Rows.{
  HasPool, HasMiner, IsReady, unless_miner-HasMiner, pool_or_panic-HasPool, unless_found-IsRecorded,
}

Stage-cases :
    {A : Type 0} (s : Stage A)
    → ((x : A) × (t : Tables) × (s ≡ goes x t)) ⊎ ((t : Tables) × (s ≡ panicked t))
Stage-cases (goes x t) = inl (x, t, refl)
Stage-cases (panicked t) = inr (t, refl)

-- What a chain that goes through has gone through.
bind-goes :
    {A B : Type 0} (m : Tables → Stage A) (f : A → Tables → Stage B) (t t'' : Tables) (y : B)
    → (m >>= f) t ≡ goes y t''
    → (x : A) × (t' : Tables) × (m t ≡ goes x t') × (f x t' ≡ goes y t'')
bind-goes {A} {B} m f t t'' y h = elim (Stage-cases (m t)) [
  | inl (x, t', e) ↦ (x, t', e, sym (after e) ∙ h)
  | inr (t', e) ↦ absurd (cc (after e, h))
]
  where
    after :
        {s : Stage A}
        → m t ≡ s
        → (m >>= f) t ≡ elim s as (λ _. Stage B) [ goes x t' ↦ f x t' | panicked t' ↦ panicked t' ]
    after e =
        ap
          (λ (s : Stage A). elim s as (λ _. Stage B) [
            | goes x t' ↦ f x t'
            | panicked t' ↦ panicked t'
          ])
          e

bind-eq :
    {A B : Type 0} (m : Tables → Stage A) (f : A → Tables → Stage B) (t t' : Tables) (x : A)
    → m t ≡ goes x t'
    → (m >>= f) t ≡ f x t'
bind-eq {A} {B} m f t t' x e =
    ap
      (λ (s : Stage A). elim s as (λ _. Stage B) [ goes x t' ↦ f x t' | panicked t' ↦ panicked t' ])
      e

-- A row that is there is found, and the stage changes nothing.
ensure_pool_found :
    (look add : Access) (authority : Pubkey) (t : Tables) (pool : Pool)
    → look ≡ granted
    → find_pool authority t.accounts.pools ≡ some pool
    → ensure_pool look add authority t ≡ goes tt t
unfolding ensure_pool get_pool_by_authority_pubkey
ensure_pool_found look add authority t pool reached there = ground (arith, reached, there)

ensure_miner_found :
    (look signup again : Access) (commissions authority : Pubkey) (t : Tables) (m : Miner)
    → look ≡ granted
    → find_miner commissions t.accounts.miners ≡ some m
    → ensure_miner look signup again commissions authority t ≡ goes m.id t
unfolding ensure_miner get_miner_by_pubkey_str
ensure_miner_found look signup again commissions authority t m reached there =
    let its : get_miner_by_pubkey_str look commissions t.accounts ≡ ok m =
      ground (arith, reached, there) in
    ap
      (λ (r : Result Miner).
        unless_miner r (signup_user_transaction signup commissions authority t.accounts)
          (look_again again commissions) t)
      its

read_pool_found :
    (access : Access) (authority : Pubkey) (t : Tables) (pool : Pool)
    → access ≡ granted
    → find_pool authority t.accounts.pools ≡ some pool
    → read_pool access authority t ≡ goes pool.id t
unfolding read_pool get_pool_by_authority_pubkey
read_pool_found access authority t pool reached there = ground (arith, reached, there)

ensure_challenge_found :
    (look add : Access) (challenge pool_id : ℕ) (t : Tables) (row : ChallengeRow)
    → look ≡ granted
    → find_challenge challenge t.challenges.rows ≡ some row
    → ensure_challenge look add challenge pool_id t ≡ goes tt t
unfolding ensure_challenge get_challenge_by_challenge
ensure_challenge_found look add challenge pool_id t row reached there =
    let its : get_challenge_by_challenge look challenge t.challenges ≡ ok row =
      ground (arith, reached, there) in
    ap
      (λ (r : Result ChallengeRow).
        unless_found r (with_challenges t (add_new_challenge add pool_id challenge t.challenges)) t)
      its

-- Every look goes through.
abbrev pub AllGranted : StartAccesses → Type 0
AllGranted a =
    (a.look_pool ≡ granted)
    × (a.look_miner ≡ granted)
    × (a.read_pool ≡ granted)
    × (a.look_challenge ≡ granted)

module _ (authority commissions : Pubkey) (challenge : Challenge) where
  -- What is left of a start after each of its stages.
  abbrev finishing : ℕ → ℕ → Unit {0} → Tables → Stage Config
  finishing miner_id pool_id _ = goes (record {
    pool_id = pool_id;
    commissions_pubkey = commissions;
    commissions_miner_id = miner_id;
  })

  abbrev recording : StartAccesses → ℕ → ℕ → Tables → Stage Config
  recording a miner_id pool_id =
      ensure_challenge a.look_challenge a.add_challenge challenge pool_id
      >>= finishing miner_id pool_id

  abbrev reading : StartAccesses → ℕ → Tables → Stage Config
  reading a miner_id = read_pool a.read_pool authority >>= recording a miner_id

  abbrev joining : StartAccesses → Unit {0} → Tables → Stage Config
  joining a _ = ensure_miner a.look_miner a.signup a.look_again commissions authority >>= reading a

  config_of :
      (miner_id pool_id : ℕ) (t t' : Tables) (config : Config)
      → finishing miner_id pool_id tt t ≡ goes config t'
      → record {
        pool_id = pool_id;
        commissions_pubkey = commissions;
        commissions_miner_id = miner_id;
      }
        ≡ config
  config_of miner_id pool_id t t' config h = cc h

  end_of :
      (miner_id pool_id : ℕ) (t t' : Tables) (config : Config)
      → finishing miner_id pool_id tt t ≡ goes config t'
      → t ≡ t'
  end_of miner_id pool_id t t' config h = cc h

  start-IsReady :
      (a : StartAccesses) (t t' : Tables) (config : Config)
      → start a authority commissions challenge t ≡ goes config t'
      → IsReady authority commissions challenge config t'
  unfolding start ensure_miner read_pool ensure_challenge
  start-IsReady a t t' config h =
      let (_, t1, e1, h1) =
        bind-goes (ensure_pool a.look_pool a.add_pool authority) (joining a) t t' config h in
      let (miner_id, t2, e2, h2) =
        bind-goes (ensure_miner a.look_miner a.signup a.look_again commissions authority)
          (reading a) t1 t' config h1 in
      let (pool_id, t3, e3, h3) =
        bind-goes (read_pool a.read_pool authority) (recording a miner_id) t2 t' config h2 in
      let (_, t4, e4, h4) =
        bind-goes (ensure_challenge a.look_challenge a.add_challenge challenge pool_id)
          (finishing miner_id pool_id) t3 t' config h3 in
      let config_is = config_of miner_id pool_id t4 t' config h4 in
      let end_is = end_of miner_id pool_id t4 t' config h4 in
      let miner =
        unless_miner-HasMiner a.look_miner a.look_again commissions
          (get_miner_by_pubkey_str a.look_miner commissions t1.accounts)
          (signup_user_transaction a.signup commissions authority t1.accounts) miner_id t1 t2 refl
          e2 in
      let (unread, pool) =
        pool_or_panic-HasPool a.read_pool authority
          (get_pool_by_authority_pubkey a.read_pool authority t2) pool_id t2 t3 refl e3 in
      let (kept, known) =
        unless_found-IsRecorded a.look_challenge a.add_challenge challenge pool_id t3 t4
          (get_challenge_by_challenge a.look_challenge challenge t3.challenges) refl e4 in
      let accounts : t2.accounts ≡ t4.accounts =
        ap (λ (u : Tables). u.accounts) unread ∙ sym kept in
      subst (λ (u : Tables). IsReady authority commissions challenge config u) end_is
        (subst (λ (c : Config). IsReady authority commissions challenge c t4) config_is
          (
            subst (λ (u : Accounts). HasPool authority pool_id u) (sym kept) pool,
            subst (λ (u : Accounts). HasMiner commissions miner_id u) accounts miner,
            known,
            refl,
          ))

  -- With a database that answers its looks, a start on tables that are ready goes through at once.
  start-ready :
      (a : StartAccesses) (t : Tables) (config : Config)
      → AllGranted a
      → IsReady authority commissions challenge config t
      → start a authority commissions challenge t ≡ goes config t
  unfolding start
  start-ready a t config all
        ((pool, pool_there, pool_id), (m, miner_there, miner_id), known, same) =
      bind-eq (ensure_pool a.look_pool a.add_pool authority) (joining a) t t tt
        (ensure_pool_found a.look_pool a.add_pool authority t pool all.0 pool_there)
      ∙ bind-eq (ensure_miner a.look_miner a.signup a.look_again commissions authority) (reading a)
          t t m.id
          (ensure_miner_found a.look_miner a.signup a.look_again commissions authority t m all.1
            miner_there)
      ∙ bind-eq (read_pool a.read_pool authority) (recording a m.id) t t pool.id
          (read_pool_found a.read_pool authority t pool all.2 pool_there)
      ∙ bind-eq (ensure_challenge a.look_challenge a.add_challenge challenge pool.id)
          (finishing m.id pool.id) t t tt
          (ensure_challenge_found a.look_challenge a.add_challenge challenge pool.id t known.0 all.3
            known.1)
      ∙ λ i.
          goes
            (record {
              pool_id = pool_id i;
              commissions_pubkey = sym same i;
              commissions_miner_id = miner_id i;
            })
            t

  -- If a start goes through, whatever its queries met, then the tables have the row of the pool, the
  -- receiver of the commissions and the challenge, the first two under the ids of the configuration;
  -- and a start on these tables with a database that answers its looks goes through, has the same
  -- configuration and changes nothing.
  pub start_restarts :
      (a b : StartAccesses) (t t' : Tables) (config : Config)
      → start a authority commissions challenge t ≡ goes config t'
      → AllGranted b
      → IsReady authority commissions challenge config t'
        × (start b authority commissions challenge t' ≡ goes config t')
  start_restarts a b t t' config h all =
      let ready = start-IsReady a t t' config h in (ready, start-ready b t' config all ready)

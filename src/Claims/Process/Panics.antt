-- ===== src/Claims/Process/Panics.antt =====
-- Where a settlement of src/systems/claim_system.rs can panic: in its first two reads only, so that a claim
-- whose task panics has written nothing.
use coal_pool_server.Prelude.{ℕ, ◌≡◌, refl, ◌≢◌, List, [], ◌∷◌, arith}
use coal_pool_server.Models.{Pool, StakeAccount}
use coal_pool_server.State.{Pubkey}
use coal_pool_server.Database.{Result, ok, err, Access, interact}
use coal_pool_server.Claims.Ledger.{
  Ledger, Progress, done, panicked, trying, Step, ◌>>=◌, ◌>>◌, unwrap, until_ok, until_found,
  add_new_claim, get_txn_by_sig, add_new_txn, update_pool_claimed, decrease_reward,
  decrease_stakers_rewards, get_miner_by_pubkey_str, get_pool_by_authority_pubkey,
  get_stake_account_for_staker,
}
use coal_pool_server.Claims.Process.{Accesses, settle_miner, settle_staker}
use coal_pool_server.Claims.Process.Steps.{after}

abbrev NeverPanics : {A : Type 0} → Step A → Type 0
NeverPanics m = (l : Ledger) → (m l).0 ≢ panicked

-- If it panics, the tables are those before it.
abbrev pub IsClean : {A : Type 0} → Step A → Type 0
IsClean m = (l : Ledger) → (m l).0 ≡ panicked → (m l).1 ≡ l

until_ok-NeverPanics :
    (accesses : List Access) (update : Ledger → Result Ledger)
    → NeverPanics (until_ok accesses update)
until_ok-NeverPanics [] update l e = cc e
until_ok-NeverPanics (a ∷ rest) update l e = ground (arith, e, until_ok-NeverPanics rest update l)

until_found-NeverPanics :
    {A : Type 0} (accesses : List Access) (query : Ledger → Result A)
    → NeverPanics (until_found accesses query)
until_found-NeverPanics [] query l e = cc e
until_found-NeverPanics (a ∷ rest) query l e =
    ground (arith, e, until_found-NeverPanics rest query l)

after-NeverPanics :
    {A B : Type 0} (f : A → Step B) (r : Progress A × Ledger)
    → r.0 ≢ panicked
    → ((x : A) → NeverPanics (f x))
    → (after f r).0 ≢ panicked
after-NeverPanics f (done x, l) never then = then x l
after-NeverPanics f (panicked, l) never then = λ e. never refl
after-NeverPanics f (trying, l) never then = λ e. cc e

bind-NeverPanics :
    {A B : Type 0} (m : Step A) (f : A → Step B)
    → NeverPanics m
    → ((x : A) → NeverPanics (f x))
    → NeverPanics (m >>= f)
bind-NeverPanics m f never then l = after-NeverPanics f (m l) (never l) then

NeverPanics-IsClean : {A : Type 0} (m : Step A) → NeverPanics m → IsClean m
NeverPanics-IsClean m never l e = absurd (never l e)

unwrap-IsClean :
    {A B : Type 0} (access : Access) (query : Ledger → Result A) (f : A → Step B)
    → ((x : A) → IsClean (f x))
    → IsClean (unwrap access query >>= f)
unwrap-IsClean access query f then l = read (interact access (query l))
  where
    read :
        (r : Result _)
        → let s = after f (elim r [ ok a ↦ (done a, l) | err e ↦ (panicked, l) ]) in
          s.0 ≡ panicked → s.1 ≡ l
    read (ok x) e = then x l e
    read (err x) e = refl

module _ (a : Accesses) (wallet user : Pubkey) (amount signature : ℕ) where
  -- What is left of a settlement after its reads, from its end.
  abbrev claiming : ℕ → Pool → ℕ → Step (Unit {0})
  claiming miner_id db_pool txn_id = until_ok a.claim (
      add_new_claim
        (record { miner_id = miner_id; pool_id = db_pool.id; txn_id = txn_id; amount = amount }))

  abbrev finding : ℕ → Pool → Step (Unit {0})
  finding miner_id db_pool =
      until_found a.txn_id (get_txn_by_sig signature) >>= claiming miner_id db_pool

  abbrev signing : Step (Unit {0})
  signing = until_ok a.txn (add_new_txn signature)

  abbrev counting : Step (Unit {0})
  counting = until_ok a.claimed (update_pool_claimed wallet amount)

  abbrev debiting : ℕ → Step (Unit {0})
  debiting miner_id = until_ok a.decrease (decrease_reward miner_id amount)

  abbrev debiting_staker : ℕ → Step (Unit {0})
  debiting_staker id = until_ok a.decrease (decrease_stakers_rewards id amount)

  -- The pool's total, the signature and what follows.
  rest-NeverPanics :
      (debit next : Step (Unit {0}))
      → NeverPanics debit
      → NeverPanics next
      → NeverPanics (debit >> (counting >> (signing >> next)))
  rest-NeverPanics debit next never then =
      bind-NeverPanics debit (λ _. counting >> (signing >> next)) never
        λ _.
          bind-NeverPanics counting (λ _. signing >> next)
            (until_ok-NeverPanics a.claimed (update_pool_claimed wallet amount))
            λ _.
              bind-NeverPanics signing (λ _. next)
                (until_ok-NeverPanics a.txn (add_new_txn signature)) λ _. then

  pub settle_miner-IsClean : IsClean (settle_miner a wallet user amount signature)
  unfolding settle_miner
  settle_miner-IsClean =
      let writes : ℕ → Pool → Step (Unit {0}) = λ (miner_id : ℕ) (db_pool : Pool).
        debiting miner_id >> (counting >> (signing >> finding miner_id db_pool)) in
      unwrap-IsClean a.account (get_miner_by_pubkey_str user)
        (λ miner_id. unwrap a.pool (get_pool_by_authority_pubkey wallet) >>= writes miner_id)
        λ miner_id.
          unwrap-IsClean a.pool (get_pool_by_authority_pubkey wallet) (writes miner_id) λ db_pool.
            NeverPanics-IsClean (writes miner_id db_pool) (
              rest-NeverPanics (debiting miner_id) (finding miner_id db_pool)
                (until_ok-NeverPanics a.decrease (decrease_reward miner_id amount))
                (bind-NeverPanics (until_found a.txn_id (get_txn_by_sig signature))
                  (claiming miner_id db_pool)
                  (until_found-NeverPanics a.txn_id (get_txn_by_sig signature))
                  λ txn_id. until_ok-NeverPanics a.claim _))

  pub settle_staker-IsClean :
      (mint : Pubkey) → IsClean (settle_staker a wallet user mint amount signature)
  unfolding settle_staker
  settle_staker-IsClean mint =
      let writes : StakeAccount → Step (Unit {0}) =
        λ (staker : StakeAccount). debiting_staker staker.id >> (counting >> signing) in
      unwrap-IsClean a.pool (get_pool_by_authority_pubkey wallet)
        (λ db_pool. unwrap a.account (get_stake_account_for_staker db_pool.id user mint) >>= writes)
        λ db_pool.
          unwrap-IsClean a.account (get_stake_account_for_staker db_pool.id user mint) writes
            λ staker. NeverPanics-IsClean (writes staker) (
              bind-NeverPanics (debiting_staker staker.id) (λ _. counting >> signing)
                (until_ok-NeverPanics a.decrease (decrease_stakers_rewards staker.id amount))
                λ _.
                  bind-NeverPanics counting (λ _. signing)
                    (until_ok-NeverPanics a.claimed (update_pool_claimed wallet amount))
                    λ _. until_ok-NeverPanics a.txn (add_new_txn signature))
